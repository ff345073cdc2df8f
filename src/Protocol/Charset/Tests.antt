-- ===== src/Protocol/Charset/Tests.antt =====
-- A collation and its number.
use haentgl.Prelude.{◌≡◌, ◌↔◌, refl, true, some}
use haentgl.Protocol.Charset.Defaults.{named, get_charset_id, get_charset_id-named}
use haentgl.Protocol.Charset.{collation_of, id_of, collations_iff}

collations_iff_example :
    (collation_of 45 ≡ some "utf8mb4_general_ci") ↔ (id_of "utf8mb4_general_ci" ≡ some 45)
collations_iff_example = collations_iff 45 "utf8mb4_general_ci"

utf8mb4_id : get_charset_id "utf8mb4" ≡ some 46
unfolding get_charset_id
utf8mb4_id = refl

get_charset_id-named_example : named (collation_of 46) ≡ true
get_charset_id-named_example = get_charset_id-named "utf8mb4" 46 utf8mb4_id
