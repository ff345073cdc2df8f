-- ===== src/Protocol/Charset/Defaults.antt =====
-- The default collations of the character sets: src/proxy/src/protocol/mysql/charset.rs.
use haentgl.Prelude.{
  ℕ, ◌≡◌, refl, Option, none, some, Option-cases, Bool-cases, List, [], ◌∷◌, Bool, true, false,
  ◌&&◌, if◌then◌else◌, leb, inl, inr, arith,
}
use Prim.Native.String.{String}
use text.Mathlib.Text.{◌==◌ as text_eq}
use haentgl.Protocol.Charset.{get, collation_of}
use haentgl.Protocol.Charset.Tables.{collations}

pub charset_ids : List (String × ℕ)
charset_ids =
    ("big5", 1)
    ∷ ("dec8", 3)
    ∷ ("cp850", 4)
    ∷ ("hp8", 6)
    ∷ ("koi8r", 7)
    ∷ ("latin1", 8)
    ∷ ("latin2", 9)
    ∷ ("swe7", 10)
    ∷ ("ascii", 11)
    ∷ ("ujis", 12)
    ∷ ("sjis", 13)
    ∷ ("hebrew", 16)
    ∷ ("tis620", 18)
    ∷ ("euckr", 19)
    ∷ ("koi8u", 22)
    ∷ ("gb2312", 24)
    ∷ ("greek", 25)
    ∷ ("cp1250", 26)
    ∷ ("gbk", 28)
    ∷ ("latin5", 30)
    ∷ ("armscii8", 32)
    ∷ ("utf8", 33)
    ∷ ("ucs2", 35)
    ∷ ("cp866", 36)
    ∷ ("keybcs2", 37)
    ∷ ("macce", 38)
    ∷ ("macroman", 39)
    ∷ ("cp852", 40)
    ∷ ("latin7", 41)
    ∷ ("utf8mb4", 45)
    ∷ ("cp1251", 51)
    ∷ ("utf16", 54)
    ∷ ("utf16le", 56)
    ∷ ("cp1256", 57)
    ∷ ("cp1257", 59)
    ∷ ("utf32", 60)
    ∷ ("binary", 63)
    ∷ ("geostd8", 92)
    ∷ ("cp932", 95)
    ∷ ("eucjpms", 97)
    ∷ []

-- `.unwrap()` and `.try_into().unwrap()` to a byte: `none` is a panic.
abbrev to_byte : Option ℕ → Option ℕ
to_byte none = none
to_byte (some id) = if leb id 255 then some id else none

unfoldable pub get_charset_id : String → Option ℕ
get_charset_id charset_name =
    if text_eq charset_name "utf8mb4"
    then some 46
    else if text_eq charset_name "binary"
    then some 63
    else if text_eq charset_name "utf8"
    then some 83
    else if text_eq charset_name "ascii"
    then some 65
    else if text_eq charset_name "latin1"
    then some 47
    else to_byte (get text_eq charset_ids charset_name)

abbrev pub named : Option String → Bool
named none = false
named (some name) = true

abbrev all_named : List (String × ℕ) → Bool
all_named [] = true
all_named ((name, id) ∷ rest) = let more = all_named rest in named (collation_of id) && more

get-named :
    (es : List (String × ℕ)) (name : String) (id : ℕ)
    → all_named es ≡ true
    → get text_eq es name ≡ some id
    → named (collation_of id) ≡ true
unfolding get
get-named [] name id all h = absurd (ground arith)
get-named ((n, i) ∷ es) name id all h = elim (Option-cases (get text_eq es name)) [
  | inr (j, e) ↦ get-named es name id (ground arith) (ground arith)
  | inl e ↦ elim (Bool-cases (text_eq n name)) [
    | inr no? ↦ absurd (ground arith)
    | inl yes? ↦ ground arith
  ]
]

charset_ids-named : all_named charset_ids ≡ true
unfolding charset_ids collations get
charset_ids-named = refl

fast_path-named :
    (named (collation_of 46) ≡ true)
    × (named (collation_of 63) ≡ true)
    × (named (collation_of 83) ≡ true)
    × (named (collation_of 65) ≡ true)
    × (named (collation_of 47) ≡ true)
unfolding collations get
fast_path-named = (refl, refl, refl, refl, refl)

-- Every number that `get_charset_id` returns is the number of a collation.
pub get_charset_id-named :
    (charset_name : String) (id : ℕ)
    → get_charset_id charset_name ≡ some id
    → named (collation_of id) ≡ true
unfolding get_charset_id
get_charset_id-named charset_name id h =
    ground (arith, fast_path-named, get-named charset_ids charset_name id charset_ids-named)
