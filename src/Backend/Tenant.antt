-- ===== src/Backend/Tenant.antt =====
-- Tenant keys: src/proxy/src/backend/mod.rs. A text is the list of its code points.
pub mod RoundTrip
mod Tests
use haentgl.Prelude.{
  ℕ, ◌+◌, ◌-◌, ◌*◌, ◌%◌, Bool, ◌&&◌, ◌||◌, Option, some, List, [], ◌∷◌, ◌++◌, leb, ◌==◌,
  if◌then◌else◌, ◌>>=◌, take,
}
use haentgl.Prelude.Words.{add_u8, as_u8}
use haentgl.Prelude.Text.{byte_len, slice}
use haentgl.Extern.Hex.{Hex}
use mathlib.Core.List.{foldl}

-- prost's message of protos/common.proto.
pub record TenantKey : Type 0 where
  pub region : List ℕ
  pub available_zone : List ℕ
  pub namespace : List ℕ
  pub cluster_name : List ℕ

abbrev default_tenant_key : TenantKey
default_tenant_key = record { region = []; available_zone = []; namespace = []; cluster_name = [] }

abbrev is_ascii_lowercase : ℕ → Bool
is_ascii_lowercase c = leb b'a' c && leb c b'z'

abbrev is_ascii_alphabetic : ℕ → Bool
is_ascii_alphabetic c = (leb b'a' c && leb c b'z') || (leb b'A' c && leb c b'Z')

obfuscate_char : ℕ → ℕ → ℕ
obfuscate_char c index =
    if is_ascii_alphabetic c
    then (let shift = (index * 3 + 10) % 26 in
        let base = if is_ascii_lowercase c then b'a' else b'A' in
        (c - base + 26 - shift) % 26 + base)
    else c

restore_char : ℕ → ℕ → ℕ
restore_char c index =
    if is_ascii_alphabetic c
    then (let shift = (index * 3 + 10) % 26 in
        let base = if is_ascii_lowercase c then b'a' else b'A' in (c - base + shift) % 26 + base)
    else c

-- `.chars().enumerate().map(f).collect()`, from the index reached.
map_enumerate : (ℕ → ℕ → ℕ) → ℕ → List ℕ → List ℕ
map_enumerate f i [] = []
map_enumerate f i (c ∷ s) = f c i ∷ map_enumerate f (i + 1) s

pub obfuscate_string : List ℕ → List ℕ
unfolding map_enumerate obfuscate_char
obfuscate_string s = map_enumerate obfuscate_char 0 s

pub restore_string : List ℕ → List ℕ
unfolding map_enumerate restore_char
restore_string s = map_enumerate restore_char 0 s

-- `.iter().sum::<u8>()`.
sum_u8 : List ℕ → ℕ
sum_u8 = foldl add_u8 0

abbrev set_field : ℕ → List ℕ → TenantKey → TenantKey
set_field idx field key =
    if idx == 0
    then record key { region = field }
    else if idx == 1
    then record key { available_zone = field }
    else if idx == 2
    then record key { namespace = field }
    else if idx == 3
    then record key { cluster_name = field }
    else key

-- The body of `for_each` over the lengths that are left, `idx` of them being done.
decode_fields : List ℕ → List ℕ → ℕ → List ℕ → TenantKey → Option TenantKey
decode_fields key_string key_len idx [] key = some key
decode_fields key_string key_len idx (len ∷ rest) key =
    let start = 8 + sum_u8 (take idx key_len) in
    let go = λ (field : List ℕ).
      decode_fields key_string key_len (idx + 1) rest (set_field idx (restore_string field) key) in
    slice key_string start (start + len) >>= go

module _ (hex : Hex) where
  pub encode_tenant_key : TenantKey → List ℕ
  encode_tenant_key key =
      let encode_region = obfuscate_string key.region in
      let encode_az = obfuscate_string key.available_zone in
      let encode_s = obfuscate_string key.namespace in
      let encode_cluster_name = obfuscate_string key.cluster_name in
      hex.encode (
        as_u8 (byte_len encode_region)
        ∷ as_u8 (byte_len encode_az)
        ∷ as_u8 (byte_len encode_s)
        ∷ as_u8 (byte_len encode_cluster_name)
        ∷ [])
      ++ (encode_region ++ (encode_az ++ (encode_s ++ encode_cluster_name)))

  -- `none`: a panic, of a slice or of the `unwrap` of `hex::decode`.
  pub decode_tenant_key : List ℕ → Option TenantKey
  decode_tenant_key key_string = do
    header ← slice key_string 0 8
    key_len ← hex.decode header
    decode_fields key_string key_len 0 key_len default_tenant_key
