-- ===== src/Backend/Tenant/RoundTrip.antt =====
-- Decoding undoes encoding.
use haentgl.Prelude.{
  ℕ, ◌+◌, ◌<◌, ◌≡◌, refl, some, List, [], ◌∷◌, ◌++◌, arith, append_assoc, take, All,
}
use haentgl.Prelude.Words.{as_u8, IsByte}
use haentgl.Prelude.Text.{utf8_width, byte_len, slice, slice-append, slice-end, byte_len-append}
use haentgl.Extern.Hex.{Hex}
use haentgl.Backend.Tenant.{
  TenantKey, obfuscate_char, restore_char, map_enumerate, obfuscate_string, restore_string,
  decode_fields, sum_u8, default_tenant_key, encode_tenant_key, decode_tenant_key,
}

-- `restore_char` undoes `obfuscate_char` at every index, on every character.
restore-obfuscate_char : (c i : ℕ) → restore_char (obfuscate_char c i) i ≡ c
unfolding restore_char obfuscate_char
restore-obfuscate_char c i = ground arith

width-obfuscate_char : (c i : ℕ) → utf8_width (obfuscate_char c i) ≡ utf8_width c
unfolding obfuscate_char utf8_width
width-obfuscate_char c i = ground arith

restore-obfuscate_from :
    (i : ℕ) (s : List ℕ) → map_enumerate restore_char i (map_enumerate obfuscate_char i s) ≡ s
unfolding map_enumerate
restore-obfuscate_from i [] = refl
restore-obfuscate_from i (c ∷ s) = rw (restore-obfuscate_char c i, restore-obfuscate_from (i + 1) s)

-- `restore_string` undoes `obfuscate_string`.
pub restore-obfuscate : (s : List ℕ) → restore_string (obfuscate_string s) ≡ s
unfolding restore_string obfuscate_string
restore-obfuscate s = restore-obfuscate_from 0 s

byte_len-obfuscate_from :
    (i : ℕ) (s : List ℕ) → byte_len (map_enumerate obfuscate_char i s) ≡ byte_len s
unfolding map_enumerate byte_len
byte_len-obfuscate_from i [] = refl
byte_len-obfuscate_from i (c ∷ s) = rw (width-obfuscate_char c i, byte_len-obfuscate_from (i + 1) s)

-- Obfuscation keeps the length in bytes.
pub byte_len-obfuscate : (s : List ℕ) → byte_len (obfuscate_string s) ≡ byte_len s
unfolding obfuscate_string
byte_len-obfuscate s = byte_len-obfuscate_from 0 s

-- Four texts behind a header of eight bytes, with lengths whose sum does not wrap.
module _ (h r a n c : List ℕ) (header : byte_len h ≡ 8)
    (fits : byte_len r + byte_len a + byte_len n < 256) where
  abbrev whole : List ℕ
  whole = h ++ (r ++ (a ++ (n ++ c)))

  abbrev lens : List ℕ
  lens = byte_len r ∷ byte_len a ∷ byte_len n ∷ byte_len c ∷ []

  abbrev offset : ℕ → ℕ
  offset idx = 8 + sum_u8 (take idx lens)

  slice_region : slice whole (offset 0) (offset 0 + byte_len r) ≡ some r
  unfolding sum_u8
  slice_region = slice-append h r (a ++ (n ++ c)) _ _ header (omega arith)

  slice_zone : slice whole (offset 1) (offset 1 + byte_len a) ≡ some a
  unfolding sum_u8
  slice_zone =
      rw (← append_assoc h r (a ++ (n ++ c)))
        (slice-append (h ++ r) a (n ++ c) _ _ (omega (arith, byte_len-append h r)) refl)

  slice_namespace : slice whole (offset 2) (offset 2 + byte_len n) ≡ some n
  unfolding sum_u8
  slice_namespace =
      rw (← append_assoc r a (n ++ c), ← append_assoc h (r ++ a) (n ++ c))
        (slice-append (h ++ (r ++ a)) n c _ _
          (omega (arith, byte_len-append h (r ++ a), byte_len-append r a)) refl)

  slice_cluster : slice whole (offset 3) (offset 3 + byte_len c) ≡ some c
  unfolding sum_u8
  slice_cluster =
      rw (← append_assoc a n c, ← append_assoc r (a ++ n) c, ← append_assoc h (r ++ (a ++ n)) c)
        (slice-end (h ++ (r ++ (a ++ n))) c _ _
          (omega (
            arith,
            byte_len-append h (r ++ (a ++ n)),
            byte_len-append r (a ++ n),
            byte_len-append a n,
          ))
          refl)

  -- The four rounds of the loop.
  decode_fields_lem :
      decode_fields whole lens 0 lens default_tenant_key
      ≡ some (record {
        region = restore_string r;
        available_zone = restore_string a;
        namespace = restore_string n;
        cluster_name = restore_string c;
      })
  unfolding decode_fields
  decode_fields_lem = rw (slice_region, slice_zone, slice_namespace, slice_cluster)

-- The length byte of a short field is its length.
length_byte :
    (s : List ℕ)
    → byte_len s < 256
    → as_u8 (byte_len (obfuscate_string s)) ≡ byte_len (obfuscate_string s)
length_byte s h = omega (arith, byte_len-obfuscate s)

-- A tenant key survives encoding and decoding if the lengths in bytes of its first three fields sum
-- to less than 256, and the last is less than 256.
pub decode-encode_tenant_key :
    (hex : Hex) (key : TenantKey)
    → byte_len key.region + byte_len key.available_zone + byte_len key.namespace < 256
    → byte_len key.cluster_name < 256
    → decode_tenant_key hex (encode_tenant_key hex key) ≡ some key
unfolding decode_tenant_key encode_tenant_key
decode-encode_tenant_key hex key fits last =
    let r = obfuscate_string key.region in
    let a = obfuscate_string key.available_zone in
    let n = obfuscate_string key.namespace in
    let c = obfuscate_string key.cluster_name in
    let lengths : List ℕ = byte_len r ∷ byte_len a ∷ byte_len n ∷ byte_len c ∷ [] in
    let bytes : All IsByte lengths = omega (
      arith,
      byte_len-obfuscate key.region,
      byte_len-obfuscate key.available_zone,
      byte_len-obfuscate key.namespace,
      byte_len-obfuscate key.cluster_name,
    ) in
    let header : byte_len (hex.encode lengths) ≡ 8 = hex.byte_len-encode lengths bytes in
    rw (
      length_byte key.region (omega arith),
      length_byte key.available_zone (omega arith),
      length_byte key.namespace (omega arith),
      length_byte key.cluster_name (omega arith),
      slice-append [] (hex.encode lengths) (r ++ (a ++ (n ++ c))) 0 8 (unfold byte_len in refl)
          (omega (arith, header)),
      hex.decode-encode lengths bytes,
      decode_fields_lem (hex.encode lengths) r a n c header (
          omega (
            arith,
            byte_len-obfuscate key.region,
            byte_len-obfuscate key.available_zone,
            byte_len-obfuscate key.namespace,
          )),
      restore-obfuscate key.region,
      restore-obfuscate key.available_zone,
      restore-obfuscate key.namespace,
      restore-obfuscate key.cluster_name,
    )
