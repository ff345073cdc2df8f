-- ===== src/Extern/Hex/Digits.antt =====
-- A concrete codec that meets the laws of `Hex`, for runs on concrete inputs.
use haentgl.Prelude.{
  ℕ, ◌+◌, ◌-◌, ◌*◌, ◌/◌, ◌%◌, ◌<◌, ◌≡◌, refl, Option, none, some, List, [], ◌∷◌, arith, leb, ltb,
  if◌then◌else◌, ◌>>=◌, ◌&&◌, All, length,
}
use haentgl.Prelude.Words.{IsByte}
use haentgl.Prelude.Text.{byte_len, utf8_width_ascii, utf8_width}
use haentgl.Extern.Hex.{Hex}

abbrev digit : ℕ → ℕ
digit n = if ltb n 10 then 48 + n else 87 + n

abbrev digit_value : ℕ → Option ℕ
digit_value c =
    if leb 48 c && leb c 57
    then some (c - 48)
    else if leb 97 c && leb c 102
    then some (c - 87)
    else none

abbrev encode_bytes : List ℕ → List ℕ
encode_bytes [] = []
encode_bytes (b ∷ bs) = digit (b / 16) ∷ digit (b % 16) ∷ encode_bytes bs

abbrev decode_digits : List ℕ → Option (List ℕ)
decode_digits [] = some []
decode_digits (c ∷ []) = none
decode_digits (c ∷ d ∷ s) = do
  hi ← digit_value c
  lo ← digit_value d
  rest ← decode_digits s
  some ((hi * 16 + lo) ∷ rest)

digit_value-digit : (n : ℕ) → n < 16 → digit_value (digit n) ≡ some n
digit_value-digit n h = ground arith

width-digit : (n : ℕ) → n < 16 → utf8_width (digit n) ≡ 1
width-digit n h = utf8_width_ascii (digit n) (ground arith)

pub byte_len-encode_bytes :
    (bs : List ℕ) → All IsByte bs → byte_len (encode_bytes bs) ≡ 2 * length bs
unfolding byte_len
byte_len-encode_bytes [] h = refl
byte_len-encode_bytes (b ∷ bs) h = omega (
  arith,
  byte_len-encode_bytes bs h.1,
  width-digit (b / 16) (omega arith),
  width-digit (b % 16) (omega arith),
)

pub decode_digits-encode_bytes :
    (bs : List ℕ) → All IsByte bs → decode_digits (encode_bytes bs) ≡ some bs
decode_digits-encode_bytes [] h = refl
decode_digits-encode_bytes (b ∷ bs) h =
    rw
      (
        digit_value-digit (b / 16) (omega arith),
        digit_value-digit (b % 16) (omega arith),
        decode_digits-encode_bytes bs h.1,
      )
      (ground arith)

abbrev pub lower_hex : Hex
lower_hex = record {
  encode = encode_bytes;
  decode = decode_digits;
  byte_len-encode = byte_len-encode_bytes;
  decode-encode = decode_digits-encode_bytes;
}
