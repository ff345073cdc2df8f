-- ===== src/Protocol/Basic/RoundTrip.antt =====
-- Length-encoded numbers are read back, and so is the OK packet that the proxy writes.
use haentgl.Prelude.{
  ℕ, zero, suc, ◌*◌, ◌/◌, ◌≤◌, ◌<◌, ◌≡◌, refl, ◌∙◌, List, ◌++◌, length, arith, take, drop, inl, inr,
  ◌⊎◌,
}
use haentgl.Extern.Winnow.{Winnow, ok}
use haentgl.Extern.Lenenc.{LenencInt, le_bytes}
use haentgl.Protocol.Basic.{le_value, read_length_encoded_number}

abbrev words : ℕ → ℕ
words zero = 1
words (suc k) = 256 * words k

le_value-le_bytes : (k n : ℕ) → n < words k → le_value (le_bytes k n) ≡ n
le_value-le_bytes zero n h = omega arith
le_value-le_bytes (suc k) n h = omega (arith, le_value-le_bytes k (n / 256) (omega arith))

length-le_bytes : (k n : ℕ) → length (le_bytes k n) ≡ k
length-le_bytes zero n = refl
length-le_bytes (suc k) n = omega (arith, length-le_bytes k (n / 256))

take-le_bytes : (k n : ℕ) (rest : List ℕ) → take k (le_bytes k n ++ rest) ≡ le_bytes k n
take-le_bytes zero n rest = refl
take-le_bytes (suc k) n rest = rw (take-le_bytes k (n / 256) rest)

drop-le_bytes : (k n : ℕ) (rest : List ℕ) → drop k (le_bytes k n ++ rest) ≡ rest
drop-le_bytes zero n rest = refl
drop-le_bytes (suc k) n rest = drop-le_bytes k (n / 256) rest

long_enough : (k n : ℕ) (rest : List ℕ) → k ≤ length (le_bytes k n ++ rest)
long_enough zero n rest = omega arith
long_enough (suc k) n rest = omega (arith, long_enough k (n / 256) rest)

sizes :
    (n : ℕ)
    → (n < 251) ⊎ ((251 ≤ n) × (n < 65536)) ⊎ ((65536 ≤ n) × (n < 16777216)) ⊎ (16777216 ≤ n)
sizes n = ground arith

module _ (w : Winnow) where
  taken : (k n : ℕ) (rest : List ℕ) → w.take k (le_bytes k n ++ rest) ≡ ok rest (le_bytes k n)
  taken k n rest =
      w.take_ok k (le_bytes k n ++ rest) (long_enough k n rest)
      ∙ rw (take-le_bytes k n rest, drop-le_bytes k n rest)

  -- A number of 64 bits in the protocol's length-encoded form is read back, whatever follows it.
  pub read-write_lenenc_int :
      (out : LenencInt) (n : ℕ) (rest : List ℕ)
      → n < 18446744073709551616
      → read_length_encoded_number w (out.write_lenenc_int n ++ rest) ≡ ok rest n
  unfolding read_length_encoded_number
  read-write_lenenc_int out n rest h = elim (sizes n) [
    | inl lt ↦ rw (out.write_one n lt, w.le_u8_ok n rest) (ground arith)
    | inr (inl (lo, hi)) ↦ rw (
      out.write_two n lo hi,
      w.le_u8_ok 0xfc (le_bytes 2 n ++ rest),
      taken 2 n rest,
      le_value-le_bytes 2 n (omega arith),
    )
    | inr (inr (inl (lo, hi))) ↦ rw (
      out.write_three n lo hi,
      w.le_u8_ok 0xfd (le_bytes 3 n ++ rest),
      taken 3 n rest,
      le_value-le_bytes 3 n (omega arith),
    )
    | inr (inr (inr lo)) ↦ rw (
      out.write_eight n lo h,
      w.le_u8_ok 0xfe (le_bytes 8 n ++ rest),
      taken 8 n rest,
      le_value-le_bytes 8 n (omega arith),
    )
  ]

-- The four forms take one, three, four and nine bytes.
pub length-write_lenenc_int :
    (out : LenencInt) (n : ℕ) → n < 18446744073709551616 → length (out.write_lenenc_int n) ≤ 9
length-write_lenenc_int out n h = elim (sizes n) [
  | inl lt ↦ rw (out.write_one n lt) (omega arith)
  | inr (inl (lo, hi)) ↦ rw (out.write_two n lo hi) (omega (arith, length-le_bytes 2 n))
  | inr (inr (inl (lo, hi))) ↦ rw (out.write_three n lo hi) (omega (arith, length-le_bytes 3 n))
  | inr (inr (inr lo)) ↦ rw (out.write_eight n lo h) (omega (arith, length-le_bytes 8 n))
]
