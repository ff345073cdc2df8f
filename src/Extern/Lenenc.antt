-- ===== src/Extern/Lenenc.antt =====
-- `write_lenenc_int` of the `mysql_common` crate: the length-encoded integers of the MySQL protocol.
use haentgl.Prelude.{
  ℕ, zero, suc, ◌/◌, ◌%◌, ◌≤◌, ◌<◌, ◌≡◌, List, [], ◌∷◌, arith, ltb, if◌then◌else◌,
}

-- The lowest bytes of a number.
abbrev pub le_bytes : ℕ → ℕ → List ℕ
le_bytes zero n = []
le_bytes (suc k) n = n % 256 ∷ le_bytes k (n / 256)

pub record LenencInt : Type 0 where
  pub write_lenenc_int : ℕ → List ℕ
  pub write_one : (n : ℕ) → n < 251 → write_lenenc_int n ≡ n ∷ []
  pub write_two : (n : ℕ) → 251 ≤ n → n < 65536 → write_lenenc_int n ≡ 0xfc ∷ le_bytes 2 n
  pub write_three : (n : ℕ) → 65536 ≤ n → n < 16777216 → write_lenenc_int n ≡ 0xfd ∷ le_bytes 3 n
  pub write_eight :
      (n : ℕ) → 16777216 ≤ n → n < 18446744073709551616 → write_lenenc_int n ≡ 0xfe ∷ le_bytes 8 n

abbrev by_size : ℕ → List ℕ
by_size n =
    if ltb n 251
    then n ∷ []
    else if ltb n 65536
    then 0xfc ∷ le_bytes 2 n
    else if ltb n 16777216
    then 0xfd ∷ le_bytes 3 n
    else 0xfe ∷ le_bytes 8 n

pub by_size_one : (n : ℕ) → n < 251 → by_size n ≡ n ∷ []
by_size_one n h = ground arith

pub by_size_two : (n : ℕ) → 251 ≤ n → n < 65536 → by_size n ≡ 0xfc ∷ le_bytes 2 n
by_size_two n lo hi = ground arith

pub by_size_three : (n : ℕ) → 65536 ≤ n → n < 16777216 → by_size n ≡ 0xfd ∷ le_bytes 3 n
by_size_three n lo hi = ground arith

pub by_size_eight :
    (n : ℕ) → 16777216 ≤ n → n < 18446744073709551616 → by_size n ≡ 0xfe ∷ le_bytes 8 n
by_size_eight n lo hi = ground arith

-- A concrete writer that meets the laws.
abbrev pub lenenc : LenencInt
lenenc = record {
  write_lenenc_int = by_size;
  write_one = by_size_one;
  write_two = by_size_two;
  write_three = by_size_three;
  write_eight = by_size_eight;
}
