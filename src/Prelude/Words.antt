-- ===== src/Prelude/Words.antt =====
-- Bytes and machine words as bounded native numbers. Arithmetic wraps, as in a release build.
use Prim.Native.Nat.{ℕ, ◌+◌, ◌/◌, ◌%◌, ◌<◌}
use mathlib.Core.List.{List, [], ◌∷◌}

abbrev pub IsByte : ℕ → Type 0
IsByte b = b < 256

-- `as u8`.
abbrev pub as_u8 : ℕ → ℕ
as_u8 n = n % 256

-- `a + b` on `u8`.
abbrev pub add_u8 : ℕ → ℕ → ℕ
add_u8 a b = (a + b) % 256

-- `a + b` on `u16`.
abbrev pub add_u16 : ℕ → ℕ → ℕ
add_u16 a b = (a + b) % 65536

-- The bytes of a word, lowest first.
abbrev pub le_bytes_2 : ℕ → List ℕ
le_bytes_2 n = n % 256 ∷ n / 256 % 256 ∷ []

abbrev pub le_bytes_3 : ℕ → List ℕ
le_bytes_3 n = n % 256 ∷ n / 256 % 256 ∷ n / 65536 % 256 ∷ []

abbrev pub le_bytes_4 : ℕ → List ℕ
le_bytes_4 n = n % 256 ∷ n / 256 % 256 ∷ n / 65536 % 256 ∷ n / 16777216 % 256 ∷ []
