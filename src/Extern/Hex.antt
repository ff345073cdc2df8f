-- ===== src/Extern/Hex.antt =====
-- The `hex` crate: `hex::encode` and `hex::decode`.
pub mod Digits
use haentgl.Prelude.{ℕ, ◌*◌, ◌≡◌, List, Option, some, All, length}
use haentgl.Prelude.Words.{IsByte}
use haentgl.Prelude.Text.{byte_len}

pub record Hex : Type 0 where
  pub encode : List ℕ → List ℕ
  -- `none` is the error result.
  pub decode : List ℕ → Option (List ℕ)
  -- Two ASCII digits for each byte.
  pub byte_len-encode : (bs : List ℕ) → All IsByte bs → byte_len (encode bs) ≡ 2 * length bs
  pub decode-encode : (bs : List ℕ) → All IsByte bs → decode (encode bs) ≡ some bs
