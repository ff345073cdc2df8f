-- ===== src/Extern/Winnow.antt =====
-- The `winnow` parsers over a complete byte slice (`&[u8]`) that the packet code calls through
-- `parse_peek`. On such input a failure is always `Backtrack`.
pub mod Slices
use haentgl.Prelude.{
  ℕ, ◌+◌, ◌*◌, ◌≤◌, ◌<◌, ◌≡◌, ◌≢◌, List, [], ◌∷◌, ◌++◌, length, take as take_list, drop,
}

pub data ErrMode : Type 0 where
  incomplete backtrack cut : ErrMode

pub data IResult {ℓ} (A : Type ℓ) : Type ℓ where
  ok : List ℕ → A → IResult A
  err : ErrMode → IResult A

-- `let (i, x) = m?; k`.
infixl 5 ◌>>=◌
abbrev pub ◌>>=◌ {ℓ κ} :
    {A : Type ℓ} {B : Type κ} → IResult A → (List ℕ × A → IResult B) → IResult B
ok i a >>= f = f (i, a)
err e >>= f = err e

pub record Winnow : Type 0 where
  pub take : ℕ → List ℕ → IResult (List ℕ)
  pub literal : List ℕ → List ℕ → IResult (List ℕ)
  pub le_u8 : List ℕ → IResult ℕ
  pub le_u16 : List ℕ → IResult ℕ
  pub le_u24 : List ℕ → IResult ℕ
  pub take_ok : (n : ℕ) (i : List ℕ) → n ≤ length i → take n i ≡ ok (drop n i) (take_list n i)
  pub take_short : (n : ℕ) (i : List ℕ) → length i < n → take n i ≡ err backtrack
  pub literal_ok : (p i : List ℕ) → literal p (p ++ i) ≡ ok i p
  pub literal_ne : (p i : List ℕ) → take_list (length p) i ≢ p → literal p i ≡ err backtrack
  pub le_u8_ok : (a : ℕ) (i : List ℕ) → le_u8 (a ∷ i) ≡ ok i a
  pub le_u8_short : le_u8 [] ≡ err backtrack
  pub le_u16_ok : (a b : ℕ) (i : List ℕ) → le_u16 (a ∷ b ∷ i) ≡ ok i (a + 256 * b)
  pub le_u16_short : (i : List ℕ) → length i < 2 → le_u16 i ≡ err backtrack
  pub le_u24_ok : (a b c : ℕ) (i : List ℕ) → le_u24 (a ∷ b ∷ c ∷ i) ≡ ok i (a + 256 * b + 65536 * c)
  pub le_u24_short : (i : List ℕ) → length i < 3 → le_u24 i ≡ err backtrack
