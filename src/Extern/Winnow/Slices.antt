-- ===== src/Extern/Winnow/Slices.antt =====
-- Concrete parsers that meet the laws of `Winnow`, for runs on concrete inputs.
use haentgl.Prelude.{
  ℕ, ◌+◌, ◌*◌, ◌≤◌, ◌<◌, ◌≡◌, ◌≢◌, refl, List, [], ◌∷◌, ◌++◌, arith, length, take as take_list,
  drop, leb, ◌==◌, if◌then◌else◌, ==_iff, le→leb, lt→leb,
}
use haentgl.Extern.Winnow.{IResult, ok, err, backtrack, Winnow}

abbrev take_slice : ℕ → List ℕ → IResult (List ℕ)
take_slice n i = if leb n (length i) then ok (drop n i) (take_list n i) else err backtrack

abbrev again : ℕ → IResult (List ℕ) → IResult (List ℕ)
again a (ok i p) = ok i (a ∷ p)
again a (err e) = err e

abbrev literal_slice : List ℕ → List ℕ → IResult (List ℕ)
literal_slice [] i = ok i []
literal_slice (a ∷ p) [] = err backtrack
literal_slice (a ∷ p) (b ∷ i) = if a == b then again a (literal_slice p i) else err backtrack

abbrev u8_slice : List ℕ → IResult ℕ
u8_slice [] = err backtrack
u8_slice (a ∷ i) = ok i a

abbrev u16_slice : List ℕ → IResult ℕ
u16_slice (a ∷ b ∷ i) = ok i (a + 256 * b)
u16_slice _ = err backtrack

abbrev u24_slice : List ℕ → IResult ℕ
u24_slice (a ∷ b ∷ c ∷ i) = ok i (a + 256 * b + 65536 * c)
u24_slice _ = err backtrack

pub take_slice_ok :
    (n : ℕ) (i : List ℕ) → n ≤ length i → take_slice n i ≡ ok (drop n i) (take_list n i)
take_slice_ok n i h = rw (le→leb n (length i) h)

pub take_slice_short : (n : ℕ) (i : List ℕ) → length i < n → take_slice n i ≡ err backtrack
take_slice_short n i h = rw (lt→leb n (length i) h)

pub literal_slice_ok : (p i : List ℕ) → literal_slice p (p ++ i) ≡ ok i p
literal_slice_ok [] i = refl
literal_slice_ok (a ∷ p) i = rw ((==_iff a a).1 refl, literal_slice_ok p i)

pub literal_slice_ne :
    (p i : List ℕ) → take_list (length p) i ≢ p → literal_slice p i ≡ err backtrack
literal_slice_ne [] i h = absurd (h refl)
literal_slice_ne (a ∷ p) [] h = refl
literal_slice_ne (a ∷ p) (b ∷ i) h = ground (arith, literal_slice_ne p i)

pub u16_slice_short : (i : List ℕ) → length i < 2 → u16_slice i ≡ err backtrack
u16_slice_short [] h = refl
u16_slice_short (a ∷ []) h = refl
u16_slice_short (a ∷ b ∷ i) h = absurd (omega arith)

pub u24_slice_short : (i : List ℕ) → length i < 3 → u24_slice i ≡ err backtrack
u24_slice_short [] h = refl
u24_slice_short (a ∷ []) h = refl
u24_slice_short (a ∷ b ∷ []) h = refl
u24_slice_short (a ∷ b ∷ c ∷ i) h = absurd (omega arith)

abbrev pub slices : Winnow
slices = record {
  take = take_slice;
  literal = literal_slice;
  le_u8 = u8_slice;
  le_u16 = u16_slice;
  le_u24 = u24_slice;
  take_ok = take_slice_ok;
  take_short = take_slice_short;
  literal_ok = literal_slice_ok;
  literal_ne = literal_slice_ne;
  le_u8_ok = λ a i. refl;
  le_u8_short = refl;
  le_u16_ok = λ a b i. refl;
  le_u16_short = u16_slice_short;
  le_u24_ok = λ a b c i. refl;
  le_u24_short = u24_slice_short;
}
