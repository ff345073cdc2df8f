-- ===== src/Prelude/Arms.antt =====
-- A `match` on numbers whose arms are the consecutive numbers of a type's values.
use Prim.Native.Nat.{ℕ, suc, ◌+◌, ◌≤◌, ◌<◌}
use mathlib.Core.Path.{◌≡◌, refl}
use mathlib.Core.Logic.{◌⊎◌, inl, inr}
use mathlib.Core.Bool.{Bool, true, false, ◌&&◌}
use mathlib.Core.Option.{Option, none, some}
use mathlib.Core.List.{List, [], ◌∷◌}
use native.Mathlib.Omega.{arith}
use haentgl.Prelude.Tests.{◌==◌, leb, ltb, if◌then◌else◌, Bool-cases}
use haentgl.Prelude.Lists.{length}

module _ {A : Type 0} where
  -- The first arm that matches; `none` where none does.
  unfoldable pub first_arm : List (ℕ × A) → ℕ → Option A
  first_arm [] x = none
  first_arm ((n, kind) ∷ rest) x =
      let later = first_arm rest x in if x == n then some kind else later

  module _ (code : A → ℕ) where
    -- The arms from a number on: each has the next number, and it is the number of its value.
    abbrev pub consecutive : ℕ → List (ℕ × A) → Bool
    consecutive n [] = true
    consecutive n ((m, kind) ∷ rest) =
        let more = consecutive (suc n) rest in (m == n) && ((code kind == n) && more)

    first_arm-hit :
        (es : List (ℕ × A)) (n x : ℕ)
        → consecutive n es ≡ true
        → n ≤ x
        → x < n + length es
        → (k : A) × (first_arm es x ≡ some k) × (code k ≡ x)
    unfolding first_arm
    first_arm-hit [] n x c lo hi = absurd (omega arith)
    first_arm-hit ((m, kind) ∷ es) n x c lo hi = elim (Bool-cases (x == m)) [
      | inl e ↦ (kind, ground arith, ground arith)
      | inr e ↦
          let (k, found, same) =
            first_arm-hit es (suc n) x (ground arith) (ground arith) (omega arith) in
          (k, ground (arith, found), same)
    ]

    first_arm-miss :
        (es : List (ℕ × A)) (n x : ℕ)
        → consecutive n es ≡ true
        → (x < n) ⊎ (n + length es ≤ x)
        → first_arm es x ≡ none
    unfolding first_arm
    first_arm-miss [] n x c out = refl
    first_arm-miss ((m, kind) ∷ es) n x c out = ground (arith, first_arm-miss es (suc n) x)

    -- The value with the number inside the range, and none outside.
    pub first_arm_cases :
        (es : List (ℕ × A)) (n x : ℕ)
        → consecutive n es ≡ true
        → ((n ≤ x) × (x < n + length es) × ((k : A) × (first_arm es x ≡ some k) × (code k ≡ x)))
          ⊎ (((x < n) ⊎ (n + length es ≤ x)) × (first_arm es x ≡ none))
    first_arm_cases es n x steps = elim (Bool-cases (leb n x && ltb x (n + length es))) [
      | inl e ↦
          inl (ground arith, ground arith, first_arm-hit es n x steps (ground arith) (ground arith))
      | inr e ↦
          let out : (x < n) ⊎ (n + length es ≤ x) = ground arith in
          inr (out, first_arm-miss es n x steps out)
    ]

-- Two lists of arms for the same numbers.
abbrev pub arms_agree : {A B : Type 0} → List (ℕ × A) → List (ℕ × B) → Bool
arms_agree [] [] = true
arms_agree [] (d ∷ ds) = false
arms_agree (e ∷ es) [] = false
arms_agree ((m, a) ∷ es) ((n, b) ∷ ds) = let more = arms_agree es ds in (m == n) && more

pub first_arm-agree :
    {A B : Type 0} (es : List (ℕ × A)) (ds : List (ℕ × B)) (x : ℕ) (a : A)
    → arms_agree es ds ≡ true
    → first_arm es x ≡ some a
    → (b : B) × (first_arm ds x ≡ some b)
unfolding first_arm
first_arm-agree [] ds x a h e = absurd (ground arith)
first_arm-agree (e1 ∷ es) [] x a h e = absurd (ground arith)
first_arm-agree ((m, k) ∷ es) ((n, b) ∷ ds) x a h e = elim (Bool-cases (x == m)) [
  | inl hit ↦ (b, ground arith)
  | inr miss ↦
      let (b', found) = first_arm-agree es ds x a (ground arith) (ground arith) in
      (b', ground arith)
]
