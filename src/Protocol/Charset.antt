-- ===== src/Protocol/Charset.antt =====
-- The collations and their numbers: src/proxy/src/protocol/mysql/charset.rs.
pub mod Tables
pub mod Defaults
mod Tests
use Tables.*
use haentgl.Prelude.{
  ℕ, ◌≡◌, ◌↔◌, refl, ◌==◌, ==_iff, Option, none, some, Option-cases, Bool-cases, List, [], ◌∷◌,
  Bool, true, false, ◌&&◌, if◌then◌else◌, inl, inr, arith,
}
use Prim.Native.String.{String}
use text.Mathlib.Text.{◌==◌ as text_eq}
use text.Mathlib.TextEquality.{eq_iff}

-- `HashMap::get` after the inserts of the list: the last one of a key counts.
pub get {ℓ κ} : {K : Type ℓ} {V : Type κ} → (K → K → Bool) → List (K × V) → K → Option V
get same [] k = none
get same ((j, v) ∷ rest) k = elim (get same rest k) [
  | some u ↦ some u
  | none ↦ if same j k then some v else none
]

abbrev is_some : {A : Type 0} → (A → A → Bool) → Option A → A → Bool
is_some same none a = false
is_some same (some b) a = same b a

-- The entries of a table whose reverse entry is in the other.
abbrev reversed :
    {K V : Type 0} → (K → K → Bool) → (V → V → Bool) → List (V × K) → List (K × V) → Bool
reversed same_k same_v back [] = true
reversed same_k same_v back ((k, v) ∷ es) =
    let rest = reversed same_k same_v back es in is_some same_k (get same_v back v) k && rest

get-reversed :
    {K V : Type 0} (same_k : K → K → Bool) (same_v : V → V → Bool)
    → ((a b : K) → same_k a b ≡ true → a ≡ b)
    → (back : List (V × K)) (es : List (K × V)) (k : K) (v : V)
    → reversed same_k same_v back es ≡ true
    → get same_k es k ≡ some v
    → get same_v back v ≡ some k
unfolding get
get-reversed same_k same_v sound back [] k v all h = absurd (ground arith)
get-reversed same_k same_v sound back ((j, u) ∷ es) k v all h =
    elim (Option-cases (get same_k es k)) [
      | inr (w, e) ↦ get-reversed same_k same_v sound back es k v (ground arith) (ground arith)
      | inl e ↦ elim (Bool-cases (same_k j k)) [
        | inr n ↦ absurd (ground arith)
        | inl y ↦
            let at_j : j ≡ k = sound j k y in
            elim (Option-cases (get same_v back u)) [
              | inl none? ↦ absurd (ground arith)
              | inr (b, found) ↦
                  let same : b ≡ j = sound b j (ground (arith, found)) in
                  let value : u ≡ v = ground arith in rw (← value, found, same, at_j)
            ]
      ]
    ]

abbrev pub collation_of : ℕ → Option String
collation_of id = get (λ a b. a == b) collations id

abbrev pub id_of : String → Option ℕ
id_of name = get text_eq collation_names name

names_reversed : reversed (λ a b. a == b) text_eq collation_names collations ≡ true
unfolding collations collation_names get
names_reversed = refl

ids_reversed : reversed text_eq (λ a b. a == b) collations collation_names ≡ true
unfolding collations collation_names get
ids_reversed = refl

-- The two tables of collations are inverse to each other: a number has a name just if the name has
-- this number.
pub collations_iff :
    (id : ℕ) (name : String) → (collation_of id ≡ some name) ↔ (id_of name ≡ some id)
collations_iff id name = (
  get-reversed (λ a b. a == b) text_eq (λ a b. (==_iff a b).0) collation_names collations id name
      names_reversed,
  get-reversed text_eq (λ a b. a == b) (λ a b. (eq_iff a b).0) collations collation_names name id
      ids_reversed,
)
