-- ===== src/Extern/DashMap.antt =====
-- The `dashmap` crate: a concurrent map, each operation taken as one atomic step.
pub mod Assoc
use haentgl.Prelude.{ℕ, ◌≡◌, ◌≢◌, ◌⊎◌, Option, none, some, List, [], ◌∷◌, All}

-- Membership that can be taken apart.
abbrev pub Member : {A : Type 0} → A → List A → Type 0
Member a [] = ⊥
Member a (x ∷ xs) = (x ≡ a) ⊎ Member a xs

pub record DashMap (K V : Type 0) : Type 1 where
  pub Map : Type 0
  pub empty : Map
  pub get : Map → K → Option V
  pub insert : Map → K → V → Map
  pub remove : Map → K → Map
  -- The entries in the order of an iteration, which the crate leaves open.
  pub entries : Map → List (K × V)
  pub get-empty : (k : K) → get empty k ≡ none
  pub get-insert_self : (m : Map) (k : K) (v : V) → get (insert m k v) k ≡ some v
  pub get-insert_ne : (m : Map) (k j : K) (v : V) → j ≢ k → get (insert m k v) j ≡ get m j
  pub get-remove_self : (m : Map) (k : K) → get (remove m k) k ≡ none
  pub get-remove_ne : (m : Map) (k j : K) → j ≢ k → get (remove m k) j ≡ get m j
  pub entries_get : (m : Map) → All (λ (e : K × V). get m e.0 ≡ some e.1) (entries m)
  pub get_entries : (m : Map) (k : K) (v : V) → get m k ≡ some v → Member (k, v) (entries m)
