-- ===== src/Extern/DashMap/Assoc.antt =====
-- A concrete map that meets the laws of `DashMap`: an association list without repeated keys.
use haentgl.Prelude.{◌≡◌, ◌≢◌, refl, inl, inr, Option, none, some, List, [], ◌∷◌, All, arith}
use mathlib.Core.Logic.{ite, if_pos, if_neg}
use haentgl.Extern.DashMap.{DashMap, Member}

module _ {K V : Type 0} (same : Discrete K) where
  abbrev lookup : List (K × V) → K → Option V
  lookup [] k = none
  lookup ((j, v) ∷ m) k = ite (same j k) (some v) (lookup m k)

  abbrev without : List (K × V) → K → List (K × V)
  without [] k = []
  without ((j, v) ∷ m) k = let rest = without m k in ite (same j k) rest ((j, v) ∷ rest)

  pub lookup-without_self : (m : List (K × V)) (k : K) → lookup (without m k) k ≡ none
  lookup-without_self [] k = refl
  lookup-without_self ((j, v) ∷ m) k = ground (arith, lookup-without_self m k)

  pub lookup-without_ne : (m : List (K × V)) (k j : K) → j ≢ k → lookup (without m k) j ≡ lookup m j
  lookup-without_ne [] k j h = refl
  lookup-without_ne ((i, v) ∷ m) k j h = ground (arith, lookup-without_ne m k j h)

  abbrev Distinct : List (K × V) → Type 0
  Distinct [] = Unit
  Distinct ((j, v) ∷ m) = (lookup m j ≡ none) × Distinct m

  lookup-without-none :
      (m : List (K × V)) (k j : K) → lookup m j ≡ none → lookup (without m k) j ≡ none
  lookup-without-none [] k j h = refl
  lookup-without-none ((i, v) ∷ m) k j h = ground (arith, lookup-without-none m k j)

  pub without-Distinct : (m : List (K × V)) (k : K) → Distinct m → Distinct (without m k)
  without-Distinct [] k h = tt
  without-Distinct ((i, v) ∷ m) k h = elim (same i k) [
    | yes e ↦ rw (if_pos _ e) (without-Distinct m k h.1)
    | no e ↦ rw (if_neg _ e) (lookup-without-none m k i h.0, without-Distinct m k h.1)
  ]

  under :
      (j : K) (v : V) (m es : List (K × V))
      → lookup m j ≡ none
      → All (λ (e : K × V). lookup m e.0 ≡ some e.1) es
      → All (λ (e : K × V). lookup ((j, v) ∷ m) e.0 ≡ some e.1) es
  under j v m [] h a = tt
  under j v m ((i, u) ∷ es) h a = (ground arith, under j v m es h a.1)

  pub entries_lookup :
      (m : List (K × V)) → Distinct m → All (λ (e : K × V). lookup m e.0 ≡ some e.1) m
  entries_lookup [] h = tt
  entries_lookup ((j, v) ∷ m) h = (ground arith, under j v m m h.0 (entries_lookup m h.1))

  pub lookup_entries : (m : List (K × V)) (k : K) (v : V) → lookup m k ≡ some v → Member (k, v) m
  lookup_entries [] k v h = cc
  lookup_entries ((j, u) ∷ m) k v h = elim (same j k) [
    | yes e ↦ inl (ground arith)
    | no e ↦ inr (lookup_entries m k v (ground arith))
  ]

  pub lookup-insert_ne :
      (m : List (K × V)) (k j : K) (v : V) → j ≢ k → lookup ((k, v) ∷ without m k) j ≡ lookup m j
  lookup-insert_ne m k j v h = ground (arith, lookup-without_ne m k j h)

  pub lookup-insert_self :
      (m : List (K × V)) (k : K) (v : V) → lookup ((k, v) ∷ without m k) k ≡ some v
  lookup-insert_self m k v = ground arith

  abbrev pub assoc_map : DashMap K V
  assoc_map = record {
    Map = (m : List (K × V)) × Distinct m;
    empty = ([], tt);
    get = λ m. lookup m.0;
    insert =
        λ m k v. ((k, v) ∷ without m.0 k, (lookup-without_self m.0 k, without-Distinct m.0 k m.1));
    remove = λ m k. (without m.0 k, without-Distinct m.0 k m.1);
    entries = λ m. m.0;
    get-empty = λ k. refl;
    get-insert_self = λ m. lookup-insert_self m.0;
    get-insert_ne = λ m. lookup-insert_ne m.0;
    get-remove_self = λ m. lookup-without_self m.0;
    get-remove_ne = λ m. lookup-without_ne m.0;
    entries_get = λ m. entries_lookup m.0 m.1;
    get_entries = λ m. lookup_entries m.0;
  }
