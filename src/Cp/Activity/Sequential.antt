-- ===== src/Cp/Activity/Sequential.antt =====
-- One thread: what a freeze hands out and what it leaves.
use haentgl.Prelude.{ℕ, ◌≡◌, refl, ap, not, none, some, List, [], ◌∷◌, map, inl, inr, Bool-cases}
use haentgl.Extern.DashMap.{DashMap, Member}
use haentgl.Cp.Activity.{
  UserCom, SwitchableMaps, UserActivityWindow, table, get, freeze, freeze_switched, switch_at,
  collect, clean_inactive, clean_at, set_table,
}

pub Member-values :
    (k : ℕ) (v : UserCom) (es : List (ℕ × UserCom))
    → Member (k, v) es
    → Member v (map (λ (e : ℕ × UserCom). e.1) es)
Member-values k v [] h = absurd h
Member-values k v (e ∷ es) (inl h) = inl (ap (λ (x : ℕ × UserCom). x.1) h)
Member-values k v (e ∷ es) (inr h) = inr (Member-values k v es h)

module _ (maps : DashMap ℕ UserCom) where
  -- The table that is not written to has no entry.
  abbrev pub InactiveEmpty : SwitchableMaps maps → Type 0
  InactiveEmpty s = (k : ℕ) → maps.get (table maps s (not s.active_idx)) k ≡ none

  -- The value that `get` finds is among those that the next freeze hands out.
  pub freeze-get :
      (win : UserActivityWindow maps) (key : ℕ) (value : UserCom)
      → get maps key win.maps_ ≡ some value
      → Member value (freeze maps win).0
  unfolding freeze freeze_switched switch_at collect get table
  freeze-get win key value h = elim (Bool-cases win.maps_.active_idx) [
    | inl e ↦
        rw e (Member-values key value _ (maps.get_entries win.maps_.table_1 key value (rw e at h)))
    | inr e ↦
        rw e (Member-values key value _ (maps.get_entries win.maps_.table_0 key value (rw e at h)))
  ]

  -- A freeze leaves a window without entries, and the table not written to is empty again.
  pub freeze-InactiveEmpty :
      (win : UserActivityWindow maps) (k : ℕ)
      → InactiveEmpty win.maps_
      → (get maps k (freeze maps win).1.maps_ ≡ none)
        × InactiveEmpty (freeze maps win).1.maps_
        × ((freeze maps win).1.size ≡ 0)
  unfolding freeze freeze_switched switch_at get table clean_inactive clean_at set_table
  freeze-InactiveEmpty win k h = elim (Bool-cases win.maps_.active_idx) [
    | inl e ↦ rw e (rw e at h k, λ j. maps.get-empty j, refl)
    | inr e ↦ rw e (rw e at h k, λ j. maps.get-empty j, refl)
  ]
