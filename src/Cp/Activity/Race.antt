-- ===== src/Cp/Activity/Race.antt =====
-- Two threads: a `put` that has read the active index before a freeze switches it.
use haentgl.Prelude.{ℕ, ◌≡◌, refl, not, none, Bool-cases, inl, inr}
use haentgl.Extern.DashMap.{DashMap, Member}
use haentgl.Cp.Activity.Sequential.{Member-values}
use haentgl.Cp.Activity.{
  UserCom, SwitchableMaps, table, switch_at, clean_inactive, clean_at, set_table, put_at, collect,
}

module _ (maps : DashMap ℕ UserCom) where
  -- A `put` loads the index; a freeze switches, iterates over the table that was active, and clears
  -- it. If the `put` inserts between the iteration and the clearing, then the freeze hands out what
  -- was in the table before, the window is left as without the `put`, and the key is in neither table
  -- unless it was in the other one before. If it inserts between the switch and the iteration, the
  -- value is handed out.
  pub put-lost :
      (s : SwitchableMaps maps) (key : ℕ) (value : UserCom)
      → let idx = s.active_idx in
        let switched = (switch_at maps idx s).1 in
        let late = put_at maps idx key value switched in
        (clean_inactive maps late ≡ clean_inactive maps switched)
        × (maps.get (table maps (clean_inactive maps late) idx) key ≡ none)
        × (maps.get (table maps (clean_inactive maps late) (not idx)) key
            ≡ maps.get (table maps s (not idx)) key)
        × (Member value (collect maps idx late))
        × (collect maps idx switched ≡ collect maps idx s)
  unfolding switch_at clean_inactive clean_at set_table put_at table collect
  put-lost s key value = elim (Bool-cases s.active_idx) [
    | inl e ↦ rw e (
      refl,
      maps.get-empty key,
      refl,
      Member-values key value _ (
          maps.get_entries (maps.insert s.table_1 key value) key value
            (maps.get-insert_self s.table_1 key value)),
      refl,
    )
    | inr e ↦ rw e (
      refl,
      maps.get-empty key,
      refl,
      Member-values key value _ (
          maps.get_entries (maps.insert s.table_0 key value) key value
            (maps.get-insert_self s.table_0 key value)),
      refl,
    )
  ]
