-- ===== src/Cp/Activity.antt =====
-- The activity window: src/proxy/src/cp/active_users.rs. Each operation on an atomic or on a
-- `DashMap` is one step of its own, so that other threads can run between two of them. A value
-- keeps the fields that a message sets; `com` is `com_codes` here.
pub mod Sequential
pub mod Race
mod Tests
use haentgl.Prelude.{
  ℕ, ◌+◌, ◌%◌, ◌^◌, Bool, true, false, not, Option, none, some, List, [], ◌∷◌, map, if◌then◌else◌,
}
use haentgl.Extern.DashMap.{DashMap}
use haentgl.Backend.Tenant.{TenantKey}

pub record UserCom : Type 0 where
  pub cluster : Option TenantKey
  pub user : List ℕ
  pub com_codes : List ℕ
  pub com_ts : ℕ

module _ (maps : DashMap ℕ UserCom) where
  -- `switchable_table: [DashMap; 2]` and `active_idx`, which is 0 (`false`) or 1 (`true`).
  pub record SwitchableMaps : Type 0 where
    pub table_0 : maps.Map
    pub table_1 : maps.Map
    pub active_idx : Bool

  pub new_maps : SwitchableMaps
  new_maps = record { table_0 = maps.empty; table_1 = maps.empty; active_idx = false }

  -- `self.switchable_table[idx]`, read and written.
  pub table : SwitchableMaps → Bool → maps.Map
  table s true = s.table_1
  table s false = s.table_0

  pub set_table : SwitchableMaps → Bool → maps.Map → SwitchableMaps
  set_table s true m = record s { table_1 = m }
  set_table s false m = record s { table_0 = m }

  -- `put` after it has loaded `active_idx`.
  pub put_at : Bool → ℕ → UserCom → SwitchableMaps → SwitchableMaps
  put_at active_idx key value s =
      set_table s active_idx (maps.insert (table s active_idx) key value)

  pub put : ℕ → UserCom → SwitchableMaps → SwitchableMaps
  put key value s = put_at s.active_idx key value s

  pub get : ℕ → SwitchableMaps → Option UserCom
  get key s = maps.get (table s s.active_idx) key

  -- `switch` with the index `curr_idx` that it has loaded: the exchange fails if another thread
  -- has switched since.
  pub switch_at : Bool → SwitchableMaps → Option Bool × SwitchableMaps
  switch_at true s =
      if s.active_idx then (some true, record s { active_idx = false }) else (none, s)
  switch_at false s =
      if s.active_idx then (none, s) else (some false, record s { active_idx = true })

  -- The iteration over the table that was active.
  pub collect : Bool → SwitchableMaps → List UserCom
  collect idx s = map (λ (e : ℕ × UserCom). e.1) (maps.entries (table s idx))

  -- `clean_inactive` after it has loaded `active_idx`.
  pub clean_at : Bool → SwitchableMaps → SwitchableMaps
  clean_at active_idx s = set_table s (not active_idx) maps.empty

  pub clean_inactive : SwitchableMaps → SwitchableMaps
  clean_inactive s = clean_at s.active_idx s

  pub record UserActivityWindow : Type 0 where
    pub maps_ : SwitchableMaps
    pub size : ℕ
    pub count : ℕ

  -- `freeze` with no other thread running: the collected values and the new window.
  pub freeze_switched :
      Option Bool × SwitchableMaps → UserActivityWindow → List UserCom × UserActivityWindow
  freeze_switched (some idx, s) win =
      (collect idx s, record win { maps_ = clean_inactive s; size = 0 })
  freeze_switched (none, s) win = ([], record win { maps_ = s })

  pub freeze : UserActivityWindow → List UserCom × UserActivityWindow
  freeze win = freeze_switched (switch_at win.maps_.active_idx win.maps_) win

  -- One message of the channel: `hash` is the key and `sized` the size of a `UserCom` value.
  module _ (hash : UserCom → ℕ) (sized : ℕ) where
    pub on_recv : TenantKey → List ℕ → ℕ → ℕ → UserActivityWindow → UserActivityWindow
    on_recv cluster user com_code ts win =
        let user_com : UserCom = record {
          cluster = some cluster;
          user = user;
          com_codes = com_code ∷ [];
          com_ts = ts;
        } in
        record {
          maps_ = put (hash user_com) user_com win.maps_;
          count = (win.count + 1) % 2 ^ 64;
          size = (win.size + sized) % 2 ^ 64;
        }
