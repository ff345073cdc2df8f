-- ===== src/Backend/Pool.antt =====
-- The life of a pooled connection: `DbConnPhase` and `DbUserConnLifeCycle` of
-- src/proxy/src/backend/mod.rs, and src/proxy/src/backend/pool.
use haentgl.Prelude.{ℕ, Bool, true, false, ◌&&◌, Option, none, some, List}

pub data DbConnPhase : Type 0 where
  no_phase connection_phase command_phase : DbConnPhase

pub record DbUserConnLifeCycle : Type 0 where
  pub db_user : Option (List ℕ)
  pub conn_phase : Option DbConnPhase

-- The derived default, which `create` gives to a new connection.
abbrev pub fresh_life_cycle : DbUserConnLifeCycle
fresh_life_cycle = record { db_user = none; conn_phase = none }

abbrev pub new_conn_life_cycle : List ℕ → DbConnPhase → DbUserConnLifeCycle
new_conn_life_cycle db_user conn_phase = record {
  db_user = some db_user;
  conn_phase = some conn_phase;
}

abbrev pub is_none : {A : Type 0} → Option A → Bool
is_none none = true
is_none (some a) = false

abbrev pub life_cycle_is_none : DbUserConnLifeCycle → Bool
life_cycle_is_none c = is_none c.db_user && is_none c.conn_phase

-- What `recycle` says of a connection that comes back.
pub data Recycled : Type 0 where
  kept refused panicked : Recycled

-- The match on the phase; `none` is the panic of `unwrap`.
abbrev pub by_phase : Option DbConnPhase → Recycled
by_phase none = panicked
by_phase (some connection_phase) = refused
by_phase (some phase) = kept

unfoldable pub recycle : DbUserConnLifeCycle → Recycled
recycle c = elim (life_cycle_is_none c) [ true ↦ kept | false ↦ by_phase c.conn_phase ]
