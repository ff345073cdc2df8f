-- ===== src/Backend/Router.antt =====
-- The routers: src/proxy/src/backend/router. A random generator is a parameter with its state.
pub mod Select
mod Tests
use haentgl.Prelude.{
  ℕ, zero, suc, ◌<◌, ◌≡◌, Option, none, some, List, [], ◌∷◌, ◌++◌, length, get_elem?,
}
use haentgl.Extern.DashMap.{DashMap}
use haentgl.Backend.Tenant.{TenantKey}
use haentgl.Backend.Manager.{BackendInstance}

-- `StdRng` of the `rand` crate, which panics on an empty range.
pub record Random : Type 1 where
  pub Rng : Type 0
  pub gen_range : ℕ → Rng → Option ℕ × Rng
  pub gen_range_below : (n : ℕ) (r : Rng) → 0 < n → (i : ℕ) × ((gen_range n r).0 ≡ some i) × (i < n)

pub data BackendLoadBalancerType : Type 0 where
  random p2c : BackendLoadBalancerType

-- The result of a selector: an instance, its two errors, or a panic.
pub data Selected : Type 0 where
  selected : BackendInstance → Selected
  no_backends tenant_not_found panicked : Selected

-- `get(idx).unwrap()`.
abbrev pub unwrapped : Option BackendInstance → Selected
unwrapped none = panicked
unwrapped (some be) = selected be

module _ (rand : Random) where
  open rand use {Rng, gen_range}

  -- `RandomBalancer::balance`.
  abbrev pub balance : ℕ → Rng → Option ℕ × Rng
  balance backends r = gen_range backends r

  abbrev pub at_index : Option ℕ → List BackendInstance → Selected
  at_index none es = panicked
  at_index (some i) es = unwrapped (get_elem? es i)

  -- `StaticRouter::selector`.
  pub static_selector : List BackendInstance → Rng → Selected × Rng
  static_selector es r = let (i, r') = balance (length es) r in (at_index i es, r')

  abbrev pub select : BackendLoadBalancerType → List BackendInstance → Rng → Selected × Rng
  select lb [] r = (no_backends, r)
  select lb (e ∷ []) r = (selected e, r)
  select random (e ∷ e' ∷ es) r = static_selector (e ∷ e' ∷ es) r
  select p2c (e ∷ e' ∷ es) r = (panicked, r)

module _ (maps : DashMap TenantKey (List BackendInstance)) where
  abbrev select_from :
      (rand : Random)
      → BackendLoadBalancerType
      → Option (List BackendInstance)
      → rand.Rng
      → Selected × rand.Rng
  select_from rand lb none r = (tenant_not_found, r)
  select_from rand lb (some es) r = select rand lb es r

  -- `SyncRouter::selector` on the tenants of the discovery.
  pub selector :
      (rand : Random)
      → TenantKey
      → BackendLoadBalancerType
      → maps.Map
      → rand.Rng
      → Selected × rand.Rng
  selector rand key lb tenants r = select_from rand lb (maps.get tenants key) r

  abbrev all_backends : List (TenantKey × List BackendInstance) → List BackendInstance
  all_backends [] = []
  all_backends ((key, es) ∷ rest) = es ++ all_backends rest

  -- `SyncRouter::load_backends`, with `none` for its error.
  pub load_backends : Option TenantKey → maps.Map → Option (List BackendInstance)
  load_backends (some key) tenants = maps.get tenants key
  load_backends none tenants = some (all_backends (maps.entries tenants))
