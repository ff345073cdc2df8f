-- ===== src/Backend/Manager.antt =====
-- The backend pools: src/proxy/src/backend/backend_mgr.rs, and the types of backend/mod.rs.
-- The `deadpool` crate's pools are a parameter.
pub mod Status
mod Tests
use haentgl.Prelude.{
  ℕ, ◌≡◌, Bool, true, false, ◌&&◌, Option, none, some, List, [], ◌∷◌, ◌++◌, if◌then◌else◌,
}
use haentgl.Extern.DashMap.{DashMap}
use haentgl.Backend.Tenant.{TenantKey}

-- prost's enum and messages of protos/common.proto.
pub data ServiceStatus : Type 0 where
  unknow_status not_ready ready offline : ServiceStatus

pub record DbLocation : Type 0 where
  pub region : List ℕ
  pub available_zone : List ℕ
  pub namespace : List ℕ
  pub node_name : List ℕ

pub record ClusterName : Type 0 where
  pub namespace : List ℕ
  pub cluster_name : List ℕ

-- The derived equality and hash read every field, the status too.
pub record BackendInstance : Type 0 where
  pub location : DbLocation
  pub addr : List ℕ
  pub status : ServiceStatus
  pub cluster : ClusterName

pub data IoErrorKind : Type 0 where
  connection_refused not_connected not_found : IoErrorKind

pub data Result (A : Type 0) : Type 0 where
  ok : A → Result A
  err : IoErrorKind → Result A

-- `Pool::builder(..).max_size(n).build()`, where `none` is its error.
pub record Deadpool : Type 1 where
  pub Pool : Type 0
  pub build : BackendInstance → ℕ → Option Pool

module _ (pools : Deadpool) (maps : DashMap BackendInstance pools.Pool) where
  open pools use {Pool, build}

  -- `be_conn_pool`, and the pools on which `close` was called.
  pub record BackendMgr : Type 0 where
    pub max_size : ℕ
    pub be_conn_pool : maps.Map
    pub shut : List Pool

  pub new : ℕ → BackendMgr
  new max_size = record { max_size = max_size; be_conn_pool = maps.empty; shut = [] }

  -- `if let Some(entry) = self.be_conn_pool.get(..) { entry.value().close() }`.
  close_entry : Option Pool → BackendMgr → BackendMgr
  close_entry none m = m
  close_entry (some pool) m = record m { shut = pool ∷ m.shut }

  add_pool : BackendInstance → Option Pool → BackendMgr → Result (Unit {0}) × BackendMgr
  add_pool be (some pool) m =
      (ok tt, record m { be_conn_pool = maps.insert m.be_conn_pool be pool })
  add_pool be none m = (err connection_refused, m)

  on_status : ServiceStatus → BackendInstance → BackendMgr → Result (Unit {0}) × BackendMgr
  unfolding add_pool close_entry
  on_status ready be m = add_pool be (build be m.max_size) m
  on_status offline be m =
      let closed = close_entry (maps.get m.be_conn_pool be) m in
      (ok tt, record closed { be_conn_pool = maps.remove closed.be_conn_pool be })
  on_status unknow_status be m = (ok tt, m)
  on_status not_ready be m = (ok tt, m)

  pub init_backend_pool : BackendInstance → BackendMgr → Result (Unit {0}) × BackendMgr
  unfolding on_status
  init_backend_pool be m = on_status be.status be m

  -- `prepare_backend_conn_pool` under the sync router: each notified instance in turn, an error
  -- being logged only.
  pub prepare_backend_conn_pool : List BackendInstance → BackendMgr → BackendMgr
  prepare_backend_conn_pool [] m = m
  prepare_backend_conn_pool (be ∷ rest) m =
      prepare_backend_conn_pool rest (init_backend_pool be m).1

  -- The end of `connect_to_backend`: the pool of the instance that the router selected.
  pub connect_to_backend : Result BackendInstance → BackendMgr → Result Pool
  connect_to_backend (err e) m = err e
  connect_to_backend (ok be) m = elim (maps.get m.be_conn_pool be) [
    | some pool ↦ ok pool
    | none ↦ err not_connected
  ]

  module _ (text_eq : List ℕ → List ℕ → Bool) where
    abbrev pub find_status : TenantKey → List (BackendInstance × Pool) → ServiceStatus
    find_status tenant [] = unknow_status
    find_status tenant ((be, pool) ∷ rest) =
        if text_eq be.cluster.cluster_name tenant.cluster_name
          && text_eq be.cluster.namespace tenant.namespace
        then be.status
        else find_status tenant rest

    pub tenant_status : TenantKey → BackendMgr → ServiceStatus
    tenant_status tenant m = find_status tenant (maps.entries m.be_conn_pool)
