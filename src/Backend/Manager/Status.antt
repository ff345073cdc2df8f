-- ===== src/Backend/Manager/Status.antt =====
-- How the status in the key decides what the manager can do.
use haentgl.Prelude.{
  ℕ, ◌≡◌, ◌≢◌, refl, ap, Option, none, some, Option-cases, inl, inr, List, [], ◌∷◌, arith, Bool,
  All, ◌⊎◌,
}
use haentgl.Extern.DashMap.{DashMap}
use haentgl.Backend.Tenant.{TenantKey}
use haentgl.Backend.Manager.{
  ServiceStatus, unknow_status, not_ready, ready, offline, BackendInstance, ok, err, not_connected,
  Deadpool, BackendMgr, on_status, init_backend_pool, prepare_backend_conn_pool, connect_to_backend,
  add_pool, close_entry, new, find_status, tenant_status,
}

module _ (pools : Deadpool) (maps : DashMap BackendInstance pools.Pool)
    (same : Discrete BackendInstance) where
  -- Every instance that has a pool is `Ready`.
  abbrev pub OnlyReady : BackendMgr pools maps → Type 0
  OnlyReady m =
      (be : BackendInstance) (pool : pools.Pool)
      → maps.get m.be_conn_pool be ≡ some pool
      → be.status ≡ ready

  insert-OnlyReady :
      (m : BackendMgr pools maps) (be : BackendInstance) (pool : pools.Pool)
      → OnlyReady m
      → be.status ≡ ready
      → OnlyReady (record m { be_conn_pool = maps.insert m.be_conn_pool be pool })
  insert-OnlyReady m be pool h r j u e = elim (same j be) [
    | yes p ↦ ground arith
    | no p ↦ ground (arith, maps.get-insert_ne m.be_conn_pool be j pool p, h j u)
  ]

  remove-OnlyReady :
      (m : BackendMgr pools maps) (be : BackendInstance)
      → OnlyReady m
      → OnlyReady (record m { be_conn_pool = maps.remove m.be_conn_pool be })
  remove-OnlyReady m be h j u e = elim (same j be) [
    | yes p ↦ ground (arith, maps.get-remove_self m.be_conn_pool be)
    | no p ↦ ground (arith, maps.get-remove_ne m.be_conn_pool be j p, h j u)
  ]

  -- A `Ready` instance is not the key of an event with another status.
  get-event :
      (m : BackendMgr pools maps) (be : BackendInstance)
      → OnlyReady m
      → be.status ≢ ready
      → maps.get m.be_conn_pool be ≡ none
  get-event m be h ne = elim (Option-cases (maps.get m.be_conn_pool be)) [
    | inl e ↦ e
    | inr (pool, e) ↦ absurd (ne (h be pool e))
  ]

  add_pool-OnlyReady :
      (be : BackendInstance) (o : Option pools.Pool) (m : BackendMgr pools maps)
      → be.status ≡ ready
      → OnlyReady m
      → OnlyReady (add_pool pools maps be o m).1
  unfolding add_pool
  add_pool-OnlyReady be none m e h = h
  add_pool-OnlyReady be (some pool) m e h = insert-OnlyReady m be pool h e

  off_event :
      (m : BackendMgr pools maps) (be : BackendInstance)
      → OnlyReady m
      → be.status ≡ offline
      → (on_status pools maps offline be m).1
        ≡ record m { be_conn_pool = maps.remove m.be_conn_pool be }
  unfolding on_status
  off_event m be h e = rw (get-event m be h (λ p. cc), close_entry)

  on_status-OnlyReady :
      (s : ServiceStatus) (be : BackendInstance) (m : BackendMgr pools maps)
      → be.status ≡ s
      → OnlyReady m
      → OnlyReady (on_status pools maps s be m).1
  on_status-OnlyReady ready be m e h =
      unfold on_status in add_pool-OnlyReady be (pools.build be m.max_size) m e h
  on_status-OnlyReady offline be m e h = rw (off_event m be h e) (remove-OnlyReady m be h)
  on_status-OnlyReady unknow_status be m e h = unfold on_status in h
  on_status-OnlyReady not_ready be m e h = unfold on_status in h

  prepare-OnlyReady_from :
      (events : List BackendInstance) (m : BackendMgr pools maps)
      → OnlyReady m
      → OnlyReady (prepare_backend_conn_pool pools maps events m)
  unfolding prepare_backend_conn_pool init_backend_pool
  prepare-OnlyReady_from [] m h = h
  prepare-OnlyReady_from (be ∷ events) m h =
      prepare-OnlyReady_from events _ (on_status-OnlyReady be.status be m refl h)

  -- The manager after any notified instances.
  abbrev pub after : ℕ → List BackendInstance → BackendMgr pools maps
  after max_size events = prepare_backend_conn_pool pools maps events (new pools maps max_size)

  pub prepare-OnlyReady :
      (max_size : ℕ) (events : List BackendInstance) → OnlyReady (after max_size events)
  prepare-OnlyReady max_size events =
      prepare-OnlyReady_from events (new pools maps max_size)
        (λ be pool e. unfold new in cc (e, maps.get-empty be))

  -- Whatever instances were notified, in whatever order, an instance that has a pool is `Ready`.
  pub pools_are_ready :
      (max_size : ℕ) (events : List BackendInstance) (be : BackendInstance) (pool : pools.Pool)
      → maps.get (after max_size events).be_conn_pool be ≡ some pool
      → be.status ≡ ready
  pools_are_ready max_size events = prepare-OnlyReady max_size events

  init_step :
      (be : BackendInstance) (s : ServiceStatus) (m : BackendMgr pools maps)
      → be.status ≡ s
      → init_backend_pool pools maps be m ≡ on_status pools maps s be m
  unfolding init_backend_pool
  init_step be s m e = ap (λ (t : ServiceStatus). on_status pools maps t be m) e

  -- An event with the status `Offline` leaves every pool where it is and closes none, whatever was
  -- notified before.
  pub offline_keeps_pools :
      (max_size : ℕ) (events : List BackendInstance) (be k : BackendInstance)
      → be.status ≡ offline
      → (maps.get (init_backend_pool pools maps be (after max_size events)).1.be_conn_pool k
          ≡ maps.get (after max_size events).be_conn_pool k)
        × ((init_backend_pool pools maps be (after max_size events)).1.shut
            ≡ (after max_size events).shut)
  offline_keeps_pools max_size events be k e =
      let m = after max_size events in
      let h = prepare-OnlyReady max_size events in
      rw (init_step be offline m e, off_event m be h e)
        (elim (same k be) [
          | yes p ↦ (
            ground (arith, maps.get-remove_self m.be_conn_pool be, get-event m be h (λ q. cc)),
            refl,
          )
          | no p ↦ (maps.get-remove_ne m.be_conn_pool be k p, refl)
        ])

  -- After the event of a `Ready` instance whose pool could be built, a client that is routed to this
  -- instance gets that pool.
  pub connect_after_ready :
      (m : BackendMgr pools maps) (be : BackendInstance) (pool : pools.Pool)
      → be.status ≡ ready
      → pools.build be m.max_size ≡ some pool
      → connect_to_backend pools maps (ok be) (init_backend_pool pools maps be m).1 ≡ ok pool
  unfolding connect_to_backend on_status add_pool
  connect_after_ready m be pool e b =
      rw (init_step be ready m e, b)
        (rw (maps.get-insert_self m.be_conn_pool be pool, connect_to_backend))

  -- A client that is routed to an instance which is not `Ready` is refused, whatever was notified.
  pub connect_not_ready :
      (max_size : ℕ) (events : List BackendInstance) (be : BackendInstance)
      → be.status ≢ ready
      → connect_to_backend pools maps (ok be) (after max_size events) ≡ err not_connected
  unfolding connect_to_backend
  connect_not_ready max_size events be ne =
      let m = after max_size events in
      rw (get-event m be (prepare-OnlyReady max_size events) ne, connect_to_backend)

  found_status :
      (m : BackendMgr pools maps) (text_eq : List ℕ → List ℕ → Bool) (tenant : TenantKey)
      (es : List (BackendInstance × pools.Pool))
      → OnlyReady m
      → All (λ (e : BackendInstance × pools.Pool). maps.get m.be_conn_pool e.0 ≡ some e.1) es
      → (find_status pools maps text_eq tenant es ≡ ready)
        ⊎ (find_status pools maps text_eq tenant es ≡ unknow_status)
  found_status m text_eq tenant [] h a = inr refl
  found_status m text_eq tenant ((be, pool) ∷ es) h a =
      ground (arith, h be pool a.0, found_status m text_eq tenant es h a.1)

  -- The status that a tenant is given is `Ready` or `UnKnowStatus`, never `Offline` or `NotReady`,
  -- whatever was notified.
  pub tenant_status_cases :
      (max_size : ℕ) (events : List BackendInstance) (text_eq : List ℕ → List ℕ → Bool)
      (tenant : TenantKey)
      → (tenant_status pools maps text_eq tenant (after max_size events) ≡ ready)
        ⊎ (tenant_status pools maps text_eq tenant (after max_size events) ≡ unknow_status)
  unfolding tenant_status
  tenant_status_cases max_size events text_eq tenant =
      let m = after max_size events in
      found_status m text_eq tenant (maps.entries m.be_conn_pool)
        (prepare-OnlyReady max_size events) (maps.entries_get m.be_conn_pool)
