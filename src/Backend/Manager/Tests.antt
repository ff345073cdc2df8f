-- ===== src/Backend/Manager/Tests.antt =====
-- The manager on concrete instances.
use haentgl.Prelude.{ℕ, ◌≡◌, refl, some, [], ◌∷◌, ◌⊎◌, List, Bool, true, false, ◌&&◌, ◌==◌}
use haentgl.Prelude.Text.{codes}
use haentgl.Extern.DashMap.{DashMap}
use haentgl.Extern.DashMap.Assoc.{assoc_map}
use native.Mathlib.Decide.{ℕ_discrete}
use haentgl.Backend.Tenant.{TenantKey}
use haentgl.Backend.Manager.{
  ServiceStatus, ready, offline, not_ready, BackendInstance, Deadpool, ok, err, not_connected,
  init_backend_pool, connect_to_backend, new, prepare_backend_conn_pool, on_status, add_pool,
  tenant_status, unknow_status,
}
use haentgl.Backend.Manager.Status.{
  offline_keeps_pools, connect_after_ready, connect_not_ready, pools_are_ready, tenant_status_cases,
  after,
}

abbrev instance_at : ServiceStatus → BackendInstance
instance_at s = record {
  location = record { region = []; available_zone = []; namespace = []; node_name = [] };
  addr = codes "10.0.0.7:3306";
  status = s;
  cluster = record { namespace = []; cluster_name = codes "c1" };
}

BackendInstance-discrete : Discrete BackendInstance
BackendInstance-discrete = hlevel ℕ_discrete

-- Pools that are just their size and always build.
abbrev sized_pools : Deadpool
sized_pools = record { Pool = ℕ; build = λ be n. some n }

abbrev maps : DashMap BackendInstance ℕ
maps = assoc_map {V = ℕ} BackendInstance-discrete

offline_keeps_pools_example :
    (maps.get
        (init_backend_pool sized_pools maps (instance_at offline) (
          after sized_pools maps BackendInstance-discrete 50
            (instance_at ready ∷ []))).1.be_conn_pool
        (instance_at ready)
      ≡ maps.get
          (after sized_pools maps BackendInstance-discrete 50 (instance_at ready ∷ [])).be_conn_pool
          (instance_at ready))
    × ((init_backend_pool sized_pools maps
          (instance_at offline)
          (after sized_pools maps BackendInstance-discrete 50 (instance_at ready ∷ []))).1.shut
        ≡ (after sized_pools maps BackendInstance-discrete 50 (instance_at ready ∷ [])).shut)
offline_keeps_pools_example =
    offline_keeps_pools sized_pools maps BackendInstance-discrete 50 (instance_at ready ∷ [])
      (instance_at offline) (instance_at ready) refl

connect_after_ready_example :
    connect_to_backend sized_pools maps
      (ok (instance_at ready))
      (init_backend_pool sized_pools maps (instance_at ready) (new sized_pools maps 50)).1
    ≡ ok 50
unfolding new
connect_after_ready_example =
    connect_after_ready sized_pools maps BackendInstance-discrete (new sized_pools maps 50)
      (instance_at ready) 50 refl refl

connect_not_ready_example :
    connect_to_backend sized_pools maps (ok (instance_at not_ready)) (
      after sized_pools maps BackendInstance-discrete 50
        (instance_at ready ∷ instance_at offline ∷ []))
    ≡ err not_connected
connect_not_ready_example =
    connect_not_ready sized_pools maps BackendInstance-discrete 50
      (instance_at ready ∷ instance_at offline ∷ []) (instance_at not_ready) (λ e. cc)

abbrev same_text : List ℕ → List ℕ → Bool
same_text [] [] = true
same_text [] (c ∷ b) = false
same_text (c ∷ a) [] = false
same_text (c ∷ a) (d ∷ b) = let rest = same_text a b in (c == d) && rest

abbrev test_tenant : TenantKey
test_tenant = record { region = []; available_zone = []; namespace = []; cluster_name = codes "c1" }

pools_are_ready_example : (instance_at ready).status ≡ ready
unfolding new init_backend_pool prepare_backend_conn_pool on_status add_pool
pools_are_ready_example =
    pools_are_ready sized_pools maps BackendInstance-discrete 50
      (instance_at ready ∷ instance_at not_ready ∷ []) (instance_at ready) 50
      (maps.get-insert_self maps.empty (instance_at ready) 50)

tenant_status_cases_example :
    (tenant_status sized_pools maps same_text test_tenant
        (after sized_pools maps BackendInstance-discrete 50 (instance_at ready ∷ []))
      ≡ ready)
    ⊎ (tenant_status sized_pools maps same_text test_tenant
          (after sized_pools maps BackendInstance-discrete 50 (instance_at ready ∷ []))
        ≡ unknow_status)
tenant_status_cases_example =
    tenant_status_cases sized_pools maps BackendInstance-discrete 50 (instance_at ready ∷ [])
      same_text test_tenant
