-- ===== src/Backend/Resolver/Tests.antt =====
-- A resolver with one backend.
use haentgl.Prelude.{ℕ, ◌<◌, ◌≡◌, ◌≢◌, ◌⊎◌, none, some, List, length}
use haentgl.Prelude.Text.{codes}
use haentgl.Extern.DashMap.{DashMap}
use haentgl.Extern.DashMap.Assoc.{assoc_map}
use native.Mathlib.Decide.{ℕ_discrete}
use haentgl.Backend.Resolver.{
  CpChannel, available, unavailable, CpResolver, available_channels, get_cp_backend,
  mark_backend_unavailable,
}
use haentgl.Backend.Resolver.Pick.{get_cp_backend_cases, get_cp_backend_after_mark}

name-discrete : Discrete (List ℕ)
name-discrete = hlevel ℕ_discrete

-- Channels that are numbers.
abbrev maps : DashMap (List ℕ) (CpChannel ℕ)
maps = assoc_map name-discrete

abbrev cp_0 : CpChannel ℕ
cp_0 = record {
  status = available;
  generation = 1;
  channel = 7;
  backend_name = codes "cp-0";
  service = codes "10.0.0.9:80";
  endpoint = codes "10.0.0.9";
}

abbrev one_backend : CpResolver ℕ maps
one_backend = record { cp_backends = maps.insert maps.empty (codes "cp-0") cp_0; pick_index = 4 }

get_cp_backend_cases_example :
    (((get_cp_backend ℕ maps one_backend).0 ≡ none)
      × ((name : List ℕ) (c : CpChannel ℕ)
          → maps.get one_backend.cp_backends name ≡ some c
          → c.status ≡ unavailable))
    ⊎ ((c : CpChannel ℕ) × (name : List ℕ) × ((get_cp_backend ℕ maps one_backend).0 ≡ some c)
        × (maps.get one_backend.cp_backends name ≡ some c)
        × (c.status ≡ available)
        × ((get_cp_backend ℕ maps one_backend).1.pick_index
            < length (available_channels ℕ maps one_backend)))
get_cp_backend_cases_example = get_cp_backend_cases ℕ maps one_backend

only_cp_0 : (j : List ℕ) → j ≢ codes "cp-0" → maps.get one_backend.cp_backends j ≡ none
only_cp_0 j ne = maps.get-insert_ne maps.empty (codes "cp-0") j cp_0 ne

get_cp_backend_after_mark_example :
    (get_cp_backend ℕ maps (mark_backend_unavailable ℕ maps (codes "cp-0") one_backend)).0 ≡ none
get_cp_backend_after_mark_example =
    get_cp_backend_after_mark ℕ maps name-discrete one_backend (codes "cp-0") only_cp_0
