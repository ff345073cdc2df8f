-- ===== src/Backend/Router/Tests.antt =====
-- Discovery and selection on concrete messages.
use haentgl.Prelude.{
  ℕ, zero, suc, ◌<◌, ◌≡◌, ◌≢◌, ◌⊎◌, refl, Option, none, some, List, [], ◌∷◌, arith,
}
use native.Mathlib.Decide.{ℕ_discrete}
use haentgl.Prelude.Text.{codes}
use haentgl.Extern.DashMap.{DashMap, Member}
use haentgl.Extern.DashMap.Assoc.{assoc_map}
use haentgl.Backend.Tenant.{TenantKey}
use haentgl.Backend.Manager.{BackendInstance, ready, DbLocation}
use haentgl.Backend.Discovery.{
  BackendDiscovery, DbService, Message, response, change_event, new, unsubscribed_tenants,
  recv_stream, apply_event, replace,
}
use haentgl.Backend.Discovery.Update.{OfTenant, Sound, instance_at, OnePerAddress, replace_sets}
use haentgl.Backend.Discovery.Reached.{Reached, Reached-Sound, started, unsubscribed, received}
use haentgl.Backend.Router.{
  Random, random, selected, no_backends, tenant_not_found, selector, static_selector,
}
use haentgl.Backend.Router.Select.{selector_cases, selected-OfTenant, static_selector-Member}

same_text : Discrete (List ℕ)
same_text = hlevel ℕ_discrete

same_key : Discrete TenantKey
same_key = hlevel ℕ_discrete

abbrev maps : DashMap TenantKey (List BackendInstance)
maps = assoc_map same_key

-- A generator that always draws 0.
abbrev draw : ℕ → ℕ → Option ℕ × ℕ
draw zero r = (none, r)
draw (suc n) r = (some 0, r)

abbrev port_text : ℕ → List ℕ
port_text port = codes "3306"

abbrev location : DbLocation
location = record {
  region = codes "r";
  available_zone = [];
  namespace = codes "ns";
  node_name = [];
}

abbrev service : DbService
service = record {
  location = some location;
  cluster = codes "c1";
  endpoints = record { address = codes "10.0.0.7"; port = 3306; port_name = codes "sql-port" } ∷ [];
  status = ready;
}

abbrev key : TenantKey
key = record { region = []; available_zone = []; namespace = codes "ns"; cluster_name = codes "c1" }

abbrev instance : BackendInstance
instance = record {
  location = location;
  addr = codes "10.0.0.7:3306";
  status = ready;
  cluster = record { namespace = codes "ns"; cluster_name = codes "c1" };
}

draw_below : (n r : ℕ) → 0 < n → (i : ℕ) × ((draw n r).0 ≡ some i) × (i < n)
draw_below zero r h = absurd (omega arith)
draw_below (suc n) r h = (0, refl, omega arith)

abbrev lowest : Random
lowest = record { Rng = ℕ; gen_range = draw; gen_range_below = draw_below }

abbrev messages : List Message
messages = response (some (change_event (some service))) ∷ []

abbrev start : BackendDiscovery same_text port_text maps
start =
    unsubscribed_tenants same_text port_text maps key
      (new same_text port_text maps (codes "n1") (codes "ns") instance)

abbrev discovered : BackendDiscovery same_text port_text maps
discovered = (recv_stream same_text port_text maps messages start).1

reached : Reached same_text port_text maps discovered
reached = received messages (unsubscribed key (started (codes "n1") (codes "ns") instance))

selected_instance : (selector maps lowest key random discovered.tenants 0).0 ≡ selected instance
unfolding same_text same_key selector recv_stream apply_event unsubscribed_tenants new ℕ_discrete
selected_instance = refl

selected-OfTenant_example : OfTenant key instance
selected-OfTenant_example =
    selected-OfTenant lowest maps same_text same_key port_text key 0 instance reached
      selected_instance

static_selector-Member_example :
    (e : BackendInstance) × ((static_selector lowest (instance ∷ []) 0).0 ≡ selected e)
    × Member e (instance ∷ [])
static_selector-Member_example = static_selector-Member lowest (instance ∷ []) 0 (omega arith)

replace_sets_example :
    (instance_at same_text instance.addr (replace same_text instance []) ≡ some instance)
    × ((a : List ℕ)
        → a ≢ instance.addr
        → instance_at same_text a (replace same_text instance []) ≡ none)
    × OnePerAddress same_text (replace same_text instance [])
replace_sets_example = replace_sets same_text instance [] tt

Reached-Sound_example : Sound same_text port_text maps same_key discovered
Reached-Sound_example = Reached-Sound same_text port_text maps same_key reached

selector_cases_example :
    ((maps.get discovered.tenants key ≡ none)
      × ((selector maps lowest key random discovered.tenants 0).0 ≡ tenant_not_found))
    ⊎ ((maps.get discovered.tenants key ≡ some [])
        × ((selector maps lowest key random discovered.tenants 0).0 ≡ no_backends))
    ⊎ ((es : List BackendInstance) × (be : BackendInstance) × (maps.get discovered.tenants key
          ≡ some es)
        × ((selector maps lowest key random discovered.tenants 0).0 ≡ selected be)
        × Member be es)
selector_cases_example = selector_cases lowest maps key discovered.tenants 0
