-- ===== src/Backend/Discovery.antt =====
-- The discovery of backends: src/proxy/src/backend/backend_discovery.rs. A list behind
-- `Arc<RwLock<..>>` is the value in the map, and a write to it replaces that value. The messages of
-- the topology service are a list, and the two channels are what they hold.
pub mod Update
pub mod Reached
use haentgl.Prelude.{Bool, true, false, ℕ, ◌≡◌, Option, none, some, List, [], ◌∷◌, ◌++◌, map}
use mathlib.Core.Logic.{ite}
use haentgl.Extern.DashMap.{DashMap}
use haentgl.Backend.Tenant.{TenantKey}
use haentgl.Backend.Manager.{ServiceStatus, DbLocation, ClusterName, BackendInstance}

-- The messages of protos/topology.proto, as far as they are read here.
pub record Endpoint : Type 0 where
  pub address : List ℕ
  pub port : ℕ
  pub port_name : List ℕ

pub record DbService : Type 0 where
  pub location : Option DbLocation
  pub cluster : List ℕ
  pub endpoints : List Endpoint
  pub status : ServiceStatus

pub data Payload : Type 0 where
  change_event : Option DbService → Payload
  other_payload : Payload

-- What `streaming.message().await` gives before the end of the stream.
pub data Message : Type 0 where
  response : Option Payload → Message
  stream_error : Message

-- How `recv_stream` ends: `Ok(())`, an error, a panic.
pub data Ending : Type 0 where
  stream_ended stream_failed panicked : Ending

pub record SubscribeId : Type 0 where
  pub id : List ℕ
  pub namespace : List ℕ
  pub name : List ℕ

pub record SubscribeNamespaceRequest : Type 0 where
  pub db_location : Option DbLocation
  pub subscribe_id : Option SubscribeId
  pub force : Bool
  pub label : List (List ℕ × List ℕ)

-- "sql-port".
abbrev pub sql_port : List ℕ
sql_port = 115 ∷ 113 ∷ 108 ∷ 45 ∷ 112 ∷ 111 ∷ 114 ∷ 116 ∷ []

module _ (same_text : Discrete (List ℕ)) where
  abbrev pub find_sql : List Endpoint → Option Endpoint
  find_sql [] = none
  find_sql (e ∷ es) = ite (same_text e.port_name sql_port) (some e) (find_sql es)

  -- `retain(|e| e.addr != addr)`.
  abbrev pub retain : List ℕ → List BackendInstance → List BackendInstance
  retain addr [] = []
  retain addr (e ∷ es) = let rest = retain addr es in ite (same_text e.addr addr) rest (e ∷ rest)

  -- The new instance takes the place of those with its address, at the end.
  abbrev pub replace : BackendInstance → List BackendInstance → List BackendInstance
  replace be es = retain be.addr es ++ (be ∷ [])

  -- `decimal` is the `Display` of a port.
  module _ (decimal : ℕ → List ℕ) where
    -- The tenant of an event has no region and no zone.
    abbrev pub instance_with :
        DbService → Option DbLocation → Option Endpoint → Option (TenantKey × BackendInstance)
    instance_with s none e = none
    instance_with s (some location) none = none
    instance_with s (some location) (some e) = some (
      record {
        region = [];
        available_zone = [];
        namespace = location.namespace;
        cluster_name = s.cluster;
      },
      record {
        location = location;
        addr = e.address ++ (58 ∷ decimal e.port);
        status = s.status;
        cluster = record { namespace = location.namespace; cluster_name = s.cluster };
      },
    )

    -- `none` is a panic: no service, no location, or no endpoint of this port.
    abbrev pub event_instance : Option DbService → Option (TenantKey × BackendInstance)
    event_instance none = none
    event_instance (some s) = instance_with s s.location (find_sql s.endpoints)

    module _ (maps : DashMap TenantKey (List BackendInstance)) where
      -- `tenant_keys` is what the channel of the subscriptions holds, `db_instance` the value of the
      -- watch channel.
      pub record BackendDiscovery : Type 0 where
        pub node_id : List ℕ
        pub namespace : List ℕ
        pub tenant_keys : List TenantKey
        pub tenants : maps.Map
        pub db_instance : BackendInstance

      unfoldable pub new : List ℕ → List ℕ → BackendInstance → BackendDiscovery
      new node_id namespace default = record {
        node_id = node_id;
        namespace = namespace;
        tenant_keys = [];
        tenants = maps.empty;
        db_instance = default;
      }

      unfoldable pub unsubscribed_tenants : TenantKey → BackendDiscovery → BackendDiscovery
      unsubscribed_tenants key d = record d { tenants = maps.insert d.tenants key [] }

      -- The receiver lives as long as the sender, so the send does not fail.
      pub subscribe_for : TenantKey → BackendDiscovery → BackendDiscovery
      subscribe_for key d = record d { tenant_keys = d.tenant_keys ++ (key ∷ []) }

      -- Every known tenant is asked for again, after a failed subscription.
      abbrev pub subscribe_all : List TenantKey → BackendDiscovery → BackendDiscovery
      subscribe_all [] d = d
      subscribe_all (key ∷ keys) d = subscribe_all keys (subscribe_for key d)

      pub resubscribe : BackendDiscovery → BackendDiscovery
      resubscribe d =
          subscribe_all
            (map (λ (e : TenantKey × List BackendInstance). e.0) (maps.entries d.tenants)) d

      -- One item of `send_stream`.
      pub send_stream : BackendDiscovery → Option (SubscribeNamespaceRequest × BackendDiscovery)
      send_stream d = elim d.tenant_keys [
        | [] ↦ none
        | key ∷ keys ↦ some (
          record {
            db_location = some (record {
              region = key.region;
              available_zone = key.available_zone;
              namespace = key.namespace;
              node_name = [];
            });
            subscribe_id =
                some (record { id = d.node_id; namespace = d.namespace; name = d.node_id });
            force = true;
            label = [];
          },
          record d { tenant_keys = keys },
        )
      ]

      -- The write to the tenant's list and to the watch channel.
      unfoldable pub apply_event :
          TenantKey × BackendInstance → BackendDiscovery → Option BackendDiscovery
      apply_event (key, be) d = elim (maps.get d.tenants key) [
        | none ↦ none
        | some es ↦
            some
              (record d { tenants = maps.insert d.tenants key (replace be es); db_instance = be })
      ]

      abbrev pub on_event :
          Option (TenantKey × BackendInstance) → BackendDiscovery → Option BackendDiscovery
      on_event none d = none
      on_event (some event) d = apply_event event d

      -- The loop of `recv_stream`, with the state that it leaves.
      unfoldable pub recv_stream : List Message → BackendDiscovery → Ending × BackendDiscovery
      recv_stream [] d = (stream_ended, d)
      recv_stream (stream_error ∷ ms) d = (stream_failed, d)
      recv_stream (response none ∷ ms) d = (stream_failed, d)
      recv_stream (response (some other_payload) ∷ ms) d = (panicked, d)
      recv_stream (response (some (change_event service)) ∷ ms) d =
          elim (on_event (event_instance service) d) [
            | none ↦ (panicked, d)
            | some d' ↦ recv_stream ms d'
          ]
