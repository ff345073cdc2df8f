-- ===== src/Backend/Discovery/Reached.antt =====
-- The states that the discovery gets into.
use haentgl.Prelude.{ℕ, ◌≡◌, ◌∙◌, refl, ap, sym, some, List, [], ◌∷◌, map, arith}
use mathlib.Core.Option.{some-injective}
use haentgl.Extern.DashMap.{DashMap}
use haentgl.Backend.Tenant.{TenantKey}
use haentgl.Backend.Manager.{BackendInstance}
use haentgl.Backend.Discovery.{
  BackendDiscovery, Message, SubscribeNamespaceRequest, new, unsubscribed_tenants, subscribe_for,
  subscribe_all, resubscribe, send_stream, recv_stream,
}
use haentgl.Backend.Discovery.Update.{Sound, recv_stream-Sound}

module _ (same_text : Discrete (List ℕ)) (decimal : ℕ → List ℕ)
    (maps : DashMap TenantKey (List BackendInstance)) where
  abbrev pub State : Type 0
  State = BackendDiscovery same_text decimal maps

  pub data Reached : State → Type 0 where
    started :
        (node_id namespace : List ℕ) (default : BackendInstance)
        → Reached (new same_text decimal maps node_id namespace default)
    unsubscribed :
        (key : TenantKey) {d : State}
        → Reached d
        → Reached (unsubscribed_tenants same_text decimal maps key d)
    subscribed :
        (key : TenantKey) {d : State}
        → Reached d
        → Reached (subscribe_for same_text decimal maps key d)
    requested :
        {d d' : State} (request : SubscribeNamespaceRequest)
        → Reached d
        → send_stream same_text decimal maps d ≡ some (request, d')
        → Reached d'
    received :
        (ms : List Message) {d : State}
        → Reached d
        → Reached (recv_stream same_text decimal maps ms d).1
    resubscribed : {d : State} → Reached d → Reached (resubscribe same_text decimal maps d)

  subscribe_all_tenants :
      (keys : List TenantKey) (d : State)
      → (subscribe_all same_text decimal maps keys d).tenants ≡ d.tenants
  unfolding subscribe_for
  subscribe_all_tenants [] d = refl
  subscribe_all_tenants (key ∷ keys) d =
      subscribe_all_tenants keys (subscribe_for same_text decimal maps key d)

  resubscribe_tenants : (d : State) → (resubscribe same_text decimal maps d).tenants ≡ d.tenants
  unfolding resubscribe
  resubscribe_tenants d =
      subscribe_all_tenants
        (map (λ (e : TenantKey × List BackendInstance). e.0) (maps.entries d.tenants)) d

  send_stream_tenants :
      (d d' : State) (request : SubscribeNamespaceRequest)
      → send_stream same_text decimal maps d ≡ some (request, d')
      → d'.tenants ≡ d.tenants
  unfolding send_stream
  send_stream_tenants d d' request e = by_queue d.tenant_keys refl
    where
      by_queue : (q : List TenantKey) → d.tenant_keys ≡ q → d'.tenants ≡ d.tenants
      by_queue [] h = absurd (ground (arith, h, e))
      by_queue (key ∷ keys) h = ground (arith, h, e)

module _ (same_text : Discrete (List ℕ)) (decimal : ℕ → List ℕ)
    (maps : DashMap TenantKey (List BackendInstance)) (same_key : Discrete TenantKey) where
  same-Sound :
      (d d' : State same_text decimal maps)
      → d'.tenants ≡ d.tenants
      → Sound same_text decimal maps same_key d
      → Sound same_text decimal maps same_key d'
  same-Sound d d' e h key es found = h key es (ap (λ m. maps.get m key) (sym e) ∙ found)

  new-Sound :
      (node_id namespace : List ℕ) (default : BackendInstance)
      → Sound same_text decimal maps same_key (new same_text decimal maps node_id namespace default)
  unfolding new
  new-Sound node_id namespace default key es e = absurd (ground (arith, maps.get-empty key, e))

  emptied-Sound :
      (d : State same_text decimal maps) (key : TenantKey)
      → Sound same_text decimal maps same_key d
      → Sound same_text decimal maps same_key (unsubscribed_tenants same_text decimal maps key d)
  unfolding unsubscribed_tenants
  emptied-Sound d key h j es e = elim (same_key j key) [
    | yes p ↦
        let set : [] ≡ es = some-injective _ _ (
          sym (maps.get-insert_self d.tenants key [])
          ∙ (ap (maps.get (maps.insert d.tenants key [])) (sym p) ∙ e)) in
        rw (← set) (tt, tt)
    | no p ↦ h j es (sym (maps.get-insert_ne d.tenants key j [] p) ∙ e)
  ]

  -- In every state that the discovery gets into, by any subscriptions and any messages, the list of a
  -- tenant holds instances of the tenant's own cluster only, and no address twice.
  pub Reached-Sound :
      {d : State same_text decimal maps}
      → Reached same_text decimal maps d
      → Sound same_text decimal maps same_key d
  Reached-Sound (started node_id namespace default) = new-Sound node_id namespace default
  Reached-Sound (unsubscribed key {d} r) = emptied-Sound d key (Reached-Sound r)
  Reached-Sound (subscribed key {d} r) =
      same-Sound d (subscribe_for same_text decimal maps key d) (unfold subscribe_for in refl)
        (Reached-Sound r)
  Reached-Sound (requested {d} {d'} request r e) =
      same-Sound d d' (send_stream_tenants same_text decimal maps d d' request e) (Reached-Sound r)
  Reached-Sound (received ms {d} r) =
      recv_stream-Sound same_text decimal maps same_key ms d (Reached-Sound r)
  Reached-Sound (resubscribed {d} r) =
      same-Sound d (resubscribe same_text decimal maps d)
        (resubscribe_tenants same_text decimal maps d) (Reached-Sound r)
