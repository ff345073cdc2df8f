-- ===== src/Backend/Discovery/Update.antt =====
-- The lists of the tenants under the events of the topology service.
use haentgl.Prelude.{
  ℕ, ◌≡◌, ◌≢◌, refl, ap, ◌∙◌, sym, Option, none, some, Option-cases, inl, inr, List, [], ◌∷◌, ◌++◌,
  All, arith,
}
use mathlib.Core.Option.{some-injective}
use mathlib.Core.Logic.{ite, if_pos, if_neg}
use haentgl.Extern.DashMap.{DashMap}
use haentgl.Backend.Tenant.{TenantKey}
use haentgl.Backend.Manager.{BackendInstance, DbLocation}
use haentgl.Backend.Discovery.{
  BackendDiscovery, Message, response, stream_error, change_event, other_payload, retain, replace,
  event_instance, apply_event, recv_stream, find_sql, DbService, on_event, Endpoint, instance_with,
}

-- The cluster of an instance is the tenant's.
abbrev pub OfTenant : TenantKey → BackendInstance → Type 0
OfTenant key be =
    (be.cluster.namespace ≡ key.namespace) × (be.cluster.cluster_name ≡ key.cluster_name)

module _ (same_text : Discrete (List ℕ)) where
  -- The instance with an address.
  abbrev pub instance_at : List ℕ → List BackendInstance → Option BackendInstance
  instance_at a [] = none
  instance_at a (e ∷ es) = ite (same_text e.addr a) (some e) (instance_at a es)

  abbrev pub OnePerAddress : List BackendInstance → Type 0
  OnePerAddress [] = Unit
  OnePerAddress (e ∷ es) = (instance_at e.addr es ≡ none) × OnePerAddress es

  at-retain_self :
      (a : List ℕ) (es : List BackendInstance) → instance_at a (retain same_text a es) ≡ none
  at-retain_self a [] = refl
  at-retain_self a (e ∷ es) = ground (arith, at-retain_self a es)

  at-retain_ne :
      (a b : List ℕ) (es : List BackendInstance)
      → b ≢ a
      → instance_at b (retain same_text a es) ≡ instance_at b es
  at-retain_ne a b [] ne = refl
  at-retain_ne a b (e ∷ es) ne = ground (arith, at-retain_ne a b es ne)

  at-snoc_none :
      (a : List ℕ) (be : BackendInstance) (es : List BackendInstance)
      → instance_at a es ≡ none
      → instance_at a (es ++ (be ∷ [])) ≡ ite (same_text be.addr a) (some be) none
  at-snoc_none a be [] h = refl
  at-snoc_none a be (e ∷ es) h = ground (arith, at-snoc_none a be es)

  at-snoc_ne :
      (a : List ℕ) (be : BackendInstance) (es : List BackendInstance)
      → a ≢ be.addr
      → instance_at a (es ++ (be ∷ [])) ≡ instance_at a es
  at-snoc_ne a be [] ne = ground (arith, ne)
  at-snoc_ne a be (e ∷ es) ne = ground (arith, at-snoc_ne a be es ne)

  retain-none :
      (a b : List ℕ) (es : List BackendInstance)
      → instance_at b es ≡ none
      → instance_at b (retain same_text a es) ≡ none
  retain-none a b [] h = refl
  retain-none a b (e ∷ es) h = ground (arith, retain-none a b es)

  retain-OnePerAddress :
      (a : List ℕ) (es : List BackendInstance)
      → OnePerAddress es
      → OnePerAddress (retain same_text a es)
  retain-OnePerAddress a [] h = tt
  retain-OnePerAddress a (e ∷ es) h = elim (same_text e.addr a) [
    | yes p ↦ rw (if_pos _ p) (retain-OnePerAddress a es h.1)
    | no p ↦ rw (if_neg _ p) (retain-none a e.addr es h.0, retain-OnePerAddress a es h.1)
  ]

  snoc-OnePerAddress :
      (be : BackendInstance) (es : List BackendInstance)
      → instance_at be.addr es ≡ none
      → OnePerAddress es
      → OnePerAddress (es ++ (be ∷ []))
  snoc-OnePerAddress be [] h u = (refl, tt)
  snoc-OnePerAddress be (e ∷ es) h u = elim (same_text e.addr be.addr) [
    | yes p ↦ absurd (ground (arith, p, h))
    | no p ↦ (at-snoc_ne e.addr be es p ∙ u.0, snoc-OnePerAddress be es (rw (if_neg _ p) at h) u.1)
  ]

  -- A list of instances is a map by address, and an event sets one entry of it: the new instance is
  -- the one with its address, every other address keeps its instance, and no address stands twice.
  pub replace_sets :
      (be : BackendInstance) (es : List BackendInstance)
      → OnePerAddress es
      → (instance_at be.addr (replace same_text be es) ≡ some be)
        × ((a : List ℕ) → a ≢ be.addr → instance_at a (replace same_text be es) ≡ instance_at a es)
        × OnePerAddress (replace same_text be es)
  replace_sets be es u =
      let gone = at-retain_self be.addr es in
      (
        ground (arith, at-snoc_none be.addr be (retain same_text be.addr es) gone),
        (λ a ne. ground (
          arith,
          at-snoc_ne a be (retain same_text be.addr es) ne,
          at-retain_ne be.addr a es ne,
        )),
        snoc-OnePerAddress be (retain same_text be.addr es) gone
            (retain-OnePerAddress be.addr es u),
      )

  retain-All :
      (P : BackendInstance → Type 0) (a : List ℕ) (es : List BackendInstance)
      → All P es
      → All P (retain same_text a es)
  retain-All P a [] h = tt
  retain-All P a (e ∷ es) h = elim (same_text e.addr a) [
    | yes p ↦ rw (if_pos _ p) (retain-All P a es h.1)
    | no p ↦ rw (if_neg _ p) (h.0, retain-All P a es h.1)
  ]

  snoc-All :
      (P : BackendInstance → Type 0) (be : BackendInstance) (es : List BackendInstance)
      → All P es
      → P be
      → All P (es ++ (be ∷ []))
  snoc-All P be [] h p = (p, tt)
  snoc-All P be (e ∷ es) h p = (h.0, snoc-All P be es h.1 p)

  module _ (decimal : ℕ → List ℕ) (maps : DashMap TenantKey (List BackendInstance))
      (same_key : Discrete TenantKey) where
    -- Every tenant has instances of its own cluster only, one for each address.
    abbrev pub Sound : BackendDiscovery same_text decimal maps → Type 0
    Sound d =
        (key : TenantKey) (es : List BackendInstance)
        → maps.get d.tenants key ≡ some es
        → All (OfTenant key) es × OnePerAddress es

    abbrev OfEvent : Option (TenantKey × BackendInstance) → Type 0
    OfEvent none = Unit
    OfEvent (some (key, be)) = OfTenant key be

    with-OfEvent :
        (s : DbService) (l : Option DbLocation) (e : Option Endpoint)
        → OfEvent (instance_with same_text decimal s l e)
    with-OfEvent s none e = tt
    with-OfEvent s (some location) none = tt
    with-OfEvent s (some location) (some e) = (refl, refl)

    event-OfEvent : (s : Option DbService) → OfEvent (event_instance same_text decimal s)
    event-OfEvent none = tt
    event-OfEvent (some s) = with-OfEvent s s.location (find_sql same_text s.endpoints)

    insert-Sound :
        (d : BackendDiscovery same_text decimal maps) (key : TenantKey) (be : BackendInstance)
        (es : List BackendInstance)
        → Sound d
        → OfTenant key be
        → maps.get d.tenants key ≡ some es
        → Sound (record d {
          tenants = maps.insert d.tenants key (replace same_text be es);
          db_instance = be;
        })
    insert-Sound d key be es h own known j js e =
        let (all, one) = h key es known in
        elim (same_key j key) [
          | yes p ↦
              let new = replace same_text be es in
              let set : new ≡ js = some-injective _ _ (
                sym (maps.get-insert_self d.tenants key new)
                ∙ (ap (maps.get (maps.insert d.tenants key new)) (sym p) ∙ e)) in
              let all' =
                snoc-All (OfTenant key) be _ (retain-All (OfTenant key) be.addr es all) own in
              rw (p, ← set) (all', (replace_sets be es one).2)
          | no p ↦ h j js (sym (maps.get-insert_ne d.tenants key j (replace same_text be es) p) ∙ e)
        ]

    on_event-Sound :
        (o : Option (TenantKey × BackendInstance)) (d d' : BackendDiscovery same_text decimal maps)
        → OfEvent o
        → Sound d
        → on_event same_text decimal maps o d ≡ some d'
        → Sound d'
    unfolding apply_event
    on_event-Sound none d d' own h e = absurd (ground arith)
    on_event-Sound (some (key, be)) d d' own h e = elim (Option-cases (maps.get d.tenants key)) [
      | inl gone ↦ absurd (ground (arith, gone))
      | inr (es, known) ↦
          let set = some-injective _ _ (rw (apply_event, known) at e) in
          rw (← set) (insert-Sound d key be es h own known)
    ]

    -- Whatever messages arrive, and however the stream ends, a tenant's list holds instances of the
    -- tenant's own cluster only, and no address twice, if that was so before.
    pub recv_stream-Sound :
        (ms : List Message) (d : BackendDiscovery same_text decimal maps)
        → Sound d
        → Sound (recv_stream same_text decimal maps ms d).1
    unfolding recv_stream
    recv_stream-Sound [] d h = h
    recv_stream-Sound (stream_error ∷ ms) d h = h
    recv_stream-Sound (response none ∷ ms) d h = h
    recv_stream-Sound (response (some other_payload) ∷ ms) d h = h
    recv_stream-Sound (response (some (change_event service)) ∷ ms) d h =
        elim (Option-cases
          (on_event same_text decimal maps (event_instance same_text decimal service) d)) [
            | inl e ↦ rw (recv_stream, e) h
            | inr (d', e) ↦
                rw (recv_stream, e)
                  (recv_stream-Sound ms d' (
                    on_event-Sound (event_instance same_text decimal service) d d'
                      (event-OfEvent service) h e))
          ]
