-- ===== src/Backend/Router/Select.antt =====
-- What the routers select.
use haentgl.Prelude.{
  ℕ, ◌<◌, ◌≡◌, ◌⊎◌, refl, sym, ◌∙◌, subst, none, some, Option-cases, inl, inr, List, [], ◌∷◌,
  length, All, arith,
}
use haentgl.Extern.DashMap.{DashMap, Member}
use haentgl.Backend.Tenant.{TenantKey}
use haentgl.Backend.Manager.{BackendInstance}
use haentgl.Backend.Discovery.{BackendDiscovery}
use haentgl.Backend.Discovery.Reached.{Reached, Reached-Sound}
use haentgl.Backend.Discovery.Update.{OfTenant}
use haentgl.Backend.Resolver.Pick.{get_elem?-Member}
use haentgl.Backend.Router.{
  Random, random, selected, no_backends, tenant_not_found, static_selector, select, selector,
}

module _ (rand : Random) where
  -- The static router selects one of its backends, if it has any.
  pub static_selector-Member :
      (es : List BackendInstance) (r : rand.Rng)
      → 0 < length es
      → (e : BackendInstance) × ((static_selector rand es r).0 ≡ selected e) × Member e es
  unfolding static_selector
  static_selector-Member es r h =
      let (i, drawn, below) = rand.gen_range_below (length es) r h in
      let (e, found, m) = get_elem?-Member es i below in (e, rw (drawn, found), m)

  select-Member :
      (e : BackendInstance) (es : List BackendInstance) (r : rand.Rng)
      → (be : BackendInstance) × ((select rand random (e ∷ es) r).0 ≡ selected be)
        × Member be (e ∷ es)
  select-Member e [] r = (e, refl, inl refl)
  select-Member e (e' ∷ es) r = static_selector-Member (e ∷ e' ∷ es) r (omega arith)

  module _ (maps : DashMap TenantKey (List BackendInstance)) where
    -- The random selector gives an error for a tenant that is not known, another one for a tenant
    -- without backends, and otherwise one of the tenant's backends; it does not panic.
    pub selector_cases :
        (key : TenantKey) (tenants : maps.Map) (r : rand.Rng)
        → ((maps.get tenants key ≡ none)
            × ((selector maps rand key random tenants r).0 ≡ tenant_not_found))
          ⊎ ((maps.get tenants key ≡ some [])
              × ((selector maps rand key random tenants r).0 ≡ no_backends))
          ⊎ ((es : List BackendInstance) × (be : BackendInstance) × (maps.get tenants key ≡ some es)
              × ((selector maps rand key random tenants r).0 ≡ selected be)
              × Member be es)
    unfolding selector
    selector_cases key tenants r = elim (Option-cases (maps.get tenants key)) [
      | inl e ↦ inl (e, rw e)
      | inr (es, e) ↦ inr (known es e)
    ]
      where
        known :
            (es : List BackendInstance)
            → maps.get tenants key ≡ some es
            → ((maps.get tenants key ≡ some [])
                × ((selector maps rand key random tenants r).0 ≡ no_backends))
              ⊎ ((es : List BackendInstance) × (be : BackendInstance) × (maps.get tenants key
                    ≡ some es)
                  × ((selector maps rand key random tenants r).0 ≡ selected be)
                  × Member be es)
        known [] e = inl (e, rw e)
        known (e1 ∷ es) e =
            let (be, chosen, m) = select-Member e1 es r in inr (e1 ∷ es, be, e, rw e chosen, m)

All-Member :
    (P : BackendInstance → Type 0) (be : BackendInstance) (es : List BackendInstance)
    → All P es
    → Member be es
    → P be
All-Member P be [] h m = elim m [ ]
All-Member P be (e ∷ es) h (inl p) = subst P p h.0
All-Member P be (e ∷ es) h (inr m) = All-Member P be es h.1 m

module _ (rand : Random) (maps : DashMap TenantKey (List BackendInstance))
    (same_text : Discrete (List ℕ)) (same_key : Discrete TenantKey) (decimal : ℕ → List ℕ) where
  -- In every state that the discovery gets into, a tenant is never routed to another tenant's
  -- cluster: an instance that the random selector selects for a key has the key's namespace and
  -- cluster name.
  pub selected-OfTenant :
      {d : BackendDiscovery same_text decimal maps} (key : TenantKey) (r : rand.Rng)
      (be : BackendInstance)
      → Reached same_text decimal maps d
      → (selector maps rand key random d.tenants r).0 ≡ selected be
      → OfTenant key be
  selected-OfTenant {d} key r be reached chosen =
      let sound = Reached-Sound same_text decimal maps same_key reached in
      elim (selector_cases rand maps key d.tenants r) [
        | inl (gone, e) ↦ absurd (differs be (sym e ∙ chosen))
        | inr (inl (empty, e)) ↦ absurd (differs_empty be (sym e ∙ chosen))
        | inr (inr (es, be', known, e, m)) ↦
            All-Member (OfTenant key) be es (sound key es known).0
              (rw (same be' be (sym e ∙ chosen)) at m)
      ]
    where
      differs : (b : BackendInstance) → tenant_not_found ≡ selected b → ⊥
      differs b e = ground arith

      differs_empty : (b : BackendInstance) → no_backends ≡ selected b → ⊥
      differs_empty b e = ground arith

      same : (b b' : BackendInstance) → selected b ≡ selected b' → b ≡ b'
      same b b' e = ground arith
