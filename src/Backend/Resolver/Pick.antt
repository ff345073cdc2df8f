-- ===== src/Backend/Resolver/Pick.antt =====
-- What the resolver picks.
use haentgl.Prelude.{
  true, false, get_elem?, ℕ, zero, suc, ◌+◌, ◌%◌, ◌^◌, ◌<◌, ◌≡◌, ◌≢◌, refl, ap, sym, ◌∙◌, subst,
  ◌⊎◌, inl, inr, Bool-cases, none, some, List, [], ◌∷◌, length, leb, arith, All, Option-cases,
}
use haentgl.Extern.DashMap.{DashMap, Member}
use haentgl.Backend.Resolver.{
  is_available, CpChannel, CpResolver, available_channels, only_available, get_cp_backend,
  mark_backend_unavailable, CpChannelStatus, available, unavailable,
}

pub get_elem?-Member :
    {A : Type 0} (xs : List A) (i : ℕ)
    → i < length xs
    → (c : A) × (get_elem? xs i ≡ some c) × Member c xs
get_elem?-Member [] i h = absurd (omega arith)
get_elem?-Member (x ∷ xs) zero h = (x, refl, inl refl)
get_elem?-Member (x ∷ xs) (suc i) h =
    let (c, e, m) = get_elem?-Member xs i (omega arith) in (c, e, inr m)

module _ (Channel : Type 0) (maps : DashMap (List ℕ) (CpChannel Channel)) where
  abbrev Picked : CpResolver Channel maps → Type 0
  Picked r =
      (c : CpChannel Channel) × ((get_cp_backend Channel maps r).0 ≡ some c)
      × Member c (available_channels Channel maps r)
      × ((get_cp_backend Channel maps r).1.pick_index < length (available_channels Channel maps r))

  pick_first :
      (r : CpResolver Channel maps) (cs : List (CpChannel Channel))
      → available_channels Channel maps r ≡ cs
      → ((cs ≡ []) × ((get_cp_backend Channel maps r).0 ≡ none)) ⊎ Picked r
  unfolding get_cp_backend
  pick_first r [] e = inl (refl, rw e (ground arith))
  pick_first r (c ∷ cs) e =
      let channels = available_channels Channel maps r in
      let next = (r.pick_index + 1) % 2 ^ 64 in
      let some? : 0 < length channels = rw e (omega arith) in
      elim (Bool-cases (leb (length channels) next)) [
        | inl past ↦
            let (x, found, m) = get_elem?-Member channels 0 some? in
            inr (x, rw past found, m, rw past some?)
        | inr within ↦
            let fits : next < length channels = ground arith in
            let (x, found, m) = get_elem?-Member channels next fits in
            inr (x, rw within found, m, rw within fits)
      ]

  is_available-status : (s : CpChannelStatus) → is_available s ≡ true → s ≡ available
  is_available-status available e = refl
  is_available-status unavailable e = absurd (ground (arith, e))

  is_available-not : (s : CpChannelStatus) → is_available s ≡ false → s ≡ unavailable
  is_available-not available e = absurd (ground (arith, e))
  is_available-not unavailable e = refl

  All-Member :
      {m : maps.Map} (es : List (List ℕ × CpChannel Channel)) (name : List ℕ)
      (c : CpChannel Channel)
      → All (λ (e : List ℕ × CpChannel Channel). maps.get m e.0 ≡ some e.1) es
      → Member (name, c) es
      → maps.get m name ≡ some c
  All-Member [] name c a h = absurd h
  All-Member {m} (e ∷ es) name c a (inl same) =
      subst (λ (x : List ℕ × CpChannel Channel). maps.get m x.0 ≡ some x.1) same a.0
  All-Member {m} (e ∷ es) name c a (inr later) = All-Member es name c a.1 later

  -- The filter keeps the available channels of the entries, and no others.
  only_available-kept :
      (es : List (List ℕ × CpChannel Channel)) (c : CpChannel Channel)
      → Member c (only_available Channel maps es)
      → (name : List ℕ) × Member (name, c) es × (c.status ≡ available)
  only_available-kept [] c m = absurd m
  only_available-kept ((name, c') ∷ es) c m = elim (Bool-cases (is_available c'.status)) [
    | inl e ↦
        kept (is_available-status c'.status e) (λ later. only_available-kept es c later) (rw e at m)
    | inr e ↦ let (k, found, s) = only_available-kept es c (rw e at m) in (k, inr found, s)
  ]
    where
      kept :
          c'.status ≡ available
          → (Member c (only_available Channel maps es)
              → (name : List ℕ) × Member (name, c) es × (c.status ≡ available))
          → (c' ≡ c) ⊎ Member c (only_available Channel maps es)
          → (k : List ℕ) × Member (k, c) ((name, c') ∷ es) × (c.status ≡ available)
      kept e rest (inl same) =
          (name, inl (ap (λ x. (name, x)) same), ap (λ x. x.status) (sym same) ∙ e)
      kept e rest (inr later) = let (k, found, s) = rest later in (k, inr found, s)

  -- If it keeps none, none was available.
  only_available-none :
      (es : List (List ℕ × CpChannel Channel)) (name : List ℕ) (c : CpChannel Channel)
      → only_available Channel maps es ≡ []
      → Member (name, c) es
      → c.status ≡ unavailable
  only_available-none [] name c e m = absurd m
  only_available-none ((n, c') ∷ es) name c e m = elim (Bool-cases (is_available c'.status)) [
    | inl a ↦ absurd (omega (arith, ap length (rw a at e)))
    | inr u ↦ here (is_available-not c'.status u) (only_available-none es name c (rw u at e)) m
  ]
    where
      here :
          c'.status ≡ unavailable
          → (Member (name, c) es → c.status ≡ unavailable)
          → ◌≡◌ {A = List ℕ × CpChannel Channel} (n, c') (name, c) ⊎ Member (name, c) es
          → c.status ≡ unavailable
      here u rest (inl same) = ap (λ x. x.1.status) (sym same) ∙ u
      here u rest (inr later) = rest later

  -- `get_cp_backend` hands out a channel of the map whose status is available, and keeps its index
  -- below the number of those; it panics if every channel of the map is unavailable.
  pub get_cp_backend_cases :
      (r : CpResolver Channel maps)
      → (((get_cp_backend Channel maps r).0 ≡ none)
          × ((name : List ℕ) (c : CpChannel Channel)
              → maps.get r.cp_backends name ≡ some c
              → c.status ≡ unavailable))
        ⊎ ((c : CpChannel Channel) × (name : List ℕ) × ((get_cp_backend Channel maps r).0 ≡ some c)
            × (maps.get r.cp_backends name ≡ some c)
            × (c.status ≡ available)
            × ((get_cp_backend Channel maps r).1.pick_index
                < length (available_channels Channel maps r)))
  get_cp_backend_cases r = elim (pick_first r (available_channels Channel maps r) refl) [
    | inl (empty, e) ↦ inl (
      e,
      (λ name c found.
          only_available-none (maps.entries r.cp_backends) name c empty
            (maps.get_entries r.cp_backends name c found)),
    )
    | inr (c, e, m, below) ↦
        let (name, entry, s) = only_available-kept (maps.entries r.cp_backends) c m in
        inr (
          c,
          name,
          e,
          All-Member (maps.entries r.cp_backends) name c (maps.entries_get r.cp_backends) entry,
          s,
          below,
        )
  ]

  none_available :
      (es : List (List ℕ × CpChannel Channel))
      → All (λ (e : List ℕ × CpChannel Channel). e.1.status ≡ unavailable) es
      → only_available Channel maps es ≡ []
  none_available [] a = refl
  none_available ((name, c) ∷ es) a = rw (a.0, none_available es a.1)

  module _ (same : Discrete (List ℕ)) where
    -- Where only the marked backend is in the map, every channel of the map is unavailable.
    marked_status :
        (r : CpResolver Channel maps) (name : List ℕ)
        → ((j : List ℕ) → j ≢ name → maps.get r.cp_backends j ≡ none)
        → (k : List ℕ) (c : CpChannel Channel)
        → maps.get (mark_backend_unavailable Channel maps name r).cp_backends k ≡ some c
        → c.status ≡ unavailable
    unfolding mark_backend_unavailable
    marked_status r name only k c e = elim (Option-cases (maps.get r.cp_backends name)) [
      | inl missing ↦ elim (same k name) [
        | yes p ↦ absurd (ground (arith, missing))
        | no p ↦ absurd (ground (arith, missing, only k p))
      ]
      | inr (old, found) ↦ elim (same k name) [
        | yes p ↦
            ground
              (arith, maps.get-insert_self r.cp_backends name (record old { status = unavailable }))
        | no p ↦ absurd (
            ground (
              arith,
              only k p,
              maps.get-insert_ne r.cp_backends name k (record old { status = unavailable }) p,
            ))
      ]
    ]

    All-marked :
        (m : maps.Map) (es : List (List ℕ × CpChannel Channel))
        → ((k : List ℕ) (c : CpChannel Channel) → maps.get m k ≡ some c → c.status ≡ unavailable)
        → All (λ (e : List ℕ × CpChannel Channel). maps.get m e.0 ≡ some e.1) es
        → All (λ (e : List ℕ × CpChannel Channel). e.1.status ≡ unavailable) es
    All-marked m [] h a = tt
    All-marked m (e ∷ es) h a = (h e.0 e.1 a.0, All-marked m es h a.1)

    -- When the only backend that the resolver knows is marked unavailable, the next `get_cp_backend`
    -- panics.
    pub get_cp_backend_after_mark :
        (r : CpResolver Channel maps) (name : List ℕ)
        → ((j : List ℕ) → j ≢ name → maps.get r.cp_backends j ≡ none)
        → (get_cp_backend Channel maps (mark_backend_unavailable Channel maps name r)).0 ≡ none
    get_cp_backend_after_mark r name only =
        let marked = mark_backend_unavailable Channel maps name r in
        let empty : available_channels Channel maps marked ≡ [] =
          none_available (maps.entries marked.cp_backends) (
            All-marked marked.cp_backends (maps.entries marked.cp_backends)
              (marked_status r name only) (maps.entries_get marked.cp_backends)) in
        elim (pick_first marked [] empty) [
          | inl none? ↦ none?.1
          | inr picked ↦ absurd (omega (arith, ap length empty, picked.3))
        ]
