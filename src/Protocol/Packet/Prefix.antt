-- ===== src/Protocol/Packet/Prefix.antt =====
-- A packet that is complete in a prefix of the stream is parsed the same from more of the stream.
use haentgl.Prelude.{
  ℕ, zero, suc, ◌+◌, ◌*◌, ◌≤◌, ◌≡◌, refl, ap, none, some, Option-cases, List, [], ◌∷◌, ◌++◌, length,
  take, drop, arith, ◌⊎◌, inl, inr, length-append, append_assoc, take-append-drop, length-take,
}
use haentgl.Extern.Winnow.{Winnow, IResult, ok, err, backtrack}
use haentgl.Protocol.Packet.{
  max_payload_len, Packet, full_packet, one_packet, full_packets, combine, packet, finish,
}
use haentgl.Protocol.Packet.Parse.{
  full_packet_ok, one_packet_cases, full_packet_head, full_packet_three, full_packets_step,
  full_packets_stop, one_packet_nil, full_packet_ne, one_packet_ok, one_packet_inv,
}

finish_inv :
    (fulls : List (ℕ × List ℕ)) (o : IResult (ℕ × List ℕ)) (rest : List ℕ) (seq : ℕ) (p : Packet)
    → finish fulls o ≡ some (ok rest (seq, p))
    → (last_p : List ℕ) × (o ≡ ok rest (seq, last_p)) × (combine none [] fulls last_p ≡ some p)
finish_inv fulls (err e) rest seq p h = cc
finish_inv fulls (ok i (s, last_p)) rest seq p h = (last_p, ground arith, ground arith)

finish-none :
    (fulls : List (ℕ × List ℕ)) (o : IResult (ℕ × List ℕ))
    → finish fulls o ≡ none
    → (rest : List ℕ) × (seq : ℕ) × (last_p : List ℕ) × (o ≡ ok rest (seq, last_p))
      × (combine none [] fulls last_p ≡ none)
finish-none fulls (err e) h = cc
finish-none fulls (ok i (s, last_p)) h = (i, s, last_p, refl, ground arith)

module _ (w : Winnow) where
  -- An input is a full packet and a rest, or has no full packet in front.
  full_packet_cases :
      (i : List ℕ)
      → ((seq : ℕ) × (bytes : List ℕ) × (rest : List ℕ) × (i
            ≡ 0xff ∷ 0xff ∷ 0xff ∷ seq ∷ (bytes ++ rest))
          × (length bytes ≡ max_payload_len))
        ⊎ (full_packet w i ≡ err backtrack)
  full_packet_cases [] = inr (full_packet_ne w [] (λ e. cc))
  full_packet_cases (a ∷ []) = inr (full_packet_ne w (a ∷ []) (λ e. cc))
  full_packet_cases (a ∷ b ∷ []) = inr (full_packet_ne w (a ∷ b ∷ []) (λ e. cc))
  full_packet_cases (a ∷ b ∷ c ∷ []) = inr (full_packet_three w a b c)
  full_packet_cases (a ∷ b ∷ c ∷ s ∷ tail) = elim (full_packet_head w a b c s tail) [
    | inl (ha, hb, hc, long) ↦ inl (
      s,
      take max_payload_len tail,
      drop max_payload_len tail,
      ground (arith, take-append-drop max_payload_len tail),
      omega (arith, length-take max_payload_len tail),
    )
    | inr e ↦ inr e
  ]

  -- Where `one_packet` succeeds and `full_packet` does not, more input changes neither.
  more_at :
      (a b c seq : ℕ) (p rest more : List ℕ)
      → length p ≡ a + 256 * b + 65536 * c
      → full_packet w (a ∷ b ∷ c ∷ seq ∷ (p ++ rest)) ≡ err backtrack
      → (full_packet w (a ∷ b ∷ c ∷ seq ∷ (p ++ (rest ++ more))) ≡ err backtrack)
        × (one_packet w (a ∷ b ∷ c ∷ seq ∷ (p ++ (rest ++ more))) ≡ ok (rest ++ more) (seq, p))
  more_at a b c seq p rest more n hf = (
    (elim (full_packet_head w a b c seq (p ++ (rest ++ more))) [
      | inl (ha, hb, hc, long) ↦ ground (arith, full_packet_ok w seq p rest)
      | inr e ↦ e
    ]),
    one_packet_ok w a b c seq p (rest ++ more) n,
  )

  one_packet_more :
      (i rest more : List ℕ) (seq : ℕ) (p : List ℕ)
      → full_packet w i ≡ err backtrack
      → one_packet w i ≡ ok rest (seq, p)
      → (full_packet w (i ++ more) ≡ err backtrack)
        × (one_packet w (i ++ more) ≡ ok (rest ++ more) (seq, p))
  one_packet_more i rest more seq p hf h =
      let (a, b, c, e, n) = one_packet_inv w i rest seq p h in
      rw (e, append_assoc p rest more) (more_at a b c seq p rest more n (rw e at hf))

  -- The loop over the full packets reads the same ones from more input.
  Same : ℕ → ℕ → List ℕ → List ℕ → List ℕ → ℕ → List ℕ → Type 0
  Same g g' i rest more seq p =
      ((full_packets w g' (i ++ more)).0 ≡ (full_packets w g i).0)
      × (one_packet w (full_packets w g' (i ++ more)).1 ≡ ok (rest ++ more) (seq, p))

  stop_more :
      (g g' : ℕ) (i rest more : List ℕ) (seq : ℕ) (p : List ℕ)
      → full_packet w i ≡ err backtrack
      → one_packet w (full_packets w g i).1 ≡ ok rest (seq, p)
      → Same g g' i rest more seq p
  unfolding Same
  stop_more g g' i rest more seq p stop h =
      let h' : one_packet w i ≡ ok rest (seq, p) = rw (full_packets_stop w g i stop) at h in
      let (f, o) = one_packet_more i rest more seq p stop h' in
      rw (full_packets_stop w g' (i ++ more) f, full_packets_stop w g i stop) (refl, o)

  step_more :
      (g g' : ℕ) (i next rest more : List ℕ) (s : ℕ) (bytes : List ℕ) (seq : ℕ) (p : List ℕ)
      → i ≡ 0xff ∷ 0xff ∷ 0xff ∷ s ∷ (bytes ++ next)
      → length bytes ≡ max_payload_len
      → (one_packet w (full_packets w g next).1 ≡ ok rest (seq, p) → Same g g' next rest more seq p)
      → one_packet w (full_packets w (suc g) i).1 ≡ ok rest (seq, p)
      → Same (suc g) (suc g') i rest more seq p
  unfolding Same
  step_more g g' i next rest more s bytes seq p e n ih h =
      let st = full_packets_step w g i next (s, bytes) (rw e (full_packet_ok w s bytes next n)) in
      let st' =
        full_packets_step w g' (i ++ more) (next ++ more) (s, bytes)
          (rw (e, append_assoc bytes next more) (full_packet_ok w s bytes (next ++ more) n)) in
      let (f, o) = ih (rw st at h) in
      rw (st', st) (ap (λ (fs : List (ℕ × List ℕ)). (s, bytes) ∷ fs) f, o)

  full_packets_more :
      (g g' : ℕ) (i rest more : List ℕ) (seq : ℕ) (p : List ℕ)
      → length i ≤ g
      → length (i ++ more) ≤ g'
      → one_packet w (full_packets w g i).1 ≡ ok rest (seq, p)
      → Same g g' i rest more seq p
  full_packets_more zero g' i rest more seq p hg hg' h = elim (full_packet_cases i) [
    | inl (s, bytes, next, e, n) ↦ absurd (omega (arith, ap length e))
    | inr stop ↦ stop_more zero g' i rest more seq p stop h
  ]
  full_packets_more (suc g) zero i rest more seq p hg hg' h = elim (full_packet_cases i) [
    | inl (s, bytes, next, e, n) ↦ absurd (omega (arith, ap length e, length-append i more))
    | inr stop ↦ stop_more (suc g) zero i rest more seq p stop h
  ]
  full_packets_more (suc g) (suc g') i rest more seq p hg hg' h = elim (full_packet_cases i) [
    | inl (s, bytes, next, e, n) ↦
        step_more g g' i next rest more s bytes seq p e n
          (full_packets_more g g' next rest more seq p
            (omega (arith, ap length e, length-append bytes next))
            (omega (
              arith,
              ap length e,
              length-append bytes next,
              length-append i more,
              length-append next more,
            )))
          h
    | inr stop ↦ stop_more (suc g) (suc g') i rest more seq p stop h
  ]

  -- A packet that `packet` finds at the front of the input is found, with the same sequence number
  -- and payload, when more bytes follow, and they join the rest.
  pub packet-append :
      (i more rest : List ℕ) (seq : ℕ) (p : Packet)
      → packet w i ≡ some (ok rest (seq, p))
      → packet w (i ++ more) ≡ some (ok (rest ++ more) (seq, p))
  unfolding packet Same
  packet-append i more rest seq p h =
      let (last_p, o, c) = finish_inv _ _ rest seq p h in
      let (f, o') =
        full_packets_more (length i) (length (i ++ more)) i rest more seq last_p (omega arith)
          (omega arith) o in
      rw (f, o') (rw (finish, c))

  -- A panic of the parser does not depend on what follows either.
  pub packet-append_panic : (i more : List ℕ) → packet w i ≡ none → packet w (i ++ more) ≡ none
  unfolding packet Same
  packet-append_panic i more h =
      let (rest, seq, last_p, o, c) = finish-none _ _ h in
      let (f, o') =
        full_packets_more (length i) (length (i ++ more)) i rest more seq last_p (omega arith)
          (omega arith) o in
      rw (f, o') (rw (finish, c))

  -- `packet` finds a packet, asks for more input, or panics.
  pub packet_cases :
      (i : List ℕ)
      → ((rest : List ℕ) × (seq : ℕ) × (p : Packet) × (packet w i ≡ some (ok rest (seq, p))))
        ⊎ ((packet w i ≡ some (err backtrack)) ⊎ (packet w i ≡ none))
  unfolding packet
  packet_cases i =
      let fulls = full_packets w (length i) i in
      elim (one_packet_cases w fulls.1) [
        | inl (rest, (seq, last_p), o) ↦ elim (Option-cases (combine none [] fulls.0 last_p)) [
          | inl c ↦ inr (inr (rw o (rw (finish, c))))
          | inr (p, c) ↦ inl (rest, seq, p, rw o (rw (finish, c)))
        ]
        | inr o ↦ inr (inl (rw o))
      ]

  pub packet_nil : packet w [] ≡ some (err backtrack)
  unfolding packet
  packet_nil = rw (full_packets_stop w 0 [] (full_packet_ne w [] (λ e. cc)), one_packet_nil w)
