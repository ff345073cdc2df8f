-- ===== src/Protocol/Writer/RoundTrip.antt =====
-- The parser reads back what the writer puts on the stream.
use haentgl.Prelude.{
  ℕ, zero, suc, ◌+◌, ◌*◌, ◌/◌, ◌%◌, ◌<◌, ◌≤◌, ◌≡◌, refl, ap, subst, ◌∙◌, Option, none, some, List,
  [], ◌∷◌, ◌++◌, length, take, drop, arith, ltb, Bool-cases, inl, inr, ◌⊎◌, All, append_assoc,
  append-nil, take_all, take-append-drop, length-append, length-take, length-drop, drop_all, ==_iff,
  true,
}
use haentgl.Prelude.Words.{add_u8}
use haentgl.Extern.Winnow.{Winnow, ok, err, backtrack}
use haentgl.Protocol.Packet.{
  max_payload_len, full_packet, full_packets, combine, packet, finish, follows,
}
use haentgl.Protocol.Packet.Parse.{
  full_packet_ok, full_packet_ne, one_packet_ok, one_packet_nil, full_packets_step,
  full_packets_stop,
}
use haentgl.Protocol.Writer.{chunk_list, chunks}
use haentgl.Protocol.Writer.Frames.{frame, frames}

abbrev IsFull : List ℕ → Type 0
IsFull c = length c ≡ max_payload_len

abbrev joined : List (List ℕ) → List ℕ
joined [] = []
joined (c ∷ cs) = c ++ joined cs

-- Chunks with their sequence numbers.
abbrev numbered : ℕ → List (List ℕ) → List (ℕ × List ℕ)
numbered seq [] = []
numbered seq (c ∷ cs) = (seq, c) ∷ numbered (add_u8 seq 1) cs

-- The sequence number after so many frames.
pub last_seq : ℕ → List (List ℕ) → ℕ
last_seq seq [] = seq
last_seq seq (c ∷ cs) = last_seq (add_u8 seq 1) cs

-- A payload is full chunks and a shorter last one, or full chunks only.
record Split (size : ℕ) (xs : List ℕ) (cs : List (List ℕ)) : Type 0 where
  fulls : List (List ℕ)
  last : List ℕ
  fulls-IsFull : All (λ c. length c ≡ size) fulls
  payload : joined fulls ++ last ≡ xs
  short : length last < size
  parts : ((cs ≡ fulls ++ (last ∷ [])) × (0 < length last)) ⊎ ((cs ≡ fulls) × (last ≡ []))
  rounds : length xs ≡ length fulls * size + length last

chunk_list-nil : (fuel size : ℕ) → chunk_list {A = ℕ} fuel size [] ≡ []
unfolding chunk_list
chunk_list-nil zero size = refl
chunk_list-nil (suc fuel) size = refl

Split-nil : (size : ℕ) (cs : List (List ℕ)) → 0 < size → cs ≡ [] → Split size [] cs
Split-nil size cs pos e = record {
  fulls = [];
  last = [];
  fulls-IsFull = tt;
  payload = refl;
  short = pos;
  parts = inr (e, refl);
  rounds = omega arith;
}

Split-last : (size : ℕ) (xs : List ℕ) → 0 < length xs → length xs < size → Split size xs (xs ∷ [])
Split-last size xs pos short = record {
  fulls = [];
  last = xs;
  fulls-IsFull = tt;
  payload = refl;
  short = short;
  parts = inl (refl, pos);
  rounds = omega arith;
}

Split-cons :
    (size : ℕ) (c xs : List ℕ) (cs : List (List ℕ))
    → length c ≡ size
    → Split size xs cs
    → Split size (c ++ xs) (c ∷ cs)
Split-cons size c xs cs h s = record {
  fulls = c ∷ s.fulls;
  last = s.last;
  fulls-IsFull = (h, s.fulls-IsFull);
  payload = append_assoc c (joined s.fulls) s.last ∙ ap (λ (t : List ℕ). c ++ t) s.payload;
  short = s.short;
  parts = more_parts s.parts;
  rounds = omega (arith, s.rounds, length-append c xs);
}
  where
    more_parts :
        (((cs ≡ s.fulls ++ (s.last ∷ [])) × (0 < length s.last)) ⊎ ((cs ≡ s.fulls) × (s.last ≡ [])))
        → (((c ∷ cs ≡ c ∷ (s.fulls ++ (s.last ∷ []))) × (0 < length s.last))
            ⊎ ((c ∷ cs ≡ c ∷ s.fulls) × (s.last ≡ [])))
    more_parts (inl (e, pos)) = inl (ap (λ (t : List (List ℕ)). c ∷ t) e, pos)
    more_parts (inr (e, nil)) = inr (ap (λ (t : List (List ℕ)). c ∷ t) e, nil)

Split-chunks :
    (fuel size : ℕ) (xs : List ℕ)
    → 0 < size
    → length xs ≤ fuel
    → Split size xs (chunk_list fuel size xs)
unfolding chunk_list
Split-chunks fuel size [] pos h = Split-nil size _ pos (chunk_list-nil fuel size)
Split-chunks zero size (x ∷ xs) pos h = absurd (omega arith)
Split-chunks (suc fuel) size (x ∷ xs) pos h =
    let front = take size (x ∷ xs) in
    let back = drop size (x ∷ xs) in
    elim (Bool-cases (ltb (length (x ∷ xs)) size)) [
      | inl short ↦
          rw
            (
              drop_all size (x ∷ xs) (ground arith),
              take_all size (x ∷ xs) (ground arith),
              chunk_list-nil fuel size,
            )
            (Split-last size (x ∷ xs) (omega arith) (ground arith))
      | inr long ↦
          subst (λ (t : List ℕ). Split size t (front ∷ chunk_list fuel size back))
            (take-append-drop size (x ∷ xs))
            (Split-cons size front back (chunk_list fuel size back)
              (ground (arith, length-take size (x ∷ xs)))
              (Split-chunks fuel size back pos (omega (arith, length-drop size (x ∷ xs)))))
    ]

module _ (w : Winnow) where
  -- The loop reads back full chunks, up to an input that no full packet begins.
  full_packets-frames :
      (cs : List (List ℕ)) (seq g : ℕ) (tail : List ℕ)
      → All IsFull cs
      → length cs ≤ g
      → full_packet w tail ≡ err backtrack
      → full_packets w g (frames seq cs ++ tail) ≡ (numbered seq cs, tail)
  unfolding frames
  full_packets-frames [] seq g tail full hg stop = full_packets_stop w g tail stop
  full_packets-frames (c ∷ cs) seq zero tail full hg stop = absurd (omega arith)
  full_packets-frames (c ∷ cs) seq (suc g) tail full hg stop =
      let e : (frame seq c ++ frames (add_u8 seq 1) cs) ++ tail
          ≡ 0xff ∷ 0xff ∷ 0xff ∷ seq ∷ (c ++ (frames (add_u8 seq 1) cs ++ tail)) =
        rw (full.0, append_assoc c (frames (add_u8 seq 1) cs) tail) in
      rw e (
        rw
          (full_packets_step w g _ _ _
            (full_packet_ok w seq c (frames (add_u8 seq 1) cs ++ tail) full.0))
          (rw (full_packets-frames cs (add_u8 seq 1) g tail full.1 (omega arith) stop)))

combine-numbered :
    (cs : List (List ℕ)) (prev : Option ℕ) (pre last : List ℕ) (seq : ℕ)
    → follows prev seq ≡ true
    → combine prev pre (numbered seq cs) last ≡ some (pre ++ (joined cs ++ last))
unfolding combine
combine-numbered [] prev pre last seq h = refl
combine-numbered (c ∷ cs) prev pre last seq h = rw h (
    combine-numbered cs (some seq) (pre ++ c) last (add_u8 seq 1) ((==_iff _ _).1 refl)
    ∙ rw (append_assoc pre c (joined cs ++ last), append_assoc c (joined cs) last))

frames-append :
    (cs : List (List ℕ)) (seq : ℕ) (last : List ℕ)
    → frames seq (cs ++ (last ∷ [])) ≡ frames seq cs ++ frame (last_seq seq cs) last
unfolding frames last_seq
frames-append [] seq last = append-nil (frame seq last)
frames-append (c ∷ cs) seq last = rw (
  frames-append cs (add_u8 seq 1) last,
  append_assoc (frame seq c) (frames (add_u8 seq 1) cs) (frame (last_seq (add_u8 seq 1) cs) last),
)

length-frames : (cs : List (List ℕ)) (seq : ℕ) → length cs ≤ length (frames seq cs)
unfolding frames
length-frames [] seq = omega arith
length-frames (c ∷ cs) seq =
    omega (
      arith,
      length-frames cs (add_u8 seq 1),
      length-append (frame seq c) (frames (add_u8 seq 1) cs),
    )

last_seq_lem :
    (cs : List (List ℕ)) (seq : ℕ) → seq < 256 → last_seq seq cs ≡ (seq + length cs) % 256
unfolding last_seq
last_seq_lem [] seq h = omega arith
last_seq_lem (c ∷ cs) seq h = omega (arith, last_seq_lem cs (add_u8 seq 1) (omega arith))

count_fulls :
    (cs : List (List ℕ)) (last buf : List ℕ)
    → length buf ≡ length cs * max_payload_len + length last
    → length last < max_payload_len
    → length cs ≡ length buf / max_payload_len
count_fulls cs last buf h short = omega arith

module _ (w : Winnow) where
  -- Full chunks and a shorter, non-empty last one.
  packet_short :
      (cs : List (List ℕ)) (last rest : List ℕ) (seq : ℕ)
      → All IsFull cs
      → length last < max_payload_len
      → packet w (frames seq (cs ++ (last ∷ [])) ++ rest)
        ≡ some (ok rest (last_seq seq cs, joined cs ++ last))
  unfolding packet
  packet_short cs last rest seq full short =
      let s' = last_seq seq cs in
      let tail : List ℕ = frame s' last ++ rest in
      let e : frames seq (cs ++ (last ∷ [])) ++ rest ≡ frames seq cs ++ tail =
        rw (frames-append cs seq last, append_assoc (frames seq cs) (frame s' last) rest) in
      let stop : full_packet w tail ≡ err backtrack = full_packet_ne w tail (λ h. ground arith) in
      rw e (
        rw
          (
            full_packets-frames w cs seq (length (frames seq cs ++ tail)) tail full
                (omega (arith, length-frames cs seq, length-append (frames seq cs) tail)) stop,
            one_packet_ok w (length last % 256) (length last / 256 % 256)
                (length last / 65536 % 256) s' last rest (omega arith),
          )
          (rw (finish, combine-numbered cs none [] last seq refl)))

  packet_full :
      (cs : List (List ℕ)) (seq : ℕ)
      → All IsFull cs
      → packet w (frames seq cs) ≡ some (err backtrack)
  unfolding packet
  packet_full cs seq full = rw (← append-nil (frames seq cs)) (
      rw (
        full_packets-frames w cs seq (length (frames seq cs ++ [])) [] full
            (omega (arith, length-frames cs seq, length-append (frames seq cs) []))
            (full_packet_ne w [] (λ h. cc)),
        one_packet_nil w,
      ))

  -- A non-empty payload whose length is no multiple of the largest one, cut into frames from any
  -- sequence number on, is parsed back as one packet, with the number of its last frame, and what
  -- follows the frames is left.
  pub packet-frames :
      (buf rest : List ℕ) (seq : ℕ)
      → seq < 256
      → 0 < length buf % max_payload_len
      → packet w (frames seq (chunks max_payload_len buf) ++ rest)
        ≡ some (ok rest ((seq + length buf / max_payload_len) % 256, buf))
  packet-frames buf rest seq hs odd =
      let s = Split-chunks (length buf) max_payload_len buf (omega arith) (omega arith) in
      elim s.parts [
        | inl (e, pos) ↦ rw e (
            packet_short s.fulls s.last rest seq s.fulls-IsFull s.short
            ∙ rw (
              s.payload,
              last_seq_lem s.fulls seq hs,
              count_fulls s.fulls s.last buf s.rounds s.short,
            ))
        | inr (e, nil) ↦ absurd (omega (arith, s.rounds, ap length nil))
      ]

  -- A payload that is not empty and fills its frames exactly does not parse as a packet from its
  -- frames: no empty frame ends it.
  pub packet-frames_full :
      (buf : List ℕ) (seq : ℕ)
      → 0 < length buf
      → length buf % max_payload_len ≡ 0
      → packet w (frames seq (chunks max_payload_len buf)) ≡ some (err backtrack)
  packet-frames_full buf seq some_bytes even =
      let s = Split-chunks (length buf) max_payload_len buf (omega arith) (omega arith) in
      elim s.parts [
        | inl (e, pos) ↦ absurd (omega (arith, s.rounds, s.short))
        | inr (e, nil) ↦ rw e (packet_full s.fulls seq s.fulls-IsFull)
      ]
