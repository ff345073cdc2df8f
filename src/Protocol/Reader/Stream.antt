-- ===== src/Protocol/Reader/Stream.antt =====
-- The reader finds the packets of the stream, however the bytes arrive.
use haentgl.Prelude.{
  ℕ, zero, suc, ◌-◌, ◌<◌, ◌≤◌, ◌≡◌, ◌≢◌, refl, sym, ap, ◌∙◌, Option, none, some, List, [], ◌∷◌,
  ◌++◌, length, drop, ◌==◌, arith, ◌⊎◌, inl, inr, Bool-cases, append_assoc, append-nil,
  length-append, take_all, drop_all, length-drop,
}
use haentgl.Extern.Winnow.{Winnow, IResult, ok, err, backtrack}
use haentgl.Extern.Tokio.{AsyncRead}
use haentgl.Protocol.Packet.{Packet, packet}
use haentgl.Protocol.Packet.Prefix.{packet-append, packet-append_panic, packet_cases, packet_nil}
use haentgl.Protocol.Reader.{
  PacketReader, Next, got, window, try_packet, on_parse, make_room, store_read, next_loop,
  next_async, packet_large_buffer_size, packet_buffer_size,
}
use haentgl.Protocol.Reader.Buffer.{Fits, window_empty, make_room_lem, store_read_lem}

module _ (w : Winnow) (io : AsyncRead) where
  -- The bytes that the reader has not handed out: those in the buffer, then those to come.
  abbrev pub ahead : PacketReader w io → List ℕ
  ahead s = window w io s ++ io.pending s.r

  -- Between calls the unread bytes are the last of the buffer.
  abbrev pub unread : PacketReader w io → List ℕ
  unread s = drop (length s.bytes - s.remaining) s.bytes ++ io.pending s.r

  -- No read fails.
  abbrev pub Reliable : Type 0
  Reliable =
      (r : io.Reader) (room : ℕ)
      → (bs : List ℕ) × (r' : io.Reader) × (io.read r room ≡ some (bs, r'))

  -- The call hands out the packet, and what is ahead afterwards is the rest.
  pub record Delivers (result : Option (Next × PacketReader w io)) (seq : ℕ) (p : Packet)
      (rest : List ℕ) : Type 0 where
    pub after : PacketReader w io
    pub delivered : result ≡ some (got seq p, after)
    pub kept : after.remaining ≤ length after.bytes
    pub left : unread after ≡ rest

  -- A packet found in the window: the buffer keeps what the parser left.
  found :
      (s : PacketReader w io) (seq : ℕ) (p : Packet) (left : List ℕ)
      → packet w (window w io s) ≡ some (ok left (seq, p))
      → Delivers (on_parse w io s (packet w (window w io s))) seq p (left ++ io.pending s.r)
  unfolding on_parse
  found s seq p [] h = record {
    after = record s { remaining = 0 };
    delivered = rw h;
    kept = omega arith;
    left =
        ap (λ (t : List ℕ). t ++ io.pending s.r)
          (drop_all (length s.bytes - 0) s.bytes (omega arith));
  }
  found s seq p (b ∷ left) h = record {
    after = record s { bytes = b ∷ left; start = 0; remaining = length (b ∷ left) };
    delivered = rw h (ground arith);
    kept = omega arith;
    left =
        ap (λ (k : ℕ). drop k (b ∷ left) ++ io.pending s.r)
          (let e : length (b ∷ left) - length (b ∷ left) ≡ 0 = omega arith in e);
  }

  same_packet :
      {result : Option (Next × PacketReader w io)} {o : Option (IResult (ℕ × Packet))}
      {seq seq' : ℕ} {p p' : Packet} {rest rest' : List ℕ}
      → o ≡ some (ok rest (seq, p))
      → o ≡ some (ok rest' (seq', p'))
      → Delivers result seq p rest
      → Delivers result seq' p' rest'
  same_packet e e' d = record {
    after = d.after;
    delivered = d.delivered ∙ ground arith;
    kept = d.kept;
    left = d.left ∙ ground arith;
  }

  -- The parser on the window, when the packet is the first of all that is ahead.
  try_packet_cases :
      (s : PacketReader w io) (seq : ℕ) (p : Packet) (rest : List ℕ)
      → packet w (ahead s) ≡ some (ok rest (seq, p))
      → Delivers (try_packet w io s) seq p rest
        ⊎ ((try_packet w io s ≡ none) × (packet w (window w io s) ≡ some (err backtrack)))
  unfolding try_packet on_parse
  try_packet_cases s seq p rest h = elim (Bool-cases (s.remaining == 0)) [
    | inl zero? ↦
        let e : window w io s ≡ [] = window_empty w io s (ground arith) in
        inr (rw zero?, rw e (packet_nil w))
    | inr some? ↦ elim (packet_cases w (window w io s)) [
      | inl (left, seq0, p0, o) ↦
          let o' : packet w (ahead s) ≡ some (ok (left ++ io.pending s.r) (seq0, p0)) =
            packet-append w (window w io s) (io.pending s.r) left seq0 p0 o in
          inl (rw some? (same_packet o' h (found s seq0 p0 left o)))
      | inr (inl e) ↦ inr (rw (some?, e), e)
      | inr (inr e) ↦ cc (h, packet-append_panic w (window w io s) (io.pending s.r) e)
    ]
  ]

  -- The read of a round that makes room first.
  abbrev read_next : ℕ → PacketReader w io → Option (List ℕ × io.Reader)
  read_next size s = let s1 = make_room w io size s in io.read s1.r (length s1.bytes - s1.remaining)

  -- A round that reads bytes keeps what is ahead.
  round :
      (size : ℕ) (s : PacketReader w io) (b : ℕ) (bs : List ℕ) (r' : io.Reader)
      → Fits w io s
      → 0 < size
      → read_next size s ≡ some (b ∷ bs, r')
      → (ahead (store_read w io (b ∷ bs) r' (make_room w io size s)) ≡ ahead s)
        × Fits w io (store_read w io (b ∷ bs) r' (make_room w io size s))
        × (length (io.pending r') < length (io.pending s.r))
  round size s b bs r' fits pos e =
      let s1 = make_room w io size s in
      let (same, fits1, room) = make_room_lem w io size s fits pos in
      let (more, fits2) = store_read_lem w io (b ∷ bs) r' s1 (unfold make_room in refl) fits1 in
      let pend : io.pending s.r ≡ (b ∷ bs) ++ io.pending r' =
        unfold make_room in io.read_pending _ _ _ _ e in
      (
        rw
            (
              more,
              same,
              (let pr : io.pending (store_read w io (b ∷ bs) r' s1).r ≡ io.pending r' =
                    unfold store_read in refl in
                  pr),
              append_assoc (window w io s) (b ∷ bs) (io.pending r'),
            )
            (ap (λ (t : List ℕ). window w io s ++ t) (sym pend)),
        fits2,
        omega (arith, ap length pend, length-append (b ∷ bs) (io.pending r')),
      )

  -- The stream does not end while the packet is incomplete.
  not_ended :
      (size : ℕ) (s : PacketReader w io) (r' : io.Reader) (seq : ℕ) (p : Packet) (rest : List ℕ)
      → Fits w io s
      → 0 < size
      → packet w (window w io s) ≡ some (err backtrack)
      → packet w (ahead s) ≡ some (ok rest (seq, p))
      → read_next size s ≢ some ([], r')
  not_ended size s r' seq p rest fits pos short h e =
      let (same, fits1, room) = make_room_lem w io size s fits pos in
      let pend : io.pending s.r ≡ [] =
        unfold make_room in io.read_end _ _ r' (omega (arith, room)) e in
      cc (
        h,
        short,
        ap (λ (t : List ℕ). packet w (window w io s ++ t)) pend,
        append-nil (window w io s),
      )

  next_loop_more :
      (fuel size : ℕ) (s : PacketReader w io) (b : ℕ) (bs : List ℕ) (r' : io.Reader)
      → try_packet w io s ≡ none
      → read_next size s ≡ some (b ∷ bs, r')
      → next_loop w io (suc fuel) size s
        ≡ next_loop w io fuel packet_large_buffer_size
            (store_read w io (b ∷ bs) r' (make_room w io size s))
  unfolding next_loop
  next_loop_more fuel size s b bs r' go_on e = rw (go_on, next_loop) (rw (e, next_loop))

  next_loop-Delivers :
      (fuel size : ℕ) (s : PacketReader w io) (seq : ℕ) (p : Packet) (rest : List ℕ)
      → Reliable
      → Fits w io s
      → 0 < size
      → length (io.pending s.r) < fuel
      → packet w (ahead s) ≡ some (ok rest (seq, p))
      → Delivers (next_loop w io fuel size s) seq p rest
  next_loop-Delivers zero size s seq p rest reads fits pos enough h = absurd (omega arith)
  next_loop-Delivers (suc fuel) size s seq p rest reads fits pos enough h =
      elim (try_packet_cases s seq p rest h) [
        | inl d ↦ at_once d
        | inr (go_on, short) ↦
            let s1 = make_room w io size s in
            let (bs, r', e) = reads s1.r (length s1.bytes - s1.remaining) in
            after_read bs r' go_on short e
              (λ s'. next_loop-Delivers fuel packet_large_buffer_size s' seq p rest reads)
      ]
    where
      at_once :
          Delivers (try_packet w io s) seq p rest
          → Delivers (next_loop w io (suc fuel) size s) seq p rest
      at_once d = record {
        after = d.after;
        delivered = unfold next_loop in rw (d.delivered, next_loop);
        kept = d.kept;
        left = d.left;
      }

      after_read :
          (bs : List ℕ) (r' : io.Reader)
          → try_packet w io s ≡ none
          → packet w (window w io s) ≡ some (err backtrack)
          → read_next size s ≡ some (bs, r')
          → ((s' : PacketReader w io)
              → Fits w io s'
              → 0 < packet_large_buffer_size
              → length (io.pending s'.r) < fuel
              → packet w (ahead s') ≡ some (ok rest (seq, p))
              → Delivers (next_loop w io fuel packet_large_buffer_size s') seq p rest)
          → Delivers (next_loop w io (suc fuel) size s) seq p rest
      after_read [] r' go_on short e ih = absurd (not_ended size s r' seq p rest fits pos short h e)
      after_read (b ∷ bs) r' go_on short e ih =
          let (same, fits', fewer) = round size s b bs r' fits pos e in
          rw (next_loop_more fuel size s b bs r' go_on e) (
            ih (store_read w io (b ∷ bs) r' (make_room w io size s)) fits' (omega arith)
              (unfold store_read in omega (arith, fewer)) (rw same h))

  -- If the bytes that a reader has not handed out begin with a whole packet and no read fails, then
  -- `next_async` ends, whatever pieces the bytes arrive in: it hands out that packet with its
  -- sequence number, and the bytes behind the packet are what is unread afterwards.
  pub next_async-Delivers :
      (fuel : ℕ) (s : PacketReader w io) (seq : ℕ) (p : Packet) (rest : List ℕ)
      → Reliable
      → s.remaining ≤ length s.bytes
      → length (io.pending s.r) < fuel
      → packet w (unread s) ≡ some (ok rest (seq, p))
      → Delivers (next_async w io fuel s) seq p rest
  unfolding next_async
  next_async-Delivers fuel s seq p rest reads fits enough h =
      let s0 : PacketReader w io = record s { start = length s.bytes - s.remaining } in
      let same : window w io s0 ≡ drop s0.start s.bytes =
        unfold window in
        take_all s.remaining (drop s0.start s.bytes)
          (omega (arith, length-drop s0.start s.bytes)) in
      next_loop-Delivers fuel packet_buffer_size s0 seq p rest reads (omega arith) (omega arith)
        enough (rw same h)
