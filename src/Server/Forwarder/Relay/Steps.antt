-- ===== src/Server/Forwarder/Relay/Steps.antt =====
-- The steps of a relay: one packet, two parts in a row, and the flush at the end.
use haentgl.Prelude.{
  ℕ, ◌<◌, ◌≡◌, refl, ◌∙◌, Bool, true, false, some, List, [], ◌∷◌, ◌++◌, length, append_assoc,
  append-nil,
}
use haentgl.Protocol.Packet.{Packet}
use haentgl.Protocol.Link.{Numbered, Source, Sink, wire, wires}
use haentgl.Server.Outcome.{Outcome, done, ◌>>=◌}
use haentgl.Server.Forwarder.{forward_one_packet, put_packet, flush_if}

pub wires-append : (ps qs : List Numbered) → wires (ps ++ qs) ≡ wires ps ++ wires qs
wires-append [] qs = refl
wires-append (p ∷ ps) qs = rw (wires-append ps qs, append_assoc (wire p) (wires ps) (wires qs))

-- A sink whose writes do not fail.
pub record Steady (K : Sink) : Type 0 where
  pub ends : (d : K.Writer) → (d' : K.Writer) × (K.end_packet d ≡ some d')
  pub flushes : (d : K.Writer) → (d' : K.Writer) × (K.flush_all d ≡ some d')

module _ (K : Sink) (steady : Steady K) where
  -- `set_seq`, `write_all`, `end_packet` on an empty buffer.
  pub put_packet-sends :
      (d : K.Writer) (seq : ℕ) (p : Packet)
      → 0 < length p
      → K.buf d ≡ []
      → (d' : K.Writer) × (put_packet K seq p d ≡ done d')
        × (K.sent d' ≡ K.sent d ++ wire (seq, p))
        × (K.buf d' ≡ [])
  put_packet-sends d seq p pos empty =
      let d1 = K.write p (K.set_seq seq d) in
      let (seq1, buf1, sent1) = K.set_seq_view seq d in
      let (seq2, buf2, sent2) = K.write_view p (K.set_seq seq d) in
      let (d2, e2) = steady.ends d1 in
      let buf_is : K.buf d1 ≡ p = rw (buf2, buf1, empty) in
      let (more, idle) = K.end_packet_view d1 d2 (rw buf_is pos) e2 in
      (d2, rw e2, rw (more, sent2, sent1, seq2, seq1, buf_is), idle)

  pub flush_if-keeps :
      (is_flush : Bool) (d : K.Writer)
      → (d' : K.Writer) × (flush_if K is_flush d ≡ done d')
        × (K.sent d' ≡ K.sent d)
        × (K.buf d' ≡ K.buf d)
  flush_if-keeps true d =
      let (d', e) = steady.flushes d in
      let (same, buf) = K.flush_all_view d d' e in (d', rw e, same, buf)
  flush_if-keeps false d = (d, refl, refl, refl)

module _ (K : Sink) (S : Source) where
  -- The run gives the value; it has sent these packets and nothing else, it has read them and
  -- nothing behind them, and nothing is left in the buffer.
  pub record Relays {A : Type 0} (o : Outcome (A × K.Writer × S.Reader)) (a : A) (d : K.Writer)
      (ps rest : List Numbered) : Type 0 where
    pub dest : K.Writer
    pub src : S.Reader
    pub result : o ≡ done (a, dest, src)
    pub sent_all : K.sent dest ≡ K.sent d ++ wires ps
    pub idle : K.buf dest ≡ []
    pub ahead : S.Ahead src rest

  module _ (steady : Steady K) where
    pub Relays-one :
        (is_flush : Bool) (d : K.Writer) (s : S.Reader) (seq : ℕ) (p : Packet)
        (rest : List Numbered)
        → 0 < length p
        → K.buf d ≡ []
        → S.Ahead s ((seq, p) ∷ rest)
        → Relays (forward_one_packet K S is_flush d s) p d ((seq, p) ∷ []) rest
    unfolding forward_one_packet
    Relays-one is_flush d s seq p rest pos empty ahead =
        let (s1, e1, ahead1) = S.next-Ahead s seq p rest ahead in
        let (d1, put, sent1, buf1) = put_packet-sends K steady d seq p pos empty in
        let (d2, flush, sent2, buf2) = flush_if-keeps K steady is_flush d1 in
        record {
          dest = d2;
          src = s1;
          result = rw (e1, put, flush);
          sent_all = rw (sent2, sent1, append-nil (wire (seq, p)));
          idle = buf2 ∙ buf1;
          ahead = ahead1;
        }

    pub Relays-flush :
        {A : Type 0} (o : Outcome (A × K.Writer × S.Reader)) (a : A) (d d' : K.Writer)
        (s : S.Reader) (rest : List Numbered)
        → K.flush_all d ≡ some d'
        → o ≡ done (a, d', s)
        → K.buf d ≡ []
        → S.Ahead s rest
        → Relays o a d [] rest
    Relays-flush o a d d' s rest e result empty ahead =
        let (same, buf) = K.flush_all_view d d' e in
        record {
          dest = d';
          src = s;
          result = result;
          sent_all = same ∙ rw (append-nil (K.sent d));
          idle = buf ∙ empty;
          ahead = ahead;
        }

  pub Relays-then :
      {A B : Type 0} (o : Outcome (A × K.Writer × S.Reader))
      (f : A × K.Writer × S.Reader → Outcome (B × K.Writer × S.Reader)) (a : A) (b : B)
      (d : K.Writer) (ps qs rest : List Numbered)
      → Relays o a d ps (qs ++ rest)
      → ((d1 : K.Writer) (s1 : S.Reader)
          → K.buf d1 ≡ []
          → S.Ahead s1 (qs ++ rest)
          → Relays (f (a, d1, s1)) b d1 qs rest)
      → Relays (o >>= f) b d (ps ++ qs) rest
  Relays-then o f a b d ps qs rest first second =
      let next = second first.dest first.src first.idle first.ahead in
      record {
        dest = next.dest;
        src = next.src;
        result = rw first.result next.result;
        sent_all =
            next.sent_all
            ∙ rw
                (first.sent_all, wires-append ps qs, append_assoc (K.sent d) (wires ps) (wires qs));
        idle = next.idle;
        ahead = next.ahead;
      }

  pub Relays-done :
      {A : Type 0} (o : Outcome (A × K.Writer × S.Reader)) (a : A) (d : K.Writer) (s : S.Reader)
      (rest : List Numbered)
      → o ≡ done (a, d, s)
      → K.buf d ≡ []
      → S.Ahead s rest
      → Relays o a d [] rest
  Relays-done o a d s rest result empty ahead = record {
    dest = d;
    src = s;
    result = result;
    sent_all = rw (append-nil (K.sent d));
    idle = empty;
    ahead = ahead;
  }

  pub Relays-map :
      {A B : Type 0} (o : Outcome (A × K.Writer × S.Reader))
      (f : A × K.Writer × S.Reader → Outcome (B × K.Writer × S.Reader)) (a : A) (b : B)
      (d : K.Writer) (ps rest : List Numbered)
      → Relays o a d ps rest
      → ((d1 : K.Writer) (s1 : S.Reader) → f (a, d1, s1) ≡ done (b, d1, s1))
      → Relays (o >>= f) b d ps rest
  Relays-map o f a b d ps rest r e = record {
    dest = r.dest;
    src = r.src;
    result = rw r.result (e r.dest r.src);
    sent_all = r.sent_all;
    idle = r.idle;
    ahead = r.ahead;
  }

  pub Relays-then_flush :
      {A B : Type 0}
      → Steady K
      → (o : Outcome (A × K.Writer × S.Reader))
        (f : A × K.Writer × S.Reader → Outcome (B × K.Writer × S.Reader)) (a : A) (b : B)
        (d : K.Writer) (ps rest : List Numbered)
      → Relays o a d ps rest
      → ((d1 d2 : K.Writer) (s1 : S.Reader)
          → K.flush_all d1 ≡ some d2
          → f (a, d1, s1) ≡ done (b, d2, s1))
      → Relays (o >>= f) b d ps rest
  Relays-then_flush steady o f a b d ps rest r e =
      let (d2, flushed) = steady.flushes r.dest in
      let (same, buf) = K.flush_all_view r.dest d2 flushed in
      record {
        dest = d2;
        src = r.src;
        result = rw r.result (e r.dest d2 r.src flushed);
        sent_all = same ∙ r.sent_all;
        idle = buf ∙ r.idle;
        ahead = r.ahead;
      }
