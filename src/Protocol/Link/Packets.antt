-- ===== src/Protocol/Link/Packets.antt =====
-- The packet reader is a source, and the packet writer is a sink.
use haentgl.Prelude.{
  ℕ, suc, ◌≤◌, ◌≡◌, refl, none, some, Option-cases, List, [], ◌∷◌, ◌++◌, length, inl, inr, arith,
}
use haentgl.Extern.ByteOrder.{ByteOrder}
use haentgl.Extern.Winnow.{Winnow, ok}
use haentgl.Extern.Tokio.{AsyncRead, AsyncWrite}
use haentgl.Protocol.Packet.{Packet, packet}
use haentgl.Protocol.Reader.{PacketReader, Next, got, panicked, next_async}
use haentgl.Protocol.Reader.Stream.{Reliable, unread, next_async-Delivers}
use haentgl.Protocol.Writer.{PacketWriter, set_seq, write, end_packet, flush_all}
use haentgl.Protocol.Writer.Frames.{end_packet_sent}
use haentgl.Protocol.Link.{Source, Sink, Numbered}

module _ (w : Winnow) (io : AsyncRead) (reads : Reliable w io) where
  -- Bytes that begin with these packets.
  abbrev pub Parses : List ℕ → List Numbered → Type 0
  Parses bytes [] = Unit
  Parses bytes ((seq, p) ∷ ps) =
      (rest : List ℕ) × (packet w bytes ≡ some (ok rest (seq, p))) × Parses rest ps

  abbrev pub PacketsAhead : PacketReader w io → List Numbered → Type 0
  PacketsAhead s ps = (s.remaining ≤ length s.bytes) × Parses (unread w io s) ps

  -- With the fuel that `next_async` needs; the other case does not occur.
  abbrev pub next : PacketReader w io → Next × PacketReader w io
  next s = elim (next_async w io (suc (length (io.pending s.r))) s) [
    | some result ↦ result
    | none ↦ (panicked, s)
  ]

  -- The reader hands out the packets that its unread bytes begin with, one by one.
  pub next-PacketsAhead :
      (s : PacketReader w io) (seq : ℕ) (p : Packet) (ps : List Numbered)
      → PacketsAhead s ((seq, p) ∷ ps)
      → (s' : PacketReader w io) × (next s ≡ (got seq p, s')) × PacketsAhead s' ps
  next-PacketsAhead s seq p ps (kept, (rest, e, more)) =
      let d =
        next_async-Delivers w io (suc (length (io.pending s.r))) s seq p rest reads kept
          (omega arith) e in
      (d.after, rw (d.delivered, next), (d.kept, rw d.left more))

  abbrev pub packet_source : Source
  packet_source = record {
    Reader = PacketReader w io;
    next = next;
    Ahead = PacketsAhead;
    next-Ahead = next-PacketsAhead;
  }

module _ (order : ByteOrder) (out : AsyncWrite) where
  pub flush_view :
      (d d' : PacketWriter order out)
      → flush_all order out d ≡ some d'
      → (out.sent d'.inner_writer ≡ out.sent d.inner_writer) × (d'.buf ≡ d.buf)
  unfolding flush_all
  flush_view d d' e = elim (Option-cases (out.flush d.inner_writer)) [
    | inl fail ↦ absurd (ground (arith, fail))
    | inr (o, flushed) ↦ ground (arith, out.flush_sent d.inner_writer o flushed)
  ]

  pub set_view :
      (n : ℕ) (d : PacketWriter order out)
      → ((set_seq order out n d).seq ≡ n)
        × ((set_seq order out n d).buf ≡ d.buf)
        × (out.sent (set_seq order out n d).inner_writer ≡ out.sent d.inner_writer)
  unfolding set_seq
  set_view n d = (refl, refl, refl)

  pub put_view :
      (bs : List ℕ) (d : PacketWriter order out)
      → ((write order out bs d).seq ≡ d.seq)
        × ((write order out bs d).buf ≡ d.buf ++ bs)
        × (out.sent (write order out bs d).inner_writer ≡ out.sent d.inner_writer)
  unfolding write
  put_view bs d = (refl, refl, refl)

  abbrev pub packet_sink : Sink
  packet_sink = record {
    Writer = PacketWriter order out;
    seq = λ d. d.seq;
    buf = λ d. d.buf;
    sent = λ d. out.sent d.inner_writer;
    set_seq = set_seq order out;
    write = write order out;
    end_packet = end_packet order out;
    flush_all = flush_all order out;
    set_seq_view = set_view;
    write_view = put_view;
    end_packet_view = end_packet_sent order out;
    flush_all_view = flush_view;
  }
