-- ===== src/Protocol/Link.antt =====
-- What the server asks of its connections: packets come out of a source and go into a sink. The
-- reader and the writer of src/proxy/src/protocol/mysql/packet implement the two.
pub mod Packets
use haentgl.Prelude.{ℕ, ◌<◌, ◌≡◌, Option, some, List, [], ◌∷◌, ◌++◌, length}
use haentgl.Protocol.Packet.{Packet, max_payload_len}
use haentgl.Protocol.Reader.{Next, got}
use haentgl.Protocol.Writer.{chunks}
use haentgl.Protocol.Writer.Frames.{frames}

-- A packet with its sequence number, and its bytes on a stream.
abbrev pub Numbered : Type 0
Numbered = ℕ × Packet

abbrev pub wire : Numbered → List ℕ
wire (seq, p) = frames seq (chunks max_payload_len p)

abbrev pub wires : List Numbered → List ℕ
wires [] = []
wires (p ∷ ps) = wire p ++ wires ps

pub record Source : Type 1 where
  pub Reader : Type 0
  -- `next_async`.
  pub next : Reader → Next × Reader
  -- The reader is going to find these packets first.
  pub Ahead : Reader → List Numbered → Type 0
  pub next-Ahead :
      (r : Reader) (seq : ℕ) (p : Packet) (ps : List Numbered)
      → Ahead r ((seq, p) ∷ ps)
      → (r' : Reader) × (next r ≡ (got seq p, r')) × Ahead r' ps

pub record Sink : Type 1 where
  pub Writer : Type 0
  pub seq : Writer → ℕ
  pub buf : Writer → List ℕ
  -- The bytes handed to the connection.
  pub sent : Writer → List ℕ
  pub set_seq : ℕ → Writer → Writer
  pub write : List ℕ → Writer → Writer
  -- `none` is an I/O error.
  pub end_packet : Writer → Option Writer
  pub flush_all : Writer → Option Writer
  pub set_seq_view :
      (n : ℕ) (d : Writer)
      → (seq (set_seq n d) ≡ n) × (buf (set_seq n d) ≡ buf d) × (sent (set_seq n d) ≡ sent d)
  pub write_view :
      (bs : List ℕ) (d : Writer)
      → (seq (write bs d) ≡ seq d) × (buf (write bs d) ≡ buf d ++ bs) × (sent (write bs d) ≡ sent d)
  pub end_packet_view :
      (d d' : Writer)
      → 0 < length (buf d)
      → end_packet d ≡ some d'
      → (sent d' ≡ sent d ++ wire (seq d, buf d)) × (buf d' ≡ [])
  pub flush_all_view :
      (d d' : Writer) → flush_all d ≡ some d' → (sent d' ≡ sent d) × (buf d' ≡ buf d)
