-- ===== src/Protocol/Reader.antt =====
-- `PacketReader::next_async`: src/proxy/src/protocol/mysql/packet/packet_reader.rs.
pub mod Buffer
pub mod Stream
pub mod Total
use haentgl.Prelude.{
  ℕ, zero, suc, ◌+◌, ◌-◌, ◌*◌, max, Bool, Option, none, some, List, [], ◌∷◌, ◌++◌, length, take,
  drop, replicate, ltb, ◌==◌, if◌then◌else◌,
}
use haentgl.Extern.Winnow.{Winnow, IResult, ok, err, incomplete, backtrack, cut}
use haentgl.Extern.Tokio.{AsyncRead}
use haentgl.Protocol.Packet.{Packet, packet}

abbrev pub packet_buffer_size : ℕ
packet_buffer_size = 4096

abbrev pub packet_large_buffer_size : ℕ
packet_large_buffer_size = 1048576

pub data IoError : Type 0 where
  invalid_data unexpected_eof read_failed : IoError

-- What `next_async` comes to: `Ok(Some(p))`, `Ok(None)`, an error, or a panic of the parser.
pub data Next : Type 0 where
  got : ℕ → Packet → Next
  closed : Next
  failed : IoError → Next
  panicked : Next

-- `Vec::resize(n, 0)`.
pub resize : ℕ → List ℕ → List ℕ
resize n bytes = take n bytes ++ replicate (n - length bytes) 0

module _ (w : Winnow) (io : AsyncRead) where
  pub record PacketReader : Type 0 where
    pub bytes : List ℕ
    pub start : ℕ
    pub remaining : ℕ
    pub r : io.Reader

  pub new : io.Reader → PacketReader
  new r = record { bytes = []; start = 0; remaining = 0; r = r }

  -- `from_raw_parts(&self.bytes[self.start..], self.remaining)`.
  pub window : PacketReader → List ℕ
  window s = take s.remaining (drop s.start s.bytes)

  -- The match on the parser's result; `none` goes on to read more.
  pub on_parse : PacketReader → Option (IResult (ℕ × Packet)) → Option (Next × PacketReader)
  on_parse s none = some (panicked, s)
  on_parse s (some (ok rest (seq, p))) = some (
    got seq p,
    (if ltb 0 (length rest)
        then record s { bytes = rest; start = 0; remaining = length rest }
        else record s { remaining = length rest }),
  )
  on_parse s (some (err cut)) =
      some (failed invalid_data, record s { bytes = take s.remaining s.bytes })
  on_parse s (some (err backtrack)) = none
  on_parse s (some (err incomplete)) = none

  pub try_packet : PacketReader → Option (Next × PacketReader)
  try_packet s = if s.remaining == 0 then none else on_parse s (packet w (window s))

  -- `drain(0..start)` and the growth of the buffer, before the read.
  pub make_room : ℕ → PacketReader → PacketReader
  make_room buffer_size s =
      let bytes = drop s.start s.bytes in
      let end = s.remaining in
      record s {
        start = 0;
        bytes =
            if ltb (length bytes - end) buffer_size
            then resize (max buffer_size (end * 2)) bytes
            else bytes;
      }

  -- The bytes read land behind the `remaining` bytes that are there.
  pub store_read : List ℕ → io.Reader → PacketReader → PacketReader
  store_read bs r s = record s {
    bytes = take s.remaining s.bytes ++ (bs ++ drop (s.remaining + length bs) s.bytes);
    remaining = s.remaining + length bs;
    r = r;
  }

  -- `read == 0`.
  pub at_end : PacketReader → Next × PacketReader
  at_end s =
      let s' = record s { bytes = take s.remaining s.bytes } in
      if length s'.bytes == 0 then (closed, s') else (failed unexpected_eof, s')

  -- The loop; `none`: the fuel ran out.
  pub next_loop : ℕ → ℕ → PacketReader → Option (Next × PacketReader)
  next_loop zero buffer_size s = none
  next_loop (suc fuel) buffer_size s = elim (try_packet s) [
    | some result ↦ some result
    | none ↦
        let s1 = make_room buffer_size s in
        elim (io.read s1.r (length s1.bytes - s1.remaining)) [
          | none ↦ some (failed read_failed, s1)
          | some ([], r') ↦ some (at_end (store_read [] r' s1))
          | some (b ∷ bs, r') ↦ next_loop fuel packet_large_buffer_size (store_read (b ∷ bs) r' s1)
        ]
  ]

  -- Every read but the last brings a byte, so the bytes to come are enough fuel.
  pub next_async : ℕ → PacketReader → Option (Next × PacketReader)
  next_async fuel s =
      next_loop fuel packet_buffer_size (record s { start = length s.bytes - s.remaining })
