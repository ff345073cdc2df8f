-- ===== src/Protocol/Writer.antt =====
-- `PacketWriter`: src/proxy/src/protocol/mysql/packet/packet_writer.rs.
-- The inner writer is an asynchronous stream; `none` is the I/O error that `?` passes on.
pub mod Frames
pub mod RoundTrip
use haentgl.Prelude.{
  ℕ, zero, suc, ◌+◌, ◌≢◌, Bool, Option, none, some, List, [], ◌∷◌, ◌++◌, length, take, drop, ◌==◌,
  if◌then◌else◌, ◌>>=◌, leb,
}
use haentgl.Prelude.Words.{add_u8}
use haentgl.Extern.ByteOrder.{ByteOrder}
use haentgl.Extern.Tokio.{AsyncWrite}
use haentgl.Protocol.Packet.{max_payload_len, packet_header_len}

-- `slice::chunks(n)`, for n > 0: each round takes an element at least, so the length is enough fuel.
unfoldable pub chunk_list {ℓ} : {A : Type ℓ} → ℕ → ℕ → List A → List (List A)
chunk_list zero n xs = []
chunk_list (suc fuel) n [] = []
chunk_list (suc fuel) n (x ∷ xs) = take n (x ∷ xs) ∷ chunk_list fuel n (drop n (x ∷ xs))

abbrev pub chunks {ℓ} : {A : Type ℓ} → ℕ → List A → List (List A)
chunks n xs = chunk_list (length xs) n xs

module _ (order : ByteOrder) (out : AsyncWrite) where
  pub record PacketWriter : Type 0 where
    pub buf : List ℕ
    pub seq : ℕ
    pub inner_writer : out.Writer

  pub new : out.Writer → PacketWriter
  new write = record { buf = []; seq = 0; inner_writer = write }

  unfoldable pub set_seq : ℕ → PacketWriter → PacketWriter
  set_seq seq p = record p { seq = seq }

  unfoldable pub increase_seq : PacketWriter → PacketWriter
  increase_seq p = record p { seq = add_u8 p.seq 1 }

  unfoldable pub reset_seq : PacketWriter → PacketWriter
  reset_seq p = record p { seq = 0 }

  -- `Write::write`, which `write_all` and the writers of integers go through.
  unfoldable pub write : List ℕ → PacketWriter → PacketWriter
  write bytes p = record p { buf = p.buf ++ bytes }

  -- The four bytes of the header.
  unfoldable pub header : ℕ → ℕ → List ℕ
  header size seq = order.write_u24 size ++ (seq ∷ [])

  -- One round of the loop: header and chunk, and what a short write has left.
  unfoldable pub write_chunk : List ℕ → PacketWriter → Option PacketWriter
  unfolding header increase_seq
  write_chunk chunk p =
      let head = header (length chunk) p.seq in
      let p' = increase_seq p in
      (out.write_vectored p'.inner_writer head chunk) >>= λ (written, w).
      if written == packet_header_len + length chunk
      then some (record p' { inner_writer = w })
      else (out.write_all w (drop written (head ++ chunk)) >>= λ w'.
          some (record p' { inner_writer = w' }))

  unfoldable pub write_chunks : List (List ℕ) → PacketWriter → Option PacketWriter
  write_chunks [] p = some p
  write_chunks (chunk ∷ rest) p = write_chunk chunk p >>= write_chunks rest

  abbrev is_empty : List ℕ → Bool
  is_empty bytes = length bytes == 0

  -- In the empty case the number of bytes written is dropped, and the sequence number stays.
  unfoldable pub end_packet : PacketWriter → Option PacketWriter
  end_packet p =
      if is_empty p.buf
      then (out.write_vectored p.inner_writer (header 0 p.seq) [] >>= λ (size, w).
          some (record p { inner_writer = w }))
      else write_chunks (chunks max_payload_len p.buf) (record p { buf = [] })

  unfoldable pub flush_all : PacketWriter → Option PacketWriter
  flush_all p = out.flush p.inner_writer >>= λ w. some (record p { inner_writer = w })
