-- ===== src/Protocol/Writer/Frames.antt =====
-- What `end_packet` hands to the stream, whatever the stream's short writes.
use haentgl.Prelude.{
  ℕ, zero, suc, ◌+◌, ◌<◌, ◌≤◌, ◌≡◌, ap, ◌∙◌, some, Option-cases, List, [], ◌∷◌, ◌++◌, length, take,
  drop, arith, ◌==◌, Bool-cases, inl, inr, All, append_assoc, append-nil, take_all,
  take-append-drop, length-take,
}
use haentgl.Prelude.Words.{add_u8, le_bytes_3}
use haentgl.Extern.ByteOrder.{ByteOrder}
use haentgl.Extern.Tokio.{AsyncWrite}
use haentgl.Protocol.Packet.{max_payload_len, packet_header_len}
use haentgl.Protocol.Writer.{
  PacketWriter, chunk_list, chunks, header, write_chunk, write_chunks, end_packet,
}

-- The protocol's frame: three bytes of length, the sequence number, the payload.
abbrev pub frame : ℕ → List ℕ → List ℕ
frame seq chunk = le_bytes_3 (length chunk) ++ (seq ∷ chunk)

-- One frame after another, the sequence number counting up and wrapping.
unfoldable pub frames : ℕ → List (List ℕ) → List ℕ
frames seq [] = []
frames seq (chunk ∷ rest) = frame seq chunk ++ frames (add_u8 seq 1) rest

abbrev pub IsChunk : List ℕ → Type 0
IsChunk c = length c ≤ max_payload_len

pub chunk_list-IsChunk : (fuel : ℕ) (xs : List ℕ) → All IsChunk (chunk_list fuel max_payload_len xs)
unfolding chunk_list
chunk_list-IsChunk zero xs = tt
chunk_list-IsChunk (suc fuel) [] = tt
chunk_list-IsChunk (suc fuel) (x ∷ xs) = (
  omega (arith, length-take max_payload_len (x ∷ xs)),
  chunk_list-IsChunk fuel (drop max_payload_len (x ∷ xs)),
)

module _ (order : ByteOrder) (out : AsyncWrite) where
  open out use {sent}

  header_lem :
      (seq : ℕ) (chunk : List ℕ)
      → IsChunk chunk
      → header order out (length chunk) seq ++ chunk ≡ frame seq chunk
  unfolding header
  header_lem seq chunk h = rw (order.write_u24_lem (length chunk) (omega arith))

  -- The vectored call, alone or with the rest written after it, sends both slices.
  sent_whole :
      (a b : List ℕ) (w w1 : out.Writer) (n : ℕ)
      → out.write_vectored w a b ≡ some (n, w1)
      → n ≡ length (a ++ b)
      → sent w1 ≡ sent w ++ (a ++ b)
  sent_whole a b w w1 n e h =
      out.write_vectored_sent w a b n w1 e ∙ rw (take_all n (a ++ b) (omega arith))

  sent_parts :
      (a b : List ℕ) (w w1 w2 : out.Writer) (n : ℕ)
      → out.write_vectored w a b ≡ some (n, w1)
      → out.write_all w1 (drop n (a ++ b)) ≡ some w2
      → sent w2 ≡ sent w ++ (a ++ b)
  sent_parts a b w w1 w2 n e e2 = rw (
    out.write_all_sent w1 (drop n (a ++ b)) w2 e2,
    out.write_vectored_sent w a b n w1 e,
    append_assoc (sent w) (take n (a ++ b)) (drop n (a ++ b)),
    take-append-drop n (a ++ b),
  )

  -- A chunk arrives whole, also after a short write of the vectored call.
  write_chunk_lem :
      (chunk : List ℕ) (p p' : PacketWriter order out)
      → IsChunk chunk
      → write_chunk order out chunk p ≡ some p'
      → (sent p'.inner_writer ≡ sent p.inner_writer ++ frame p.seq chunk)
        × (p'.buf ≡ p.buf)
        × (p'.seq ≡ add_u8 p.seq 1)
  unfolding write_chunk
  write_chunk_lem chunk p p' h e =
      let head = header order out (length chunk) p.seq in
      let total : length (head ++ chunk) ≡ packet_header_len + length chunk =
        ap length (header_lem p.seq chunk h) ∙ omega arith in
      rw (← header_lem p.seq chunk h)
        (elim (Option-cases (out.write_vectored p.inner_writer head chunk)) [
          | inl fail ↦ cc (rw fail at e)
          | inr ((written, w), e1) ↦
              elim (Bool-cases (written == packet_header_len + length chunk)) [
                | inl all ↦ ground (arith, sent_whole head chunk p.inner_writer w written e1)
                | inr part ↦ elim (Option-cases (out.write_all w (drop written (head ++ chunk)))) [
                  | inl fail ↦ ground arith
                  | inr (w2, e2) ↦
                      ground (arith, sent_parts head chunk p.inner_writer w w2 written e1 e2)
                ]
              ]
        ])

  write_chunks_lem :
      (cs : List (List ℕ)) (p p' : PacketWriter order out)
      → All IsChunk cs
      → write_chunks order out cs p ≡ some p'
      → (sent p'.inner_writer ≡ sent p.inner_writer ++ frames p.seq cs) × (p'.buf ≡ p.buf)
  unfolding write_chunks frames
  write_chunks_lem [] p p' h e = ground (arith, append-nil (sent p.inner_writer))
  write_chunks_lem (c ∷ cs) p p' h e = elim (Option-cases (write_chunk order out c p)) [
    | inl fail ↦ cc (rw fail at e)
    | inr (p1, e1) ↦
        let (s, b, q) = write_chunk_lem c p p1 h.0 e1 in
        let (s', b') = write_chunks_lem cs p1 p' h.1 (rw e1 at e) in
        (s' ∙ rw (s, q, append_assoc (sent p.inner_writer) (frame p.seq c) _), b' ∙ b)
  ]

  -- A buffer that is not empty and that `end_packet` ends without an I/O error is on the stream as the
  -- frames of its chunks, in order and from the writer's sequence number on, and the buffer is empty.
  pub end_packet_sent :
      (p p' : PacketWriter order out)
      → 0 < length p.buf
      → end_packet order out p ≡ some p'
      → (sent p'.inner_writer ≡ sent p.inner_writer ++ frames p.seq (chunks max_payload_len p.buf))
        × (p'.buf ≡ [])
  unfolding end_packet
  end_packet_sent p p' h e =
      write_chunks_lem (chunks max_payload_len p.buf) (record p { buf = [] }) p'
        (chunk_list-IsChunk (length p.buf) p.buf) (ground arith)
