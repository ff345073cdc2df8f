-- ===== src/Protocol/Writers/Delivery.antt =====
-- What is written arrives: the parser reads the packet from the bytes sent.
use haentgl.Prelude.{
  ℕ, ◌+◌, ◌/◌, ◌%◌, ◌<◌, ◌≡◌, refl, some, true, List, [], ◌∷◌, ◌++◌, length, arith, length-append,
}
use haentgl.Extern.ByteOrder.{ByteOrder}
use haentgl.Extern.Tokio.{AsyncWrite}
use haentgl.Extern.Winnow.{Winnow, ok}
use haentgl.Protocol.Errors.Codes.{ErrorKind, code, sqlstate}
use haentgl.Protocol.Packet.{Packet, packet, max_payload_len, is_err_packet, is_eof_packet}
use haentgl.Protocol.Writer.{PacketWriter, write, end_packet, chunks}
use haentgl.Protocol.Writer.Frames.{frames, end_packet_sent}
use haentgl.Protocol.Writer.RoundTrip.{packet-frames}
use haentgl.Protocol.Writers.{write_err_packet, write_eof_packet, write_query_request, five_bytes}

module _ (w : Winnow) (order : ByteOrder) (out : AsyncWrite) where
  open out use {sent}

  -- Since the stream was at `from`, bytes were sent that parse as this one packet, whatever follows
  -- them, and the buffer is empty.
  pub record Sends (from : out.Writer) (p' : PacketWriter order out) (seq : ℕ) (body : Packet)
      : Type 0 where
    pub bytes : List ℕ
    pub sent_more : sent p'.inner_writer ≡ sent from ++ bytes
    pub parses : (rest : List ℕ) → packet w (bytes ++ rest) ≡ some (ok rest (seq, body))
    pub emptied : p'.buf ≡ []

  -- A packet with a payload shorter than the largest that is ended without an I/O error arrives, with
  -- the writer's sequence number.
  pub end_packet-Sends :
      (p p' : PacketWriter order out)
      → p.seq < 256
      → 0 < length p.buf
      → length p.buf < max_payload_len
      → end_packet order out p ≡ some p'
      → Sends p.inner_writer p' p.seq p.buf
  end_packet-Sends p p' hs pos short e =
      let (more, empty) = end_packet_sent order out p p' pos e in
      let same : (p.seq + length p.buf / max_payload_len) % 256 ≡ p.seq = omega arith in
      record {
        bytes = frames p.seq (chunks max_payload_len p.buf);
        sent_more = more;
        parses = λ rest. rw (packet-frames w p.buf rest p.seq hs (omega arith), same);
        emptied = empty;
      }

  -- The payload of an error packet: the header, the number of the kind, its state and the message.
  abbrev pub err_body : ErrorKind → List ℕ → Packet
  err_body err msg =
      0xff ∷ (((order.write_u16 (code err) ++ (b'#' ∷ [])) ++ five_bytes (sqlstate err)) ++ msg)

  -- An error packet with a message of fewer than 16777206 bytes that is written to an empty buffer
  -- without an I/O error arrives as one packet of its payload, the marker, the state and the message
  -- behind the number, and is recognised as an error.
  pub write_err_packet-Sends :
      (p p' : PacketWriter order out) (err : ErrorKind) (msg : List ℕ)
      → p.seq < 256
      → p.buf ≡ []
      → length msg < 16777206
      → write_err_packet order out err msg p ≡ some p'
      → Sends p.inner_writer p' p.seq (err_body err msg) × (is_err_packet (err_body err msg) ≡ true)
  unfolding write_err_packet write is_err_packet
  write_err_packet-Sends p p' err msg hs empty short e =
      let u16 = order.write_u16 (code err) in
      let number : length u16 ≡ 2 = order.length-write_u16 (code err) in
      let size : length (err_body err msg) ≡ 9 + length msg = omega (
        arith,
        number,
        length-append ((u16 ++ (b'#' ∷ [])) ++ five_bytes (sqlstate err)) msg,
        length-append (u16 ++ (b'#' ∷ [])) (five_bytes (sqlstate err)),
        length-append u16 (b'#' ∷ []),
      ) in
      (
        end_packet-Sends (record p { buf = err_body err msg }) p' hs (omega arith)
            (omega (arith, size)) (rw empty at e),
        refl,
      )

  abbrev pub eof_body : ℕ → Packet
  eof_body status = 0xfe ∷ 0x00 ∷ 0x00 ∷ order.write_u16 status

  -- An end-of-file packet that is written to an empty buffer without an I/O error arrives as one
  -- packet of five bytes, which is recognised as the end of a result set's rows.
  pub write_eof_packet-Sends :
      (p p' : PacketWriter order out) (status : ℕ)
      → p.seq < 256
      → p.buf ≡ []
      → write_eof_packet order out status p ≡ some p'
      → Sends p.inner_writer p' p.seq (eof_body status) × (is_eof_packet (eof_body status) ≡ true)
  unfolding write_eof_packet write is_eof_packet
  write_eof_packet-Sends p p' status hs empty e =
      let number : length (order.write_u16 status) ≡ 2 = order.length-write_u16 status in
      (
        end_packet-Sends (record p { buf = eof_body status }) p' hs (omega arith)
            (omega (arith, number)) (rw empty at e),
        rw number,
      )

  -- A query text of fewer than 16777214 bytes that is written to an empty buffer without an I/O error
  -- arrives as one packet: the code of the command and the text.
  pub write_query_request-Sends :
      (p p' : PacketWriter order out) (text : List ℕ)
      → p.seq < 256
      → p.buf ≡ []
      → length text < 16777214
      → write_query_request order out text p ≡ some p'
      → Sends p.inner_writer p' p.seq (3 ∷ text)
  unfolding write_query_request write
  write_query_request-Sends p p' text hs empty short e =
      end_packet-Sends (record p { buf = 3 ∷ text }) p' hs (omega arith) (omega arith)
        (rw empty at e)
