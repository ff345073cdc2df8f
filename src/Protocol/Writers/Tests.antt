-- ===== src/Protocol/Writers/Tests.antt =====
-- Written packets on concrete inputs: the stream takes three bytes of a vectored write.
use haentgl.Prelude.{ℕ, ◌≡◌, refl, true, some, List, [], ◌∷◌, ◌++◌, arith}
use haentgl.Extern.ByteOrder.{little_endian}
use haentgl.Extern.Lenenc.{lenenc}
use haentgl.Extern.Flags.Bits.{flag_bits}
use haentgl.Extern.Winnow.{ok}
use haentgl.Protocol.Basic.{ok_packet, read_length_encoded_number}
use haentgl.Protocol.Basic.RoundTrip.{read-write_lenenc_int}
use haentgl.Protocol.Writers.OkPackets.{ok_body, ok_of, write_ok_packet-Sends}
use haentgl.Extern.Tokio.Streams.{slow_writer}
use haentgl.Extern.Winnow.Slices.{slices}
use haentgl.Protocol.Errors.Codes.{er_access_denied_error, code, sqlstate}
use haentgl.Protocol.Packet.{is_err_packet, is_eof_packet}
use haentgl.Protocol.Writer.{
  PacketWriter, write, end_packet, write_chunks, write_chunk, header, increase_seq, chunk_list,
}
use haentgl.Protocol.Writers.{
  write_err_packet, write_eof_packet, write_query_request, write_ok_packet,
}
use haentgl.Protocol.Writers.Delivery.{
  Sends, err_body, eof_body, write_err_packet-Sends, write_eof_packet-Sends,
  write_query_request-Sends,
}

abbrev PingWriter : Type 0
PingWriter = PacketWriter little_endian (slow_writer 3)

abbrev idle : PingWriter
idle = record { buf = []; seq = 1; inner_writer = [] }

abbrev after_frame : List ℕ → PingWriter
after_frame bytes = record { buf = []; seq = 2; inner_writer = bytes }

abbrev denied : List ℕ
denied = 11 ∷ 0 ∷ 0 ∷ 1 ∷ 0xff ∷ 0x15 ∷ 4 ∷ 35 ∷ 50 ∷ 56 ∷ 48 ∷ 48 ∷ 48 ∷ b'n' ∷ b'o' ∷ []

denied_written :
    write_err_packet little_endian (slow_writer 3) er_access_denied_error (b'n' ∷ b'o' ∷ []) idle
    ≡ some (after_frame denied)
unfolding write_err_packet write end_packet write_chunks write_chunk header increase_seq chunk_list
    code sqlstate
denied_written = refl

write_err_packet-Sends_example :
    Sends slices little_endian
      (slow_writer 3)
      []
      (after_frame denied)
      1
      (err_body slices little_endian (slow_writer 3) er_access_denied_error (b'n' ∷ b'o' ∷ []))
    × (is_err_packet
          (err_body slices little_endian (slow_writer 3) er_access_denied_error (b'n' ∷ b'o' ∷ []))
        ≡ true)
write_err_packet-Sends_example =
    write_err_packet-Sends slices little_endian (slow_writer 3) idle (after_frame denied)
      er_access_denied_error (b'n' ∷ b'o' ∷ []) (omega arith) refl (omega arith) denied_written

abbrev eof : List ℕ
eof = 5 ∷ 0 ∷ 0 ∷ 1 ∷ 0xfe ∷ 0 ∷ 0 ∷ 2 ∷ 0 ∷ []

eof_written : write_eof_packet little_endian (slow_writer 3) 2 idle ≡ some (after_frame eof)
unfolding write_eof_packet write end_packet write_chunks write_chunk header increase_seq chunk_list
eof_written = refl

write_eof_packet-Sends_example :
    Sends slices little_endian
      (slow_writer 3)
      []
      (after_frame eof)
      1
      (eof_body slices little_endian (slow_writer 3) 2)
    × (is_eof_packet (eof_body slices little_endian (slow_writer 3) 2) ≡ true)
write_eof_packet-Sends_example =
    write_eof_packet-Sends slices little_endian (slow_writer 3) idle (after_frame eof) 2
      (omega arith) refl eof_written

abbrev query : List ℕ
query = 3 ∷ 0 ∷ 0 ∷ 1 ∷ 3 ∷ b'u' ∷ b's' ∷ []

query_written :
    write_query_request little_endian (slow_writer 3) (b'u' ∷ b's' ∷ []) idle
    ≡ some (after_frame query)
unfolding write_query_request write end_packet write_chunks write_chunk header increase_seq
    chunk_list
query_written = refl

write_query_request-Sends_example :
    Sends slices little_endian (slow_writer 3) [] (after_frame query) 1 (3 ∷ b'u' ∷ b's' ∷ [])
write_query_request-Sends_example =
    write_query_request-Sends slices little_endian (slow_writer 3) idle (after_frame query)
      (b'u' ∷ b's' ∷ []) (omega arith) refl (omega arith) query_written

-- 300 rows, in three bytes, and the identifier 7.
abbrev ok_frame : List ℕ
ok_frame = 9 ∷ 0 ∷ 0 ∷ 1 ∷ 0 ∷ 0xfc ∷ 44 ∷ 1 ∷ 7 ∷ 2 ∷ 0 ∷ 0 ∷ 0 ∷ []

ok_written :
    write_ok_packet little_endian (slow_writer 3) lenenc 300 7 2 idle ≡ some (after_frame ok_frame)
unfolding write_ok_packet write end_packet write_chunks write_chunk header increase_seq chunk_list
ok_written = refl

write_ok_packet-Sends_example :
    Sends slices little_endian
      (slow_writer 3)
      []
      (after_frame ok_frame)
      1
      (ok_body slices little_endian (slow_writer 3) lenenc 300 7 2)
    × (ok_packet slices flag_bits
          (λ s. some s)
          (ok_body slices little_endian (slow_writer 3) lenenc 300 7 2)
          0
        ≡ ok [] (ok_of slices little_endian (slow_writer 3) lenenc 300 7 2))
write_ok_packet-Sends_example =
    write_ok_packet-Sends slices little_endian (slow_writer 3) lenenc flag_bits (λ s. some s) idle
      (after_frame ok_frame) 300 7 2 0 (omega arith) refl (omega arith) (omega arith) (omega arith)
      ok_written

read-write_lenenc_int_example :
    read_length_encoded_number slices (lenenc.write_lenenc_int 70000 ++ (9 ∷ []))
    ≡ ok (9 ∷ []) 70000
read-write_lenenc_int_example = read-write_lenenc_int slices lenenc 70000 (9 ∷ []) (omega arith)
