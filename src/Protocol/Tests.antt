-- ===== src/Protocol/Tests.antt =====
-- Packets written, parsed and read on concrete inputs.
use haentgl.Prelude.{
  ℕ, zero, suc, length, ◌≤◌, ◌≡◌, refl, some, List, [], ◌∷◌, ◌++◌, arith, take, drop, min,
}
use haentgl.Extern.Winnow.{ok, err, backtrack}
use haentgl.Extern.Winnow.Slices.{slices}
use haentgl.Extern.ByteOrder.{little_endian}
use haentgl.Extern.Tokio.Streams.{slow_writer, slow_reader}
use haentgl.Protocol.Packet.{max_payload_len, packet}
use haentgl.Protocol.Packet.Prefix.{packet-append}
use haentgl.Protocol.Packet.Kinds.{kinds, at_most_one_kind}
use haentgl.Protocol.Writer.{
  PacketWriter, end_packet, chunks, chunk_list, write_chunk, write_chunks, header, increase_seq,
}
use haentgl.Protocol.Writer.Frames.{frames, end_packet_sent}
use haentgl.Protocol.Writer.RoundTrip.{packet-frames, packet-frames_full}
use haentgl.Protocol.Reader.{PacketReader, next_async}
use haentgl.Protocol.Reader.Total.{Ends, next_async_total}
use haentgl.Protocol.Reader.Stream.{Reliable, next_async-Delivers, Delivers}

-- COM_PING and COM_QUIT.
abbrev ping : List ℕ
ping = 0x0e ∷ []

abbrev ping_frame : List ℕ
ping_frame = 1 ∷ 0 ∷ 0 ∷ 0 ∷ 0x0e ∷ []

packet-frames_example :
    packet slices (frames 0 (chunks max_payload_len ping) ++ (9 ∷ []))
    ≡ some (ok (9 ∷ []) (0, ping))
packet-frames_example = packet-frames slices ping (9 ∷ []) 0 (omega arith) (omega arith)

-- The same on the bytes of the frame.
packet-ping : (rest : List ℕ) → packet slices (ping_frame ++ rest) ≡ some (ok rest (0, ping))
unfolding frames
packet-ping rest =
    let e : frames 0 (chunks max_payload_len ping) ++ rest ≡ ping_frame ++ rest =
      unfold chunk_list in refl in
    rw (← e) (packet-frames slices ping rest 0 (omega arith) (omega arith))

-- A payload of this many zeros.
zeros : ℕ → List ℕ
zeros zero = []
zeros (suc n) = 0 ∷ zeros n

length-zeros : (n : ℕ) → length (zeros n) ≡ n
unfolding zeros
length-zeros zero = refl
length-zeros (suc n) = omega (arith, length-zeros n)

-- One full frame.
packet-frames_full_example :
    packet slices (frames 0 (chunks max_payload_len (zeros 16777215))) ≡ some (err backtrack)
packet-frames_full_example =
    packet-frames_full slices (zeros 16777215) 0 (omega (arith, length-zeros 16777215))
      (omega (arith, length-zeros 16777215))

packet-append_example :
    packet slices (ping_frame ++ (1 ∷ 2 ∷ [])) ≡ some (ok ([] ++ (1 ∷ 2 ∷ [])) (0, ping))
packet-append_example = packet-append slices ping_frame (1 ∷ 2 ∷ []) [] 0 ping (packet-ping [])

abbrev ping_writer : PacketWriter little_endian (slow_writer 2)
ping_writer = record { buf = ping; seq = 0; inner_writer = [] }

abbrev ping_written : PacketWriter little_endian (slow_writer 2)
ping_written = record { buf = []; seq = 1; inner_writer = ping_frame }

ping_ends : end_packet little_endian (slow_writer 2) ping_writer ≡ some ping_written
unfolding end_packet write_chunks write_chunk header increase_seq chunk_list
ping_ends = refl

end_packet_sent_example :
    (ping_written.inner_writer ≡ [] ++ frames 0 (chunks max_payload_len ping))
    × (ping_written.buf ≡ [])
end_packet_sent_example =
    end_packet_sent little_endian (slow_writer 2) ping_writer ping_written (omega arith) ping_ends

-- Two packets that arrive byte by byte.
abbrev two_pings : PacketReader slices (slow_reader 0)
two_pings = record { bytes = []; start = 0; remaining = 0; r = ping_frame ++ ping_frame }

byte_by_byte : Reliable slices (slow_reader 0)
byte_by_byte = λ r room. (take (min room 1) r, drop (min room 1) r, refl)

next_async-Delivers_example :
    Delivers slices
      (slow_reader 0)
      (next_async slices (slow_reader 0) 11 two_pings)
      0
      ping
      ping_frame
next_async-Delivers_example =
    next_async-Delivers slices (slow_reader 0) 11 two_pings 0 ping ping_frame byte_by_byte
      (omega arith) (omega arith) (packet-ping ping_frame)

at_most_one_kind_example : kinds (0xfe ∷ 0 ∷ 0 ∷ 2 ∷ 0 ∷ []) ≤ 1
at_most_one_kind_example = at_most_one_kind (0xfe ∷ 0 ∷ 0 ∷ 2 ∷ 0 ∷ [])

next_async_total_example :
    Ends slices (slow_reader 0) (next_async slices (slow_reader 0) 11 two_pings)
next_async_total_example = next_async_total slices (slow_reader 0) 11 two_pings (omega arith)
