-- ===== src/Protocol/Writers/OkPackets.antt =====
-- The OK packet that the proxy writes is the one that the proxy reads.
use haentgl.Prelude.{
  ℕ, ◌+◌, ◌*◌, ap, ◌<◌, ◌≡◌, ◌/◌, ◌%◌, Option, some, List, [], ◌∷◌, ◌++◌, length, arith,
  append_assoc, length-append,
}
use haentgl.Extern.ByteOrder.{ByteOrder}
use haentgl.Extern.Flags.{MysqlFlags}
use haentgl.Extern.Lenenc.{LenencInt}
use haentgl.Extern.Tokio.{AsyncWrite}
use haentgl.Extern.Winnow.{Winnow, ok}
use haentgl.Protocol.Basic.{OkPacket, ok_packet}
use haentgl.Protocol.Basic.RoundTrip.{read-write_lenenc_int, length-write_lenenc_int}
use haentgl.Protocol.Packet.{Packet}
use haentgl.Protocol.Writer.{PacketWriter, write}
use haentgl.Protocol.Writers.{write_ok_packet}
use haentgl.Protocol.Writers.Delivery.{Sends, end_packet-Sends}

module _ (w : Winnow) (order : ByteOrder) (out : AsyncWrite) (ints : LenencInt) where
  -- The payload of an OK packet.
  abbrev pub ok_body : ℕ → ℕ → ℕ → Packet
  ok_body rows id status =
      0x00 ∷ ((ints.write_lenenc_int rows ++ ints.write_lenenc_int id) ++ order.write_u16 status)
      ++ (0x00 ∷ 0x00 ∷ [])

  -- The packet with these numbers and no texts.
  abbrev pub ok_of : ℕ → ℕ → ℕ → OkPacket
  ok_of rows id status = record {
    header = 0;
    affected_rows = rows;
    last_insert_id = id;
    status_flags = status;
    warnings = 0;
    info = [];
    session_state_info = [];
  }

  module _ (flags : MysqlFlags) (from_utf8 : List ℕ → Option (List ℕ)) where
    ok_body-read :
        (rows id status capabilities : ℕ)
        → rows < 18446744073709551616
        → id < 18446744073709551616
        → status < 65536
        → ok_packet w flags from_utf8 (ok_body rows id status) capabilities
          ≡ ok [] (ok_of rows id status)
    unfolding ok_packet
    ok_body-read rows id status capabilities hr hi hs =
        let a = ints.write_lenenc_int rows in
        let b = ints.write_lenenc_int id in
        let same : status % 256 + 256 * (status / 256 % 256) ≡ status = omega arith in
        let tail = order.write_u16 status ++ (0 ∷ 0 ∷ []) in
        let shape : ((a ++ b) ++ order.write_u16 status) ++ (0 ∷ 0 ∷ []) ≡ a ++ (b ++ tail) =
          rw (append_assoc (a ++ b) (order.write_u16 status) (0 ∷ 0 ∷ []), append_assoc a b tail) in
        rw
          (
            shape,
            w.le_u8_ok 0 (a ++ (b ++ tail)),
            read-write_lenenc_int w ints rows (b ++ tail) hr,
            read-write_lenenc_int w ints id tail hi,
            order.write_u16_lem status hs,
            w.le_u16_ok (status % 256) (status / 256 % 256) (0 ∷ 0 ∷ []),
            w.le_u16_ok 0 0 [],
          )
          (ap (λ n. ok [] (ok_of rows id n)) same)

    -- An OK packet that is written to an empty buffer without an I/O error arrives as one packet, and
    -- `ok_packet` reads from it, under any capabilities, the numbers that were written: both counts
    -- below 2 ^ 64, a status below 2 ^ 16, no warnings and no texts.
    pub write_ok_packet-Sends :
        (p p' : PacketWriter order out) (rows id status capabilities : ℕ)
        → p.seq < 256
        → p.buf ≡ []
        → rows < 18446744073709551616
        → id < 18446744073709551616
        → status < 65536
        → write_ok_packet order out ints rows id status p ≡ some p'
        → Sends w order out p.inner_writer p' p.seq (ok_body rows id status)
          × (ok_packet w flags from_utf8 (ok_body rows id status) capabilities
              ≡ ok [] (ok_of rows id status))
    unfolding write_ok_packet write
    write_ok_packet-Sends p p' rows id status capabilities hs empty hr hi hst e =
        let a = ints.write_lenenc_int rows in
        let b = ints.write_lenenc_int id in
        let size : length (ok_body rows id status) < 30 = omega (
          arith,
          order.length-write_u16 status,
          length-write_lenenc_int ints rows hr,
          length-write_lenenc_int ints id hi,
          length-append ((a ++ b) ++ order.write_u16 status) (0 ∷ 0 ∷ []),
          length-append (a ++ b) (order.write_u16 status),
          length-append a b,
        ) in
        (
          end_packet-Sends w order out (record p { buf = ok_body rows id status }) p' hs
              (omega arith) (omega (arith, size)) (rw empty at e),
          ok_body-read rows id status capabilities hr hi hst,
        )
