-- ===== src/Protocol/Writers.antt =====
-- The packets that the proxy writes itself: src/proxy/src/protocol/mysql/packet/writers.rs.
pub mod Delivery
pub mod OkPackets
mod Tests
use haentgl.Prelude.{ℕ, ◌%◌, Option, List, [], ◌∷◌, ◌++◌}
use haentgl.Extern.ByteOrder.{ByteOrder}
use haentgl.Extern.Lenenc.{LenencInt}
use haentgl.Extern.Tokio.{AsyncWrite}
use haentgl.Protocol.Errors.Codes.{ErrorKind, code, sqlstate, FiveBytes}
use haentgl.Protocol.Writer.{PacketWriter, write, end_packet}

-- The bytes of an array of five.
abbrev pub five_bytes : FiveBytes → List ℕ
five_bytes (a, b, c, d, e) = a ∷ b ∷ c ∷ d ∷ e ∷ []

module _ (order : ByteOrder) (out : AsyncWrite) where
  pub write_err_packet :
      ErrorKind → List ℕ → PacketWriter order out → Option (PacketWriter order out)
  write_err_packet err msg p =
      let p1 = write order out (0xff ∷ []) p in
      let p2 = write order out (order.write_u16 (code err)) p1 in
      let p3 = write order out (b'#' ∷ []) p2 in
      let p4 = write order out (five_bytes (sqlstate err)) p3 in
      end_packet order out (write order out msg p4)

  pub write_eof_packet : ℕ → PacketWriter order out → Option (PacketWriter order out)
  write_eof_packet status p =
      let p1 = write order out (0xfe ∷ 0x00 ∷ 0x00 ∷ []) p in
      end_packet order out (write order out (order.write_u16 status) p1)

  -- `CommandCode::ComQuery` is 3.
  pub write_query_request : List ℕ → PacketWriter order out → Option (PacketWriter order out)
  write_query_request data_ p =
      end_packet order out (write order out data_ (write order out (3 ∷ []) p))

  -- The numbers are written in the protocol's length-encoded form.
  pub write_ok_packet :
      LenencInt → ℕ → ℕ → ℕ → PacketWriter order out → Option (PacketWriter order out)
  write_ok_packet ints rows last_insert_id status p =
      let p1 = write order out (0x00 ∷ []) p in
      let p2 = write order out (ints.write_lenenc_int rows) p1 in
      let p3 = write order out (ints.write_lenenc_int last_insert_id) p2 in
      let p4 = write order out (order.write_u16 status) p3 in
      end_packet order out (write order out (0x00 ∷ 0x00 ∷ []) p4)
