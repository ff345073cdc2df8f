-- ===== src/Server/Commands/Session/Requests.antt =====
-- The requests that go to the backend: src/proxy/src/server/forwarder/mod.rs and writers.rs.
use haentgl.Prelude.{ℕ, ◌<◌, ◌≡◌, ◌∙◌, [], ◌∷◌, ◌++◌, length, arith}
use haentgl.Protocol.Packet.{Packet}
use haentgl.Protocol.Constants.{CommandCode, reset_connection, com_code}
use haentgl.Protocol.Basic.{HandshakeResponse}
use haentgl.Protocol.Link.{Sink, wire}
use haentgl.Server.Environment.{Environment}
use haentgl.Server.Outcome.{done}
use haentgl.Server.Forwarder.Relay.Steps.{Steady, put_packet-sends}
use haentgl.Server.Commands.{
  conn_id, request_kind, same_request, send_request, write_to_backend, write_reset_connection,
}
use haentgl.Server.Commands.Session.{}

-- The body of the request that resets the connection.
abbrev pub reset_body : Environment → Packet
reset_body env = 0x1f ∷ env.order.write_u32 conn_id

pub write_to_backend_same :
    (env : Environment) (K : Sink) (seq : ℕ) (c : CommandCode) (handshake : HandshakeResponse)
    (p : Packet) (d : K.Writer)
    → request_kind c ≡ same_request
    → write_to_backend env K seq c handshake p d ≡ send_request env K seq p d
unfolding write_to_backend
write_to_backend_same env K seq c handshake p d h = rw (write_to_backend, h)

module _ (K : Sink) (steady : Steady K) where
  -- `write_all`, `end_packet` and `flush` of one request.
  pub send_request-sends :
      (env : Environment) (d : K.Writer) (seq : ℕ) (p : Packet)
      → 0 < length p
      → K.buf d ≡ []
      → (d' : K.Writer) × (send_request env K seq p d ≡ done d')
        × (K.sent d' ≡ K.sent d ++ wire (seq, p))
        × (K.buf d' ≡ [])
  send_request-sends env d seq p pos empty =
      let (d1, put, sent1, buf1) = put_packet-sends K steady d seq p pos empty in
      let (d2, flushed) = steady.flushes d1 in
      let (same, kept) = K.flush_all_view d1 d2 flushed in
      (d2, rw (put, flushed), same ∙ sent1, kept ∙ buf1)

  pub write_reset_connection-sends :
      (env : Environment) (d : K.Writer)
      → K.buf d ≡ []
      → (d' : K.Writer) × (write_reset_connection env K d ≡ done d')
        × (K.sent d' ≡ K.sent d ++ wire (K.seq d, reset_body env))
        × (K.buf d' ≡ [])
  unfolding write_reset_connection com_code
  write_reset_connection-sends env d empty =
      let code = com_code reset_connection ∷ [] in
      let d1 = K.write code d in
      let d2 = K.write (env.order.write_u32 conn_id) d1 in
      let (seq1, buf1, sent1) = K.write_view code d in
      let (seq2, buf2, sent2) = K.write_view (env.order.write_u32 conn_id) d1 in
      let (d3, ended) = steady.ends d2 in
      let body : K.buf d2 ≡ reset_body env = rw (buf2, buf1, empty) in
      let (more, idle) = K.end_packet_view d2 d3 (rw body (omega arith)) ended in
      let (d4, flushed) = steady.flushes d3 in
      let (same, kept) = K.flush_all_view d3 d4 flushed in
      (d4, rw (ended, flushed), same ∙ rw (more, sent2, sent1, seq2, seq1, body), kept ∙ idle)
