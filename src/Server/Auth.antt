-- ===== src/Server/Auth.antt =====
-- The authentication of a client at its backend: src/proxy/src/server/auth/authenticator.rs.
pub mod Switch
use haentgl.Prelude.{ℕ, Bool, true, false, Option, none, some, List, [], ◌∷◌, ◌==◌}
use haentgl.Prelude.Words.{add_u8}
use haentgl.Extern.MysqlPackets.{ComChangeUser, ClientResponse, ResponseArguments}
use haentgl.Protocol.Constants.{un_know_plugin_name}
use haentgl.Protocol.Packet.{Packet}
use haentgl.Protocol.Basic.{HandshakeResponse}
use haentgl.Protocol.Link.{Source, Sink}
use haentgl.Server.Environment.{Environment}
use haentgl.Server.Outcome.{
  Outcome, done, stopped, panic, ◌>>=◌, written, unwrap, received, invalid_data,
}
use haentgl.Server.Commands.{Ends, send_request}

abbrev pub auth_switch_request : ℕ
auth_switch_request = 0xfe

-- `UTF8_MB4_GENERAL_CI`.
abbrev pub utf8_mb4_general_ci : ℕ
utf8_mb4_general_ci = 45

-- The backend's verdict: `Ok(())`, or an error with the backend's message.
pub data Verdict : Type 0 where
  admitted : Verdict
  denied : List ℕ → Verdict

-- `assert_eq!(AUTH_SWITCH_REQUEST, pkt[0])`.
abbrev pub assert_switch : Packet → Outcome (Unit {0})
assert_switch [] = panic
assert_switch (b ∷ bs) = elim (b == auth_switch_request) [ true ↦ done tt | false ↦ panic ]

module _ (env : Environment) where
  -- The test of the last packet's first byte against `HeaderInfo::ErrHeader`.
  abbrev pub verdict : Packet → Outcome Verdict
  verdict [] = panic
  verdict (b ∷ bs) = elim (b == 0xff) [
    | true ↦ do message ← unwrap (env.packets.refusal (b ∷ bs)); done (denied message)
    | false ↦ done admitted
  ]

  -- The arguments of the new response: the client's own, but for the version, the plugin, and
  -- the user and the maximal length that the proxy has parsed.
  abbrev pub un_know_plugin_rsp : ClientResponse → HandshakeResponse → ResponseArguments
  un_know_plugin_rsp pkt handshake = record {
    scramble_buf = some pkt.scramble_buf;
    server_version = (8, 0, 36);
    user = handshake.username;
    db_name = pkt.db_name;
    auth_plugin = some un_know_plugin_name;
    capabilities = pkt.capabilities;
    connect_attributes = pkt.connect_attributes;
    max_packet_size = handshake.max_packet_len;
  }

  abbrev pub reset_handshake_plugin : Packet → HandshakeResponse → Outcome Packet
  reset_handshake_plugin p handshake = elim (env.packets.parse_response p) [
    | none ↦ stopped invalid_data
    | some pkt ↦ done (env.packets.serialize_response (un_know_plugin_rsp pkt handshake))
  ]

-- The request of `continue_auth`.
abbrev pub new_change_user : HandshakeResponse → ComChangeUser
new_change_user handshake = record {
  user = handshake.username;
  auth_plugin_data = none;
  database = handshake.database;
  more_data = some (record {
    collation = utf8_mb4_general_ci;
    auth_plugin = some un_know_plugin_name;
    connect_attributes = none;
  });
}

module _ (env : Environment) (CK BK : Sink) (CS BS : Source) where
  -- The backend's request goes to the client, the client's answer to the backend, and the backend's
  -- verdict to the client.
  pub process_auth_switch_plugin : ℕ → Ends CK BK CS BS → Outcome (Verdict × Ends CK BK CS BS)
  process_auth_switch_plugin client_seq e = do
    ((be_seq, pkt), src) ← received (BS.next e.backend_reader)
    _ ← assert_switch pkt
    dest ← send_request env CK (add_u8 client_seq 1) pkt e.client_writer
    ((_, auth_response), src') ← received (CS.next e.client_reader)
    dest' ← send_request env BK (add_u8 be_seq 1) auth_response e.backend_writer
    ((l_seq, be_auth_pkt), src) ← received (BS.next src)
    dest ← send_request env CK l_seq be_auth_pkt dest
    v ← verdict env be_auth_pkt
    done (
      v,
      record {
        client_writer = dest;
        client_reader = src';
        backend_writer = dest';
        backend_reader = src;
      },
    )

  -- A connection that another client has used: the request to change the user goes first.
  pub continue_auth :
      ℕ → HandshakeResponse → Ends CK BK CS BS → Outcome (Verdict × Ends CK BK CS BS)
  continue_auth client_seq handshake e = do
    dest ← written (
        BK.end_packet (
          BK.write (env.packets.serialize_change_user (new_change_user handshake))
            e.backend_writer))
    dest ← written (BK.flush_all dest)
    process_auth_switch_plugin client_seq (record e { backend_writer = dest })

  -- A new connection: the backend's handshake is dropped, and the client's response goes to it.
  pub reply_handshake_response :
      ℕ → Packet → HandshakeResponse → Ends CK BK CS BS → Outcome (Verdict × Ends CK BK CS BS)
  reply_handshake_response client_seq p handshake e = do
    (_, src) ← received (BS.next e.backend_reader)
    new_packet ← reset_handshake_plugin env p handshake
    dest ← send_request env BK client_seq new_packet e.backend_writer
    process_auth_switch_plugin client_seq (record e { backend_writer = dest; backend_reader = src })
