-- ===== src/Server/Commands/Session/Serve.antt =====
-- The loop `on_com` on a session: src/proxy/src/server/haentgl_server.rs.
use haentgl.Prelude.{ℕ, ◌≡◌, List, [], ◌++◌}
use haentgl.Protocol.Packet.{Packet}
use haentgl.Protocol.Constants.{CommandCode}
use haentgl.Protocol.Basic.{HandshakeResponse}
use haentgl.Protocol.Link.{Numbered, Source, Sink, wire, wires}
use haentgl.Server.Environment.{Environment}
use haentgl.Server.Outcome.{Outcome, done}
use haentgl.Server.Forwarder.Relay.Steps.{Steady}
use haentgl.Server.Commands.{Ends}
use haentgl.Server.Commands.Session.{Session}
use haentgl.Server.Commands.Session.Requests.{reset_body}

module _ (env : Environment) (CK BK : Sink) (CS BS : Source) (ck : Steady CK) (bk : Steady BK) where
  module _ (handshake : HandshakeResponse) where
    -- One command that is passed on: it is sent to the backend, and the answer to the client.
    record Exchanged (o : Outcome (CommandCode × Ends CK BK CS BS)) (e : Ends CK BK CS BS)
        (c : CommandCode) (p : Numbered) (ps cs rest : List Numbered) : Type 0 where
      pub after : Ends CK BK CS BS
      pub result : o ≡ done (c, after)
      pub to_client_sent : CK.sent after.client_writer ≡ CK.sent e.client_writer ++ wires ps
      pub to_backend_sent : BK.sent after.backend_writer ≡ BK.sent e.backend_writer ++ wire p
      pub client_idle : CK.buf after.client_writer ≡ []
      pub backend_idle : BK.buf after.backend_writer ≡ []
      pub client_ahead : CS.Ahead after.client_reader cs
      pub backend_ahead : BS.Ahead after.backend_reader rest

    -- The session has ended: the client was sent the answers and nothing else, the backend the
    -- commands and the request that resets the connection, and both readers stand behind the session.
    pub record Proxied (o : Outcome (Ends CK BK CS BS)) (e : Ends CK BK CS BS)
        (cs answers crest rest : List Numbered) : Type 0 where
      pub after : Ends CK BK CS BS
      pub reset_seq : ℕ
      pub result : o ≡ done after
      pub to_client_sent : CK.sent after.client_writer ≡ CK.sent e.client_writer ++ wires answers
      pub to_backend_sent :
          BK.sent after.backend_writer
          ≡ BK.sent e.backend_writer ++ (wires cs ++ wire (reset_seq, reset_body env))
      pub client_idle : CK.buf after.client_writer ≡ []
      pub backend_idle : BK.buf after.backend_writer ≡ []
      pub client_ahead : CS.Ahead after.client_reader crest
      pub backend_ahead : BS.Ahead after.backend_reader rest
