-- ===== src/Server/Auth/Switch.antt =====
-- The authentication between a backend, the proxy and a client that answer each other.
use haentgl.Prelude.{
  ℕ, ◌<◌, ◌≡◌, ◌≢◌, refl, ◌∙◌, none, some, List, [], ◌∷◌, ◌++◌, length, arith, append_assoc,
  append-nil,
}
use haentgl.Prelude.Words.{add_u8}
use haentgl.Prelude.Text.{codes}
use haentgl.Extern.MysqlPackets.{ClientResponse, ResponseArguments}
use haentgl.Protocol.Packet.{Packet}
use haentgl.Protocol.Basic.{HandshakeResponse}
use haentgl.Protocol.Link.{Numbered, Source, Sink, wire, wires}
use haentgl.Server.Environment.{Environment}
use haentgl.Server.Outcome.{Outcome, done}
use haentgl.Server.Forwarder.Relay.Steps.{Steady}
use haentgl.Server.Commands.{Ends}
use haentgl.Server.Commands.Session.Requests.{send_request-sends}
use haentgl.Server.Auth.{
  Verdict, admitted, denied, verdict, new_change_user, process_auth_switch_plugin, continue_auth,
}

-- What the backend and the client say after the backend has asked for another plugin.
pub record Dialogue : Type 0 where
  pub be_seq : ℕ
  pub switch : List ℕ
  pub client_seq : ℕ
  pub answer : Packet
  pub last_seq : ℕ
  pub last : Packet
  pub answers : 0 < length answer

abbrev pub from_backend : Dialogue → List Numbered
from_backend t = (t.be_seq, 0xfe ∷ t.switch) ∷ (t.last_seq, t.last) ∷ []

-- The response that goes to the backend instead of the client's: its fields, but for the user and the
-- maximal length that the proxy has parsed, the version, and a plugin that no backend knows.
abbrev pub response_of : ClientResponse → HandshakeResponse → ResponseArguments
response_of pkt handshake = record {
  scramble_buf = some pkt.scramble_buf;
  server_version = (8, 0, 36);
  user = handshake.username;
  db_name = pkt.db_name;
  auth_plugin = some (codes "auth_unknown_plugin");
  capabilities = pkt.capabilities;
  connect_attributes = pkt.connect_attributes;
  max_packet_size = handshake.max_packet_len;
}

-- The last packet of a backend admits the client, unless it is an error packet, which carries the
-- message of the refusal.
pub data Says (env : Environment) : Packet → Verdict → Type 0 where
  admits : {b : ℕ} {bs : List ℕ} → b ≢ 0xff → Says env (b ∷ bs) admitted
  denies :
      {bs message : List ℕ}
      → env.packets.refusal (0xff ∷ bs) ≡ some message
      → Says env (0xff ∷ bs) (denied message)

Says-verdict :
    (env : Environment) {p : Packet} {v : Verdict} → Says env p v → verdict env p ≡ done v
Says-verdict env (admits ne) = ground arith
Says-verdict env (denies e) = rw e

Says-length : (env : Environment) {p : Packet} {v : Verdict} → Says env p v → 0 < length p
Says-length env (admits ne) = omega arith
Says-length env (denies e) = omega arith

-- The request that changes the user on a connection that was used before: without authentication
-- data, in utf8mb4_general_ci, and with a plugin that no backend knows.
abbrev pub change_user_of : Environment → HandshakeResponse → Packet
change_user_of env handshake = env.packets.serialize_change_user (record {
  user = handshake.username;
  auth_plugin_data = none;
  database = handshake.database;
  more_data = some (record {
    collation = 45;
    auth_plugin = some (codes "auth_unknown_plugin");
    connect_attributes = none;
  });
})

module _ (env : Environment) (CK BK : Sink) (CS BS : Source) (ck : Steady CK) (bk : Steady BK) where
  -- The client was sent the backend's request and verdict, and the backend the client's answer.
  pub record Authenticated (o : Outcome (Verdict × Ends CK BK CS BS)) (e : Ends CK BK CS BS)
      (seq : ℕ) (v : Verdict) (t : Dialogue) (to_backend : List ℕ) (crest rest : List Numbered)
      : Type 0 where
    pub after : Ends CK BK CS BS
    pub result : o ≡ done (v, after)
    pub to_client_sent :
        CK.sent after.client_writer
        ≡ CK.sent e.client_writer
          ++ wires ((add_u8 seq 1, 0xfe ∷ t.switch) ∷ (t.last_seq, t.last) ∷ [])
    pub to_backend_sent :
        BK.sent after.backend_writer
        ≡ BK.sent e.backend_writer ++ (to_backend ++ wire (add_u8 t.be_seq 1, t.answer))
    pub client_idle : CK.buf after.client_writer ≡ []
    pub backend_idle : BK.buf after.backend_writer ≡ []
    pub client_ahead : CS.Ahead after.client_reader crest
    pub backend_ahead : BS.Ahead after.backend_reader rest

  process_auth_switch_plugin-switches :
      (seq : ℕ) (e : Ends CK BK CS BS) (v : Verdict) (t : Dialogue) (crest rest : List Numbered)
      → Says env t.last v
      → CK.buf e.client_writer ≡ []
      → BK.buf e.backend_writer ≡ []
      → CS.Ahead e.client_reader ((t.client_seq, t.answer) ∷ crest)
      → BS.Ahead e.backend_reader (from_backend t ++ rest)
      → Authenticated (process_auth_switch_plugin env CK BK CS BS seq e) e seq v t [] crest rest
  unfolding process_auth_switch_plugin
  process_auth_switch_plugin-switches seq e v t crest rest says ci bi ca ba =
      let pkt = 0xfe ∷ t.switch in
      let (r1, read1, ba1) =
        BS.next-Ahead e.backend_reader t.be_seq pkt ((t.last_seq, t.last) ∷ rest) ba in
      let (w1, sent1, more1, idle1) =
        send_request-sends CK ck env e.client_writer (add_u8 seq 1) pkt (omega arith) ci in
      let (c1, read2, ca1) = CS.next-Ahead e.client_reader t.client_seq t.answer crest ca in
      let (b1, sent2, more2, idle2) =
        send_request-sends BK bk env e.backend_writer (add_u8 t.be_seq 1) t.answer t.answers bi in
      let (r2, read3, ba2) = BS.next-Ahead r1 t.last_seq t.last rest ba1 in
      let (w2, sent3, more3, idle3) =
        send_request-sends CK ck env w1 t.last_seq t.last (Says-length env says) idle1 in
      record {
        after = record {
          client_writer = w2;
          client_reader = c1;
          backend_writer = b1;
          backend_reader = r2;
        };
        result = rw (read1, sent1, read2, sent2, read3, sent3, Says-verdict env says);
        to_client_sent = rw (
          more3,
          more1,
          append-nil (wire (t.last_seq, t.last)),
          append_assoc (CK.sent e.client_writer) (wire (add_u8 seq 1, pkt))
              (wire (t.last_seq, t.last)),
        );
        to_backend_sent = more2;
        client_idle = idle3;
        backend_idle = idle2;
        client_ahead = ca1;
        backend_ahead = ba2;
      }

  -- The same after more was sent to the backend.
  Authenticated-after :
      (o o' : Outcome (Verdict × Ends CK BK CS BS)) (e e1 : Ends CK BK CS BS) (seq : ℕ)
      (v : Verdict) (t : Dialogue) (sent : List ℕ) (crest rest : List Numbered)
      → o' ≡ o
      → CK.sent e1.client_writer ≡ CK.sent e.client_writer
      → BK.sent e1.backend_writer ≡ BK.sent e.backend_writer ++ sent
      → Authenticated o e1 seq v t [] crest rest
      → Authenticated o' e seq v t sent crest rest
  Authenticated-after o o' e e1 seq v t sent crest rest same client backend a = record {
    after = a.after;
    result = same ∙ a.result;
    to_client_sent = a.to_client_sent ∙ rw client;
    to_backend_sent =
        a.to_backend_sent
        ∙ rw (
          backend,
          append_assoc (BK.sent e.backend_writer) sent (wire (add_u8 t.be_seq 1, t.answer)),
        );
    client_idle = a.client_idle;
    backend_idle = a.backend_idle;
    client_ahead = a.client_ahead;
    backend_ahead = a.backend_ahead;
  }

  -- If the backend answers the change of user with a switch request, the client answers that one,
  -- and no write fails, then `continue_auth` ends with the backend's verdict; the client was sent
  -- the request and the verdict, the backend the change of user and the client's answer.
  pub continue_auth-switches :
      (seq : ℕ) (handshake : HandshakeResponse) (e : Ends CK BK CS BS) (v : Verdict) (t : Dialogue)
      (crest rest : List Numbered)
      → Says env t.last v
      → CK.buf e.client_writer ≡ []
      → BK.buf e.backend_writer ≡ []
      → CS.Ahead e.client_reader ((t.client_seq, t.answer) ∷ crest)
      → BS.Ahead e.backend_reader (from_backend t ++ rest)
      → Authenticated
          (continue_auth env CK BK CS BS seq handshake e)
          e
          seq
          v
          t
          (wire (BK.seq e.backend_writer, change_user_of env handshake))
          crest
          rest
  unfolding continue_auth
  continue_auth-switches seq handshake e v t crest rest says ci bi ca ba =
      let p = change_user_of env handshake in
      let w = BK.write p e.backend_writer in
      let (seq1, buf1, sent1) = BK.write_view p e.backend_writer in
      let (w1, ended) = bk.ends w in
      let body : BK.buf w ≡ p = rw (buf1, bi) in
      let (more, idle) =
        BK.end_packet_view w w1
          (rw body (env.packets.length-serialize_change_user (new_change_user handshake))) ended in
      let (w2, flushed) = bk.flushes w1 in
      let (same, kept) = BK.flush_all_view w1 w2 flushed in
      let e1 : Ends CK BK CS BS = record e { backend_writer = w2 } in
      Authenticated-after (process_auth_switch_plugin env CK BK CS BS seq e1) _ e e1 seq v t
        (wire (BK.seq e.backend_writer, p)) crest rest (rw (ended, flushed)) refl
        (same ∙ rw (more, sent1, seq1, body))
        (process_auth_switch_plugin-switches seq e1 v t crest rest says ci (kept ∙ idle) ca ba)
