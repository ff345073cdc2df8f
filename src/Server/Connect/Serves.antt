-- ===== src/Server/Connect/Serves.antt =====
-- What a session comes to, and what becomes of its connection.
use haentgl.Prelude.{ℕ, ◌≡◌, ◌⊎◌, refl, inl, inr, Option, none, some, List, [], ◌∷◌, ◌++◌}
use haentgl.Prelude.Words.{add_u8}
use haentgl.Protocol.Packet.{Packet}
use haentgl.Protocol.Basic.{HandshakeResponse}
use haentgl.Protocol.Link.{Numbered, Source, Sink, wire, wires}
use haentgl.Backend.Pool.{
  DbUserConnLifeCycle, command_phase, new_conn_life_cycle, recycle, kept, refused,
}
use haentgl.Server.Environment.{Environment}
use haentgl.Server.Outcome.{Outcome, done, stopped, panic, out_of_fuel, Failure, ◌>>=◌}
use haentgl.Server.Forwarder.Relay.Steps.{Steady}
use haentgl.Server.Commands.{Ends, on_com}
use haentgl.Server.Commands.Session.{Session}
use haentgl.Server.Commands.Session.Requests.{reset_body}
use haentgl.Server.Auth.{Verdict, admitted, denied}
use haentgl.Server.Auth.Switch.{Dialogue, change_user_of}
use haentgl.Server.Connect.{connect, authenticate, after_auth, db_user_string}

module _ (env : Environment) (CK BK : Sink) (CS BS : Source) where
  -- A connection whose client was admitted goes back to the pool; one whose client was not, by the
  -- backend's verdict or by an error on the way, is refused by the pool, and none of the client's
  -- commands is served on it; a panic leaves the connection as it was.
  pub connect_cases :
      (fuel seq : ℕ) (p : Packet) (handshake : HandshakeResponse) (c : DbUserConnLifeCycle)
      (e : Ends CK BK CS BS)
      → let start : Ends CK BK CS BS = record e {
        backend_writer = BK.set_seq 0 e.backend_writer;
      } in
        let auth = authenticate env CK BK CS BS c.conn_phase seq p handshake start in
        let (after, outcome) = connect env CK BK CS BS fuel seq p handshake c e in
        ((e' : Ends CK BK CS BS) × (auth ≡ done (admitted, e'))
          × (recycle after ≡ kept)
          × (outcome ≡ (on_com env CK BK CS BS fuel handshake e' >>= λ e'. done (some e'))))
        ⊎ ((((message : List ℕ) × (e' : Ends CK BK CS BS) × (auth ≡ done (denied message, e')))
              ⊎ ((error : Failure) × (auth ≡ stopped error)))
            × (recycle after ≡ refused)
            × (outcome ≡ done none))
        ⊎ (((auth ≡ panic) ⊎ (auth ≡ out_of_fuel)) × (after ≡ c))
  unfolding connect recycle
  connect_cases fuel seq p handshake c e = by_auth (
      authenticate env CK BK CS BS c.conn_phase seq p handshake
        (record e { backend_writer = BK.set_seq 0 e.backend_writer }))
    where
      by_auth :
          (auth : Outcome (Verdict × Ends CK BK CS BS))
          → ((e' : Ends CK BK CS BS) × (auth ≡ done (admitted, e'))
              × (recycle (after_auth env CK BK CS BS fuel handshake c auth).0 ≡ kept)
              × ((after_auth env CK BK CS BS fuel handshake c auth).1
                  ≡ (on_com env CK BK CS BS fuel handshake e' >>= λ e'. done (some e'))))
            ⊎ ((((message : List ℕ) × (e' : Ends CK BK CS BS) × (auth ≡ done (denied message, e')))
                  ⊎ ((error : Failure) × (auth ≡ stopped error)))
                × (recycle (after_auth env CK BK CS BS fuel handshake c auth).0 ≡ refused)
                × ((after_auth env CK BK CS BS fuel handshake c auth).1 ≡ done none))
            ⊎ (((auth ≡ panic) ⊎ (auth ≡ out_of_fuel))
                × ((after_auth env CK BK CS BS fuel handshake c auth).0 ≡ c))
      by_auth (done (admitted, e')) = inl (e', refl, refl, refl)
      by_auth (done (denied message, e')) = inr (inl (inl (message, e', refl), refl, refl))
      by_auth (stopped error) = inr (inl (inr (error, refl), refl, refl))
      by_auth panic = inr (inr (inl refl, refl))
      by_auth out_of_fuel = inr (inr (inr refl, refl))

module _ (env : Environment) (CK BK : Sink) (CS BS : Source) (ck : Steady CK) (bk : Steady BK)
    (handshake : HandshakeResponse) where
  -- What both sides were sent in a whole session, and where the session leaves the connections.
  pub record Whole (o : DbUserConnLifeCycle × Outcome (Option (Ends CK BK CS BS)))
      (e : Ends CK BK CS BS) (seq : ℕ) (t : Dialogue) (cs answers crest rest : List Numbered)
      : Type 0 where
    pub after : Ends CK BK CS BS
    pub reset_seq : ℕ
    pub result :
        o ≡ (new_conn_life_cycle (db_user_string env handshake) command_phase, done (some after))
    pub to_client_sent :
        CK.sent after.client_writer
        ≡ CK.sent e.client_writer
          ++ (wires ((add_u8 seq 1, 0xfe ∷ t.switch) ∷ (t.last_seq, t.last) ∷ []) ++ wires answers)
    pub to_backend_sent :
        BK.sent after.backend_writer
        ≡ BK.sent e.backend_writer
          ++ ((wire (0, change_user_of env handshake) ++ wire (add_u8 t.be_seq 1, t.answer))
              ++ (wires cs ++ wire (reset_seq, reset_body env)))
    pub client_idle : CK.buf after.client_writer ≡ []
    pub backend_idle : BK.buf after.backend_writer ≡ []
    pub client_ahead : CS.Ahead after.client_reader crest
    pub backend_ahead : BS.Ahead after.backend_reader rest
