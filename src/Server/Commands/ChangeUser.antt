-- ===== src/Server/Commands/ChangeUser.antt =====
-- A change of user: the backend and the client take turns until the backend accepts.
use haentgl.Prelude.{ℕ, ◌<◌, ◌≡◌, true, false, List, [], ◌∷◌, ◌++◌, length}
use haentgl.Protocol.Packet.{Packet, is_ok_packet, is_err_packet}
use haentgl.Protocol.Link.{Numbered, Source, Sink, wires}
use haentgl.Server.Environment.{Environment}
use haentgl.Server.Outcome.{Outcome, done}
use haentgl.Server.Forwarder.Relay.Steps.{Steady}
use haentgl.Server.Commands.{Ends}

-- What the backend sends, and what the client answers to it.
pub data Exchange : List Numbered → List Numbered → Type 0 where
  accepted : {seq : ℕ} {p : Packet} → is_ok_packet p ≡ true → Exchange ((seq, p) ∷ []) []
  asked :
      {seq seq' : ℕ} {p q : Packet} {bs cs : List Numbered}
      → 0 < length p
      → is_err_packet p ≡ false
      → is_ok_packet p ≡ false
      → 0 < length q
      → is_err_packet q ≡ false
      → Exchange bs cs
      → Exchange ((seq, p) ∷ bs) ((seq', q) ∷ cs)

module _ (env : Environment) (CK BK : Sink) (CS BS : Source) (ck : Steady CK) (bk : Steady BK) where
  -- Both sides were sent what the other one said, and both readers stand behind it.
  pub record Talked (o : Outcome (Ends CK BK CS BS)) (e : Ends CK BK CS BS)
      (bs cs brest crest : List Numbered) : Type 0 where
    pub after : Ends CK BK CS BS
    pub result : o ≡ done after
    pub to_client_sent : CK.sent after.client_writer ≡ CK.sent e.client_writer ++ wires bs
    pub to_backend_sent : BK.sent after.backend_writer ≡ BK.sent e.backend_writer ++ wires cs
    pub client_idle : CK.buf after.client_writer ≡ []
    pub backend_idle : BK.buf after.backend_writer ≡ []
    pub client_ahead : CS.Ahead after.client_reader crest
    pub backend_ahead : BS.Ahead after.backend_reader brest
