-- ===== src/Server/Connect.antt =====
-- The session of a client on a pooled connection: `connect` of
-- src/proxy/src/server/haentgl_server.rs, from the connection that the pool gave.
pub mod Serves
mod Tests
use haentgl.Prelude.{ℕ, Option, none, some, List, [], ◌∷◌}
use haentgl.Protocol.Packet.{Packet}
use haentgl.Protocol.Basic.{HandshakeResponse}
use haentgl.Protocol.Link.{Source, Sink}
use haentgl.Backend.Pool.{
  DbConnPhase, connection_phase, command_phase, DbUserConnLifeCycle, new_conn_life_cycle,
}
use haentgl.Server.Environment.{Environment}
use haentgl.Server.Outcome.{Outcome, done, stopped, panic, out_of_fuel, ◌>>=◌}
use haentgl.Server.Commands.{Ends, on_com}
use haentgl.Server.Auth.{Verdict, admitted, denied, continue_auth, reply_handshake_response}

-- "_NONE".
abbrev pub no_user : List ℕ
no_user = 95 ∷ 78 ∷ 79 ∷ 78 ∷ 69 ∷ []

module _ (env : Environment) where
  abbrev user_or_none : Option (List ℕ) → List ℕ
  user_or_none none = no_user
  user_or_none (some username) = env.utf8_lossy username

  pub db_user_string : HandshakeResponse → List ℕ
  db_user_string handshake = user_or_none handshake.username

module _ (env : Environment) (CK BK : Sink) (CS BS : Source) where
  -- The match on the phase of the connection.
  pub authenticate :
      Option DbConnPhase
      → ℕ
      → Packet
      → HandshakeResponse
      → Ends CK BK CS BS
      → Outcome (Verdict × Ends CK BK CS BS)
  authenticate (some command_phase) seq p handshake e =
      continue_auth env CK BK CS BS seq handshake e
  authenticate phase seq p handshake e = reply_handshake_response env CK BK CS BS seq p handshake e

  -- The life cycle of the connection when the session has ended, and how it ended: `none` is `Ok(())`
  -- after an authentication that failed. The life cycle is set before the commands are served.
  abbrev pub after_auth :
      ℕ
      → HandshakeResponse
      → DbUserConnLifeCycle
      → Outcome (Verdict × Ends CK BK CS BS)
      → DbUserConnLifeCycle × Outcome (Option (Ends CK BK CS BS))
  after_auth fuel handshake c (done (admitted, e)) = (
    new_conn_life_cycle (db_user_string env handshake) command_phase,
    on_com env CK BK CS BS fuel handshake e >>= λ e'. done (some e'),
  )
  after_auth fuel handshake c (done (denied message, e)) =
      (new_conn_life_cycle (db_user_string env handshake) connection_phase, done none)
  after_auth fuel handshake c (stopped error) =
      (new_conn_life_cycle (db_user_string env handshake) connection_phase, done none)
  after_auth fuel handshake c panic = (c, panic)
  after_auth fuel handshake c out_of_fuel = (c, out_of_fuel)

  pub connect :
      ℕ
      → ℕ
      → Packet
      → HandshakeResponse
      → DbUserConnLifeCycle
      → Ends CK BK CS BS
      → DbUserConnLifeCycle × Outcome (Option (Ends CK BK CS BS))
  connect fuel seq p handshake c e = after_auth fuel handshake c (
      authenticate c.conn_phase seq p handshake
        (record e { backend_writer = BK.set_seq 0 e.backend_writer }))
