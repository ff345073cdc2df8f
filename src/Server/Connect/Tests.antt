-- ===== src/Server/Connect/Tests.antt =====
-- A session on a connection that another client has used, on concrete packets.
use haentgl.Prelude.{ℕ, ◌≡◌, ◌⊎◌, some, none, List, [], ◌∷◌, ◌++◌, arith}
use haentgl.Extern.MysqlPackets.{ClientResponse}
use haentgl.Backend.Pool.{
  DbUserConnLifeCycle, command_phase, new_conn_life_cycle, fresh_life_cycle, recycle, kept, refused,
}
use haentgl.Server.Outcome.{done, stopped, panic, out_of_fuel, Failure, ◌>>=◌}
use haentgl.Server.Commands.{Ends, on_com}
use haentgl.Server.Auth.{admitted, denied}
use haentgl.Server.Auth.Switch.{Dialogue, from_backend}
use haentgl.Server.Connect.{connect, authenticate}
use haentgl.Server.Connect.Serves.{connect_cases}
use haentgl.Server.Tests.{asks, replies, ok_body, row_packet, talk}
use haentgl.Server.Tests.Plain.{queue, plain, tools, hand}

abbrev dialogue : Dialogue
dialogue = record {
  be_seq = 1;
  switch = 1 ∷ [];
  client_seq = 2;
  answer = row_packet;
  last_seq = 3;
  last = ok_body;
  answers = omega arith;
}

abbrev used_before : DbUserConnLifeCycle
used_before = new_conn_life_cycle [] command_phase

abbrev greeted : Ends plain plain queue queue
greeted =
    talk ((2, row_packet) ∷ (asks ++ ((0, 1 ∷ []) ∷ [])))
      (from_backend dialogue ++ (replies ++ ((1, ok_body) ∷ [])))

-- A new connection, where the backend greets first.
abbrev fresh : Ends plain plain queue queue
fresh = talk ((2, row_packet) ∷ []) ((0, 10 ∷ []) ∷ (from_backend dialogue ++ []))

-- The client's response as `plain_packets` reads it.
abbrev five : ClientResponse
five = record { scramble_buf = 5 ∷ []; db_name = none; capabilities = 0; connect_attributes = none }

connect_cases_example :
    let start : Ends plain plain queue queue = record fresh {
      backend_writer = plain.set_seq 0 fresh.backend_writer;
    } in
    let auth = authenticate tools plain plain queue queue none 1 (5 ∷ []) hand start in
    let (after, outcome) =
      connect tools plain plain queue queue 8 1 (5 ∷ []) hand fresh_life_cycle fresh in
    ((e' : Ends plain plain queue queue) × (auth ≡ done (admitted, e'))
      × (recycle after ≡ kept)
      × (outcome ≡ (on_com tools plain plain queue queue 8 hand e' >>= λ e'. done (some e'))))
    ⊎ ((((message : List ℕ) × (e' : Ends plain plain queue queue) × (auth
              ≡ done (denied message, e')))
          ⊎ ((error : Failure) × (auth ≡ stopped error)))
        × (recycle after ≡ refused)
        × (outcome ≡ done none))
    ⊎ (((auth ≡ panic) ⊎ (auth ≡ out_of_fuel)) × (after ≡ fresh_life_cycle))
connect_cases_example =
    connect_cases tools plain plain queue queue 8 1 (5 ∷ []) hand fresh_life_cycle fresh
