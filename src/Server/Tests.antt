-- ===== src/Server/Tests.antt =====
-- Answers and sessions on concrete packets.
pub mod Plain
use haentgl.Prelude.{ℕ, inl, true, ◌≡◌, refl, none, some, List, [], ◌∷◌, ◌++◌, arith, length}
use haentgl.Extern.Flags.{client_deprecate_eof}
use haentgl.Protocol.Packet.{
  Packet, is_ok_packet, is_result_set_eof_packet, is_local_in_file_packet,
}
use haentgl.Protocol.Basic.Layout.{ok_layout, no_texts}
use haentgl.Protocol.Link.{Numbered}
use haentgl.Server.Forwarder.Answer.{
  Answer, Rows, ResultSet, result_answer, short_result, row, ok_end,
}
use haentgl.Server.Forwarder.Relay.Steps.{Relays}
use haentgl.Server.Commands.{Ends, forward_prepare_stmt}
use haentgl.Server.Commands.Prepare.{PrepareAnswer, forward_prepare_stmt-Relays}
use haentgl.Server.Commands.Session.{
  Session, no_commands, command_then, results_reply, one_reply, close_reply, asks_ping, asks_query,
  asks_stmt_execute,
}
use haentgl.Server.Tests.Plain.{queue, plain, plain-steady, idle_plain, tools, caps}

-- One column, one row and the closing OK packet with status 2.
abbrev pub column_count : Packet
column_count = 1 ∷ []

abbrev pub row_packet : Packet
row_packet = 1 ∷ 65 ∷ []

abbrev pub last_packet : Packet
last_packet = 0xfe ∷ 0 ∷ 0 ∷ 2 ∷ 0 ∷ 0 ∷ 0 ∷ []

abbrev pub ok_body : Packet
ok_body = 0 ∷ 0 ∷ 0 ∷ 2 ∷ 0 ∷ 0 ∷ 0 ∷ []

abbrev pub result_packets : List Numbered
result_packets = (1, column_count) ∷ (2, row_packet) ∷ (3, last_packet) ∷ []

closing : Rows tools caps ((3, last_packet) ∷ []) 2
closing =
    ok_end refl (ok_layout 0xfe 0 0 2 0 0 0 [] (omega arith) (omega arith) no_texts) (omega arith)

rows : Rows tools caps ((2, row_packet) ∷ (3, last_packet) ∷ []) 2
rows = row ((λ e. ground arith), inl (λ e. ground arith)) closing

result_answers : Answer tools caps result_packets
result_answers =
    result_answer 2 ((λ e. ground arith), (λ e. ground arith), (λ e. ground arith))
      (short_result refl rows) refl

-- A statement with one column and two parameters.
abbrev prepare_ok : Packet
prepare_ok = 0 ∷ 1 ∷ 0 ∷ 0 ∷ 0 ∷ 1 ∷ 0 ∷ 2 ∷ 0 ∷ 0 ∷ 0 ∷ 0 ∷ []

abbrev definitions : List Numbered
definitions = (2, row_packet) ∷ (3, row_packet) ∷ (4, row_packet) ∷ []

prepare_answers : PrepareAnswer true prepare_ok definitions
unfolding is_ok_packet
prepare_answers = record {
  columns = 1;
  params = 2;
  columns_read = refl;
  params_read = refl;
  is_ok = refl;
  count = refl;
  fits = omega arith;
  whole = (omega arith, (omega arith, (omega arith, tt)));
}

forward_prepare_stmt-Relays_example :
    Relays plain queue
      (forward_prepare_stmt tools plain queue caps idle_plain ((1, prepare_ok) ∷ definitions))
      tt
      idle_plain
      ((1, prepare_ok) ∷ definitions)
      []
forward_prepare_stmt-Relays_example =
    forward_prepare_stmt-Relays tools plain queue plain-steady caps idle_plain
      ((1, prepare_ok) ∷ definitions) 1 prepare_ok definitions [] prepare_answers refl refl

abbrev pub talk : List Numbered → List Numbered → Ends plain plain queue queue
talk from_client from_backend = record {
  client_writer = idle_plain;
  client_reader = from_client;
  backend_writer = idle_plain;
  backend_reader = from_backend;
}

-- The backend asks for another plugin, the client answers, and the backend accepts.
abbrev switch_packet : Packet
switch_packet = 0xfe ∷ 1 ∷ []

abbrev switches : List Numbered
switches = (1, switch_packet) ∷ (3, ok_body) ∷ []

-- A ping, a query, an executed statement, a closed one and a quit.
abbrev pub asks : List Numbered
asks =
    (0, 0x0e ∷ [])
    ∷ (0, 3 ∷ 49 ∷ [])
    ∷ (0, 0x17 ∷ 1 ∷ 0 ∷ 0 ∷ 0 ∷ 0 ∷ 1 ∷ 0 ∷ 0 ∷ 0 ∷ [])
    ∷ (0, 0x19 ∷ 1 ∷ 0 ∷ 0 ∷ 0 ∷ [])
    ∷ []

abbrev pub replies : List Numbered
replies = (1, ok_body) ∷ (result_packets ++ result_packets)

pub session : Session tools caps asks replies
session = command_then (one_reply asks_ping (omega arith)) (
    command_then (results_reply asks_query result_answers) (
      command_then (results_reply asks_stmt_execute result_answers)
        (command_then (close_reply (omega arith)) no_commands)))

abbrev whole_session : Ends plain plain queue queue
whole_session = talk (asks ++ ((0, 1 ∷ []) ∷ [])) (replies ++ ((1, ok_body) ∷ []))
