-- ===== src/Server/Commands.antt =====
-- The commands: the request that goes to the backend, the forwarder of each command's answer, and the
-- loop over the commands of a client. src/proxy/src/server/forwarder and haentgl_server.rs.
pub mod Prepare
pub mod ChangeUser
pub mod Session
use haentgl.Prelude.{
  ℕ, zero, suc, Bool, true, false, Option, none, some, List, [], ◌∷◌, ◌++◌, length, if◌then◌else◌,
  not, ltb, ◌&&◌,
}
use haentgl.Prelude.Words.{add_u16}
use haentgl.Extern.Flags.{client_deprecate_eof}
use haentgl.Extern.MysqlPackets.{ComChangeUser}
use haentgl.Protocol.Packet.{Packet, is_ok_packet, is_err_packet}
use haentgl.Protocol.Basic.{HandshakeResponse}
use haentgl.Protocol.Constants.{
  CommandCode, quit, change_user, query, stmt_execute, process_info, field_list, stmt_fetch,
  stmt_prepare, stmt_close, reset_connection, com_code, from_u8, com_name, un_know_plugin_name,
}
use haentgl.Protocol.Link.{Source, Sink, Numbered}
use haentgl.Protocol.Reader.{Next, got, closed, failed, panicked}
use haentgl.Server.Environment.{Environment}
use haentgl.Server.Outcome.{
  Outcome, done, stopped, panic, out_of_fuel, ◌>>=◌, written, unwrap, received, Failure,
  permission_denied, invalid_data, read_error,
}
use haentgl.Server.Forwarder.{
  forward_one_packet, put_packet, read_u16, slice_from, forward_query, forward_until_result_end,
  Head, ok_head, err_head, local_in_file_head, result_head, head_of,
}

-- `CONN_ID` of writers.rs.
abbrev pub conn_id : ℕ
conn_id = 8

-- The match of `write_to_backend`.
pub data RequestKind : Type 0 where
  no_request rewritten_request same_request : RequestKind

abbrev pub request_kind : CommandCode → RequestKind
request_kind quit = no_request
request_kind change_user = rewritten_request
request_kind command = same_request

-- The request without its authentication data, with the client's collation and an unknown plugin.
abbrev pub updated_change_user : HandshakeResponse → ComChangeUser → ComChangeUser
updated_change_user handshake request = record request {
  auth_plugin_data = none;
  more_data = some (record {
    collation = handshake.collation;
    auth_plugin = some un_know_plugin_name;
    connect_attributes = none;
  });
}

module _ (env : Environment) (K : Sink) where
  open K use {Writer, set_seq, write, end_packet, flush_all}

  abbrev pub send_request : ℕ → Packet → Writer → Outcome Writer
  send_request seq p dest = do dest ← put_packet K seq p dest; written (flush_all dest)

  -- `write_to_backend`: a quit is kept back, and a change of user is rewritten.
  pub write_to_backend : ℕ → CommandCode → HandshakeResponse → Packet → Writer → Outcome Writer
  write_to_backend seq command handshake p dest = elim (request_kind command) [
    | no_request ↦ done dest
    | rewritten_request ↦ do
      request ← unwrap (env.packets.parse_change_user handshake.client_flag p)
      send_request seq (env.packets.serialize_change_user (updated_change_user handshake request))
          dest
    | same_request ↦ send_request seq p dest
  ]

  -- writers.rs.
  pub write_reset_connection : Writer → Outcome Writer
  write_reset_connection dest = do
    dest ← written (
        end_packet
          (write (env.order.write_u32 conn_id) (write (com_code reset_connection ∷ []) dest)))
    written (flush_all dest)

-- `n > 0` as a number.
abbrev pub one_if : Bool → ℕ
one_if true = 1
one_if false = 0

-- The packets behind the answer to a prepare, on `u16`.
abbrev pub expected_packets : Bool → ℕ → ℕ → ℕ
expected_packets deprecate_eof column params =
    if deprecate_eof
    then add_u16 column params
    else add_u16 (add_u16 (add_u16 column params) (one_if (ltb 0 column))) (one_if (ltb 0 params))

-- `LittleEndian::read_u16(&packet[n..])`.
abbrev pub u16_at : ℕ → Packet → Outcome ℕ
u16_at n p = do rest ← unwrap (slice_from n p); unwrap (read_u16 rest)

module _ (S : Source) where
  -- `ResetConnForwarder`'s part on the backend's answer: it is read and dropped.
  abbrev pub drop_answer : S.Reader → Outcome S.Reader
  drop_answer src = do (_, src) ← received (S.next src); done src

module _ (env : Environment) (K : Sink) (S : Source) where
  open env use {flags}
  open env.packets use {parse_err}
  open K use {Writer, flush_all}
  open S use {Reader}

  -- So many packets.
  pub forward_packets : ℕ → Writer → Reader → Outcome (Unit {0} × Writer × Reader)
  forward_packets zero dest src = done (tt, dest, src)
  forward_packets (suc n) dest src = do
    (_, dest, src) ← forward_one_packet K S false dest src
    forward_packets n dest src

  pub forward_prepare_stmt : ℕ → Writer → Reader → Outcome (Unit {0} × Writer × Reader)
  forward_prepare_stmt capabilities dest src = do
    (p, dest, src) ← forward_one_packet K S false dest src
    elim (is_err_packet p) [
      | true ↦ do
        _ ← unwrap (parse_err capabilities p)
        dest ← written (flush_all dest)
        done (tt, dest, src)
      | false ↦ elim (is_ok_packet p) [
        | false ↦ panic
        | true ↦ do
          column ← u16_at 5 p
          params ← u16_at 7 p
          (_, dest, src) ←
              forward_packets
                (expected_packets (flags.has_capability capabilities client_deprecate_eof) column
                  params)
                dest src
          dest ← written (flush_all dest)
          done (tt, dest, src)
      ]
    ]

-- The two connections of a session, with the ends of both.
pub record Ends (CK BK : Sink) (CS BS : Source) : Type 0 where
  pub client_writer : CK.Writer
  pub client_reader : CS.Reader
  pub backend_writer : BK.Writer
  pub backend_reader : BS.Reader

-- The forwarder that `on_com` makes for a command.
pub data ComForwarder : Type 0 where
  stmt_prepare_forwarder query_forwarder reset_conn_forwarder change_user_forwarder
        generic_com_forwarder :
      ComForwarder

abbrev pub com_forwarder : CommandCode → ComForwarder
com_forwarder stmt_prepare = stmt_prepare_forwarder
com_forwarder stmt_close = stmt_prepare_forwarder
com_forwarder query = query_forwarder
com_forwarder stmt_execute = query_forwarder
com_forwarder process_info = query_forwarder
com_forwarder field_list = query_forwarder
com_forwarder stmt_fetch = query_forwarder
com_forwarder quit = reset_conn_forwarder
com_forwarder change_user = change_user_forwarder
com_forwarder command = generic_com_forwarder

-- The matches of `StmtPrepareForwarder` and `QueryForwarder`; the other commands are unreachable.
pub data PrepareKind : Type 0 where
  prepares closes_stmt no_prepare : PrepareKind

abbrev pub prepare_kind : CommandCode → PrepareKind
prepare_kind stmt_prepare = prepares
prepare_kind stmt_close = closes_stmt
prepare_kind command = no_prepare

pub data QueryKind : Type 0 where
  results rows_only no_query : QueryKind

abbrev pub query_kind : CommandCode → QueryKind
query_kind query = results
query_kind stmt_execute = results
query_kind process_info = results
query_kind field_list = rows_only
query_kind stmt_fetch = rows_only
query_kind command = no_query

-- `client_packet[0]`, and the command of this code.
abbrev pub command_of : Packet → Outcome (ℕ × CommandCode)
command_of [] = panic
command_of (b ∷ bs) = unwrap (from_u8 b) >>= λ command. done (b, command)

abbrev pub is_quit : CommandCode → Bool
is_quit quit = true
is_quit command = false

-- A connection that the client has closed is an error.
abbrev pub accepted {ℓ} : {R : Type ℓ} → Next × R → Outcome (Numbered × R)
accepted (got seq p, r) = done ((seq, p), r)
accepted (closed, r) = stopped invalid_data
accepted (failed error, r) = stopped (read_error error)
accepted (panicked, r) = panic

module _ (env : Environment) (CK BK : Sink) (CS BS : Source) where
  open env.packets use {parse_err}

  abbrev pub with_client : Ends CK BK CS BS → Unit {0} × CK.Writer × BS.Reader → Ends CK BK CS BS
  with_client e (_, dest, src) = record e { client_writer = dest; backend_reader = src }

  abbrev pub to_client :
      Ends CK BK CS BS → Outcome (Unit {0} × CK.Writer × BS.Reader) → Outcome (Ends CK BK CS BS)
  to_client e o = o >>= λ r. done (with_client e r)

  -- The error packet of either side is logged, and ends the session.
  abbrev pub refused : ℕ → Packet → Outcome (Ends CK BK CS BS)
  refused capabilities p = do _ ← unwrap (parse_err capabilities p); stopped permission_denied

  -- `ChangeUserForwarder`: the backend's packets and the client's take turns.
  pub forward_change_user : ℕ → ℕ → Ends CK BK CS BS → Outcome (Ends CK BK CS BS)
  forward_change_user zero capabilities e = out_of_fuel
  forward_change_user (suc fuel) capabilities e = do
    (rsp_pkt, dest, src) ← forward_one_packet CK BS true e.client_writer e.backend_reader
    elim (is_err_packet rsp_pkt) [
      | true ↦ refused capabilities rsp_pkt
      | false ↦ elim (is_ok_packet rsp_pkt) [
        | true ↦ done (record e { client_writer = dest; backend_reader = src })
        | false ↦ do
          (p, dest', src') ← forward_one_packet BK CS true e.backend_writer e.client_reader
          elim (is_err_packet p) [
            | true ↦ refused capabilities p
            | false ↦ forward_change_user fuel capabilities (record {
              client_writer = dest;
              client_reader = src';
              backend_writer = dest';
              backend_reader = src;
            })
          ]
      ]
    ]

  -- `request[0]` and `request[1..5]`, which panic on a packet of fewer than five bytes.
  abbrev pub forward_close_stmt : Packet → Ends CK BK CS BS → Outcome (Ends CK BK CS BS)
  forward_close_stmt request e = if ltb (length request) 5 then panic else done e

  abbrev pub forward_prepare_com :
      CommandCode → ℕ → Packet → Ends CK BK CS BS → Outcome (Ends CK BK CS BS)
  forward_prepare_com command capabilities request e = elim (prepare_kind command) [
    | prepares ↦
        to_client e (forward_prepare_stmt env CK BS capabilities e.client_writer e.backend_reader)
    | closes_stmt ↦ forward_close_stmt request e
    | no_prepare ↦ panic
  ]

  -- The status of the rows is dropped.
  abbrev pub forward_rows : ℕ → ℕ → Ends CK BK CS BS → Outcome (Ends CK BK CS BS)
  forward_rows fuel capabilities e = do
    (_, dest, src) ←
        forward_until_result_end env CK BS fuel capabilities e.client_writer e.backend_reader
    done (record e { client_writer = dest; backend_reader = src })

  abbrev pub forward_query_com : CommandCode → ℕ → ℕ → Ends CK BK CS BS → Outcome (Ends CK BK CS BS)
  forward_query_com command fuel capabilities e = elim (query_kind command) [
    | results ↦
        to_client e (forward_query env CK BS fuel capabilities e.client_writer e.backend_reader)
    | rows_only ↦ forward_rows fuel capabilities e
    | no_query ↦ panic
  ]

  -- `ResetConnForwarder`: the backend's connection is reset, and its answer dropped.
  abbrev pub forward_reset_conn : Ends CK BK CS BS → Outcome (Ends CK BK CS BS)
  forward_reset_conn e = do
    dest ← write_reset_connection env BK e.backend_writer
    src ← drop_answer BS e.backend_reader
    done (record e { backend_writer = dest; backend_reader = src })

  -- `GenericComForwarder`: one packet is the answer.
  abbrev pub forward_generic_com : Ends CK BK CS BS → Outcome (Ends CK BK CS BS)
  forward_generic_com e = do
    (_, dest, src) ← forward_one_packet CK BS true e.client_writer e.backend_reader
    done (record e { client_writer = dest; backend_reader = src })

  -- `com_forwarder.forward(..)`.
  pub forward :
      ComForwarder → ℕ → CommandCode → ℕ → Packet → Ends CK BK CS BS → Outcome (Ends CK BK CS BS)
  forward stmt_prepare_forwarder fuel command capabilities request e =
      forward_prepare_com command capabilities request e
  forward query_forwarder fuel command capabilities request e =
      forward_query_com command fuel capabilities e
  forward reset_conn_forwarder fuel command capabilities request e = forward_reset_conn e
  forward change_user_forwarder fuel command capabilities request e =
      forward_change_user fuel capabilities e
  forward generic_com_forwarder fuel command capabilities request e = forward_generic_com e

  -- One round of the loop: the command, and the two connections behind it. The command's name is a
  -- label of the metrics, and must be known.
  pub serve_command :
      ℕ → HandshakeResponse → Ends CK BK CS BS → Outcome (CommandCode × Ends CK BK CS BS)
  serve_command fuel handshake e = do
    ((seq, p), client_reader) ← accepted (CS.next e.client_reader)
    (recv_com_code, command) ← command_of p
    dest ← write_to_backend env BK seq command handshake p e.backend_writer
    _ ← unwrap (com_name recv_com_code)
    e ←
        forward (com_forwarder command) fuel command handshake.client_flag p
          (record e { client_reader = client_reader; backend_writer = dest })
    done (command, e)

  pub on_com_loop : ℕ → HandshakeResponse → Ends CK BK CS BS → Outcome (Ends CK BK CS BS)
  on_com_loop zero handshake e = out_of_fuel
  on_com_loop (suc fuel) handshake e = do
    (command, e) ← serve_command fuel handshake e
    elim (is_quit command) [ true ↦ done e | false ↦ on_com_loop fuel handshake e ]

  -- `on_com`: the backend's sequence number starts at 0.
  pub on_com : ℕ → HandshakeResponse → Ends CK BK CS BS → Outcome (Ends CK BK CS BS)
  on_com fuel handshake e =
      on_com_loop fuel handshake (record e { backend_writer = BK.set_seq 0 e.backend_writer })
