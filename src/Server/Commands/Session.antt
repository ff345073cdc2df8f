-- ===== src/Server/Commands/Session.antt =====
-- A whole session as the MySQL protocol describes it, by the bytes of the commands: which answer each
-- command has. None of this uses the program's own tables of commands and forwarders.
pub mod Requests
pub mod Forwarded
pub mod Routes
pub mod Serve
use haentgl.Prelude.{ℕ, ◌<◌, ◌≤◌, List, [], ◌∷◌, ◌++◌, length}
use haentgl.Extern.Flags.{client_deprecate_eof}
use haentgl.Protocol.Packet.{Packet}
use haentgl.Protocol.Link.{Numbered}
use haentgl.Server.Environment.{Environment}
use haentgl.Server.Forwarder.Answer.{Answer, Rows}
use haentgl.Server.Commands.Prepare.{PrepareAnswer}

-- COM_QUERY, COM_STMT_EXECUTE and COM_PROCESS_INFO, which results answer.
pub data HasResults : ℕ → Type 0 where
  asks_query : HasResults 0x03
  asks_process_info : HasResults 0x0a
  asks_stmt_execute : HasResults 0x17

-- COM_FIELD_LIST and COM_STMT_FETCH, which rows answer.
pub data HasRows : ℕ → Type 0 where
  asks_field_list : HasRows 0x04
  asks_stmt_fetch : HasRows 0x1c

-- The commands that one packet answers. COM_STMT_SEND_LONG_DATA and the dumps of a replica are not
-- among them.
pub data HasOnePacket : ℕ → Type 0 where
  asks_init_db : HasOnePacket 0x02
  asks_create_db : HasOnePacket 0x05
  asks_drop_db : HasOnePacket 0x06
  asks_refresh : HasOnePacket 0x07
  asks_shutdown : HasOnePacket 0x08
  asks_statistics : HasOnePacket 0x09
  asks_process_kill : HasOnePacket 0x0c
  asks_debug : HasOnePacket 0x0d
  asks_ping : HasOnePacket 0x0e
  asks_register_slave : HasOnePacket 0x15
  asks_stmt_reset : HasOnePacket 0x1a
  asks_set_option : HasOnePacket 0x1b
  asks_reset_connection : HasOnePacket 0x1f

module _ (env : Environment) (capabilities : ℕ) where
  -- What a backend answers to a request with this first byte. COM_STMT_PREPARE has an answer of its
  -- own, and COM_STMT_CLOSE none.
  pub data Reply : ℕ → List ℕ → List Numbered → Type 0 where
    results_reply :
        {b : ℕ} {bs : List ℕ} {ps : List Numbered}
        → HasResults b
        → Answer env capabilities ps
        → Reply b bs ps
    rows_reply :
        {b : ℕ} {bs : List ℕ} {ps : List Numbered} (status : ℕ)
        → HasRows b
        → Rows env capabilities ps status
        → Reply b bs ps
    prepare_reply :
        {bs : List ℕ} {seq : ℕ} {q : Packet} {ps : List Numbered}
        → PrepareAnswer (env.flags.has_capability capabilities client_deprecate_eof) q ps
        → Reply 0x16 bs ((seq, q) ∷ ps)
    close_reply : {bs : List ℕ} → 4 ≤ length bs → Reply 0x19 bs []
    one_reply :
        {b : ℕ} {bs : List ℕ} {seq : ℕ} {q : Packet}
        → HasOnePacket b
        → 0 < length q
        → Reply b bs ((seq, q) ∷ [])

  -- Commands with the packets that answer them.
  pub data Session : List Numbered → List Numbered → Type 0 where
    no_commands : Session [] []
    command_then :
        {seq b : ℕ} {bs : List ℕ} {ps cs answers : List Numbered}
        → Reply b bs ps
        → Session cs answers
        → Session ((seq, b ∷ bs) ∷ cs) (ps ++ answers)
