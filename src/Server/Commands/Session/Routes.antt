-- ===== src/Server/Commands/Session/Routes.antt =====
-- The program's tables send each command to the forwarder of its answer: haentgl_server.rs and
-- forwarder/mod.rs in src/proxy/src/server.
use haentgl.Prelude.{ℕ, ◌<◌, ◌≤◌, ◌≡◌, refl, false, some, List, [], ◌∷◌, length, arith}
use haentgl.Prelude.Arms.{first_arm}
use haentgl.Extern.Flags.{client_deprecate_eof}
use haentgl.Protocol.Packet.{Packet}
use haentgl.Protocol.Constants.{
  CommandCode, quit, init_db, query, field_list, create_db, drop_db, refresh, shutdown, statistics,
  process_info, process_kill, debug, ping, register_slave, stmt_prepare, stmt_execute, stmt_close,
  stmt_reset, set_option, stmt_fetch, reset_connection, from_u8,
}
use haentgl.Protocol.Link.{Numbered}
use haentgl.Server.Environment.{Environment}
use haentgl.Server.Forwarder.Answer.{Answer, Rows}
use haentgl.Server.Commands.{
  com_forwarder, query_forwarder, generic_com_forwarder, query_kind, results, rows_only,
  request_kind, same_request, is_quit,
}
use haentgl.Server.Commands.Prepare.{PrepareAnswer}
use haentgl.Server.Commands.Session.{
  HasResults, asks_query, asks_process_info, asks_stmt_execute, HasRows, asks_field_list,
  asks_stmt_fetch, HasOnePacket, asks_init_db, asks_create_db, asks_drop_db, asks_refresh,
  asks_shutdown, asks_statistics, asks_process_kill, asks_debug, asks_ping, asks_register_slave,
  asks_stmt_reset, asks_set_option, asks_reset_connection, Reply, results_reply, rows_reply,
  prepare_reply, close_reply, one_reply,
}

-- A command that is passed on as it is.
abbrev pub Passes : ℕ → CommandCode → Type 0
Passes b c = (from_u8 b ≡ some c) × (request_kind c ≡ same_request) × (is_quit c ≡ false)

results-routed :
    {b : ℕ}
    → HasResults b
    → (c : CommandCode) × Passes b c
      × (com_forwarder c ≡ query_forwarder)
      × (query_kind c ≡ results)
unfolding from_u8 first_arm
results-routed asks_query = (query, (refl, refl, refl), refl, refl)
results-routed asks_process_info = (process_info, (refl, refl, refl), refl, refl)
results-routed asks_stmt_execute = (stmt_execute, (refl, refl, refl), refl, refl)

rows-routed :
    {b : ℕ}
    → HasRows b
    → (c : CommandCode) × Passes b c
      × (com_forwarder c ≡ query_forwarder)
      × (query_kind c ≡ rows_only)
unfolding from_u8 first_arm
rows-routed asks_field_list = (field_list, (refl, refl, refl), refl, refl)
rows-routed asks_stmt_fetch = (stmt_fetch, (refl, refl, refl), refl, refl)

one-routed :
    {b : ℕ}
    → HasOnePacket b
    → (c : CommandCode) × Passes b c × (com_forwarder c ≡ generic_com_forwarder)
unfolding from_u8 first_arm
one-routed asks_init_db = (init_db, (refl, refl, refl), refl)
one-routed asks_create_db = (create_db, (refl, refl, refl), refl)
one-routed asks_drop_db = (drop_db, (refl, refl, refl), refl)
one-routed asks_refresh = (refresh, (refl, refl, refl), refl)
one-routed asks_shutdown = (shutdown, (refl, refl, refl), refl)
one-routed asks_statistics = (statistics, (refl, refl, refl), refl)
one-routed asks_process_kill = (process_kill, (refl, refl, refl), refl)
one-routed asks_debug = (debug, (refl, refl, refl), refl)
one-routed asks_ping = (ping, (refl, refl, refl), refl)
one-routed asks_register_slave = (register_slave, (refl, refl, refl), refl)
one-routed asks_stmt_reset = (stmt_reset, (refl, refl, refl), refl)
one-routed asks_set_option = (set_option, (refl, refl, refl), refl)
one-routed asks_reset_connection = (reset_connection, (refl, refl, refl), refl)

prepare-Passes : Passes 0x16 stmt_prepare
unfolding from_u8 first_arm
prepare-Passes = (refl, refl, refl)

close-Passes : Passes 0x19 stmt_close
unfolding from_u8 first_arm
close-Passes = (refl, refl, refl)

pub quit-named : from_u8 0x01 ≡ some quit
unfolding from_u8 first_arm
quit-named = refl

module _ (env : Environment) (capabilities : ℕ) where
  -- The forwarder that the program's tables give a command, with the answer that it expects.
  pub data Routed : CommandCode → Packet → List Numbered → Type 0 where
    routed_results :
        {c : CommandCode} {p : Packet} {ps : List Numbered}
        → com_forwarder c ≡ query_forwarder
        → query_kind c ≡ results
        → Answer env capabilities ps
        → Routed c p ps
    routed_rows :
        {c : CommandCode} {p : Packet} {ps : List Numbered} {status : ℕ}
        → com_forwarder c ≡ query_forwarder
        → query_kind c ≡ rows_only
        → Rows env capabilities ps status
        → Routed c p ps
    routed_prepare :
        {p : Packet} {seq : ℕ} {q : Packet} {ps : List Numbered}
        → PrepareAnswer (env.flags.has_capability capabilities client_deprecate_eof) q ps
        → Routed stmt_prepare p ((seq, q) ∷ ps)
    routed_close : {p : Packet} → 5 ≤ length p → Routed stmt_close p []
    routed_one :
        {c : CommandCode} {p : Packet} {seq : ℕ} {q : Packet}
        → com_forwarder c ≡ generic_com_forwarder
        → 0 < length q
        → Routed c p ((seq, q) ∷ [])

  -- Every command of the protocol that has an answer gets the forwarder for it.
  pub Reply-Routed :
      {b : ℕ} {bs : List ℕ} {ps : List Numbered}
      → Reply env capabilities b bs ps
      → (c : CommandCode) × Passes b c × Routed c (b ∷ bs) ps
  Reply-Routed (results_reply h a) =
      let (c, passes, is_query, kind) = results-routed h in
      (c, passes, routed_results is_query kind a)
  Reply-Routed (rows_reply status h r) =
      let (c, passes, is_query, kind) = rows-routed h in (c, passes, routed_rows is_query kind r)
  Reply-Routed (prepare_reply a) = (stmt_prepare, prepare-Passes, routed_prepare a)
  Reply-Routed (close_reply long) = (stmt_close, close-Passes, routed_close (omega arith))
  Reply-Routed (one_reply h pos) =
      let (c, passes, generic) = one-routed h in (c, passes, routed_one generic pos)
