-- ===== src/Protocol/Constants.antt =====
-- The command codes: src/proxy/src/protocol/mysql/constants.rs. The names of the constructors are the
-- source's without the `Com` in front.
mod Tests
use haentgl.Prelude.{ℕ, ◌≤◌, ◌<◌, ◌≡◌, refl, ◌⊎◌, Option, some, none, List, [], ◌∷◌, true, length}
use haentgl.Prelude.Text.{codes}
use haentgl.Prelude.Arms.{first_arm, consecutive, first_arm_cases, arms_agree, first_arm-agree}

pub data CommandCode : Type 0 where
  sleep quit init_db query field_list create_db drop_db refresh shutdown statistics process_info
        connect process_kill debug ping time delayed_insert change_user binlog_dump table_dump
        connect_out register_slave stmt_prepare stmt_execute stmt_send_long_data stmt_close
        stmt_reset set_option stmt_fetch daemon binlog_dump_gtid reset_connection end :
      CommandCode

-- The discriminants, `com as u8`.
unfoldable pub com_code : CommandCode → ℕ
com_code sleep = 0
com_code quit = 1
com_code init_db = 2
com_code query = 3
com_code field_list = 4
com_code create_db = 5
com_code drop_db = 6
com_code refresh = 7
com_code shutdown = 8
com_code statistics = 9
com_code process_info = 10
com_code connect = 11
com_code process_kill = 12
com_code debug = 13
com_code ping = 14
com_code time = 15
com_code delayed_insert = 16
com_code change_user = 17
com_code binlog_dump = 18
com_code table_dump = 19
com_code connect_out = 20
com_code register_slave = 21
com_code stmt_prepare = 22
com_code stmt_execute = 23
com_code stmt_send_long_data = 24
com_code stmt_close = 25
com_code stmt_reset = 26
com_code set_option = 27
com_code stmt_fetch = 28
com_code daemon = 29
com_code binlog_dump_gtid = 30
com_code reset_connection = 31
com_code end = 32

abbrev commands : List (ℕ × CommandCode)
commands =
    (0, sleep)
    ∷ (1, quit)
    ∷ (2, init_db)
    ∷ (3, query)
    ∷ (4, field_list)
    ∷ (5, create_db)
    ∷ (6, drop_db)
    ∷ (7, refresh)
    ∷ (8, shutdown)
    ∷ (9, statistics)
    ∷ (10, process_info)
    ∷ (11, connect)
    ∷ (12, process_kill)
    ∷ (13, debug)
    ∷ (14, ping)
    ∷ (15, time)
    ∷ (16, delayed_insert)
    ∷ (17, change_user)
    ∷ (18, binlog_dump)
    ∷ (19, table_dump)
    ∷ (20, connect_out)
    ∷ (21, register_slave)
    ∷ (22, stmt_prepare)
    ∷ (23, stmt_execute)
    ∷ (24, stmt_send_long_data)
    ∷ (25, stmt_close)
    ∷ (26, stmt_reset)
    ∷ (27, set_option)
    ∷ (28, stmt_fetch)
    ∷ (29, daemon)
    ∷ (30, binlog_dump_gtid)
    ∷ (31, reset_connection)
    ∷ (32, end)
    ∷ []

-- The derived `FromPrimitive::from_u8`.
unfoldable pub from_u8 : ℕ → Option CommandCode
from_u8 x = first_arm commands x

commands-consecutive : consecutive com_code 0 commands ≡ true
unfolding com_code
commands-consecutive = refl

-- `from_u8` gives, for every number below 33, the command with this number, and nothing for every
-- other number.
pub from_u8-com_code :
    (x : ℕ)
    → ((0 ≤ x) × (x < 33) × ((c : CommandCode) × (from_u8 x ≡ some c) × (com_code c ≡ x)))
      ⊎ (((x < 0) ⊎ (33 ≤ x)) × (from_u8 x ≡ none))
unfolding from_u8
from_u8-com_code x = first_arm_cases com_code commands 0 x commands-consecutive

-- `SqlComInfo::all_sql_com`, the names of the commands.
abbrev pub all_sql_com : List (ℕ × List ℕ)
all_sql_com =
    (0, codes "ComSleep")
    ∷ (1, codes "ComQuit")
    ∷ (2, codes "ComInitDB")
    ∷ (3, codes "ComQuery")
    ∷ (4, codes "ComFieldList")
    ∷ (5, codes "ComCreateDB")
    ∷ (6, codes "ComDropDB")
    ∷ (7, codes "ComRefresh")
    ∷ (8, codes "ComShutdown")
    ∷ (9, codes "ComStatistics")
    ∷ (10, codes "ComProcessInfo")
    ∷ (11, codes "ComConnect")
    ∷ (12, codes "ComProcessKill")
    ∷ (13, codes "ComDebug")
    ∷ (14, codes "ComPing")
    ∷ (15, codes "ComTime")
    ∷ (16, codes "ComDelayedInsert")
    ∷ (17, codes "ComChangeUser")
    ∷ (18, codes "ComBinlogDump")
    ∷ (19, codes "ComTableDump")
    ∷ (20, codes "ComConnectOut")
    ∷ (21, codes "ComRegisterSlave")
    ∷ (22, codes "ComStmtPrepare")
    ∷ (23, codes "ComStmtExecute")
    ∷ (24, codes "ComStmtSendLongData")
    ∷ (25, codes "ComStmtClose")
    ∷ (26, codes "ComStmtReset")
    ∷ (27, codes "ComSetOption")
    ∷ (28, codes "ComStmtFetch")
    ∷ (29, codes "ComDaemon")
    ∷ (30, codes "ComBinlogDumpGtid")
    ∷ (31, codes "ComResetConnection")
    ∷ (32, codes "ComEnd")
    ∷ []

unfoldable pub com_name : ℕ → Option (List ℕ)
com_name x = first_arm all_sql_com x

com_names-agree : arms_agree commands all_sql_com ≡ true
com_names-agree = refl

-- Every command has a name in the table of the commands' names.
pub from_u8-named :
    (x : ℕ) (c : CommandCode) → from_u8 x ≡ some c → (name : List ℕ) × (com_name x ≡ some name)
unfolding from_u8 com_name
from_u8-named x c e = first_arm-agree commands all_sql_com x c com_names-agree e

-- `AuthPluginName::UnKnowPluginName` as text.
abbrev pub un_know_plugin_name : List ℕ
un_know_plugin_name = codes "auth_unknown_plugin"
