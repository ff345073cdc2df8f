-- ===== src/Extern/Flags/Bits.antt =====
-- Concrete bit sets, for runs: a flag is tested by its bit, and every bit is a flag.
use haentgl.Prelude.{ℕ, ◌/◌, ◌%◌, ◌^◌, ◌≡◌, Bool, some, ◌==◌}
use haentgl.Extern.Flags.{
  Capability, client_connect_with_db, client_protocol_41, client_ssl, client_transactions,
  client_secure_connection, client_plugin_auth, client_connect_attrs,
  client_plugin_auth_lenenc_client_data, client_session_track, client_deprecate_eof, Status,
  server_more_results_exists, server_status_cursor_exists, server_session_state_changed, MysqlFlags,
}

abbrev capability_bit : Capability → ℕ
capability_bit client_connect_with_db = 3
capability_bit client_protocol_41 = 9
capability_bit client_ssl = 11
capability_bit client_transactions = 13
capability_bit client_secure_connection = 15
capability_bit client_plugin_auth = 19
capability_bit client_connect_attrs = 20
capability_bit client_plugin_auth_lenenc_client_data = 21
capability_bit client_session_track = 23
capability_bit client_deprecate_eof = 24

abbrev status_bit : Status → ℕ
status_bit server_more_results_exists = 3
status_bit server_status_cursor_exists = 6
status_bit server_session_state_changed = 14

abbrev has_bit : ℕ → ℕ → Bool
has_bit bits n = bits / 2 ^ n % 2 == 1

pub some_value : (b s : ℕ) → some b ≡ some s → s ≡ b
some_value b s e = cc

abbrev pub flag_bits : MysqlFlags
flag_bits = record {
  has_capability = λ bits c. has_bit bits (capability_bit c);
  has_status = λ bits s. has_bit bits (status_bit s);
  capability_truncate = λ bits. bits;
  status_truncate = λ bits. bits;
  status_from_bits = λ bits. some bits;
  status_from_bits_value = some_value;
}
