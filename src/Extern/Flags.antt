-- ===== src/Extern/Flags.antt =====
-- The bit sets of `mysql_common::constants`: each set is the number of its bits, and the crate's
-- operations on it are parameters.
pub mod Bits
use haentgl.Prelude.{ℕ, ◌≡◌, Bool, Option, some}

-- The members of `CapabilityFlags` that the program tests.
pub data Capability : Type 0 where
  client_connect_with_db client_protocol_41 client_ssl client_transactions client_secure_connection
        client_plugin_auth client_connect_attrs client_plugin_auth_lenenc_client_data
        client_session_track client_deprecate_eof :
      Capability

-- The members of `StatusFlags` that the program tests.
pub data Status : Type 0 where
  server_more_results_exists server_status_cursor_exists server_session_state_changed : Status

pub record MysqlFlags : Type 0 where
  pub has_capability : ℕ → Capability → Bool
  pub has_status : ℕ → Status → Bool
  -- `from_bits_truncate`, on the 32 bits of capabilities and on the 16 bits of a status.
  pub capability_truncate : ℕ → ℕ
  pub status_truncate : ℕ → ℕ
  -- `StatusFlags::from_bits`: `none` where a bit is of no flag.
  pub status_from_bits : ℕ → Option ℕ
  pub status_from_bits_value : (b s : ℕ) → status_from_bits b ≡ some s → s ≡ b
