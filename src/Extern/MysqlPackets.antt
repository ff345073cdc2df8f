-- ===== src/Extern/MysqlPackets.antt =====
-- The packets that the `mysql_common` crate reads and writes, by the fields that the program gives
-- and takes.
use haentgl.Prelude.{ℕ, ◌<◌, Option, List, length}
use haentgl.Protocol.Packet.{Packet}

-- `ComChangeUserMoreData`.
pub record ComChangeUserMoreData : Type 0 where
  pub collation : ℕ
  pub auth_plugin : Option (List ℕ)
  pub connect_attributes : Option (List (List ℕ × List ℕ))

-- `ComChangeUser`.
pub record ComChangeUser : Type 0 where
  pub user : Option (List ℕ)
  pub auth_plugin_data : Option (List ℕ)
  pub database : Option (List ℕ)
  pub more_data : Option ComChangeUserMoreData

-- What the program takes from a `HandshakeResponse` of the crate.
pub record ClientResponse : Type 0 where
  pub scramble_buf : List ℕ
  pub db_name : Option (List ℕ)
  pub capabilities : ℕ
  pub connect_attributes : Option (List (List ℕ × List ℕ))

-- The arguments of `HandshakeResponse::new`.
pub record ResponseArguments : Type 0 where
  pub scramble_buf : Option (List ℕ)
  pub server_version : ℕ × ℕ × ℕ
  pub user : Option (List ℕ)
  pub db_name : Option (List ℕ)
  pub auth_plugin : Option (List ℕ)
  pub capabilities : ℕ
  pub connect_attributes : Option (List (List ℕ × List ℕ))
  pub max_packet_size : ℕ

pub record MysqlPackets : Type 0 where
  -- `ErrPacket::deserialize` under the client's capabilities; `none` is its error.
  pub parse_err : ℕ → Packet → Option (Unit {0})
  -- The message of `ErrPacket::deserialize` under the proxy's capabilities; `none` is a panic, of
  -- `deserialize`, of `server_error` or of `String::from_utf8`.
  pub refusal : Packet → Option (List ℕ)
  -- `ComChangeUser::deserialize` under the client's capabilities, and `serialize`, which begins with
  -- the command's code.
  pub parse_change_user : ℕ → Packet → Option ComChangeUser
  pub serialize_change_user : ComChangeUser → Packet
  pub length-serialize_change_user : (c : ComChangeUser) → 0 < length (serialize_change_user c)
  -- `HandshakeResponse::deserialize`, and `new` and `serialize`, which begins with the capabilities.
  pub parse_response : Packet → Option ClientResponse
  pub serialize_response : ResponseArguments → Packet
  pub length-serialize_response : (a : ResponseArguments) → 0 < length (serialize_response a)
