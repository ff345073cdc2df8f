-- ===== src/Server/Environment.antt =====
-- The code outside the repository that the server calls.
use haentgl.Prelude.{ℕ, Option, List}
use haentgl.Extern.Winnow.{Winnow}
use haentgl.Extern.ByteOrder.{ByteOrder}
use haentgl.Extern.Flags.{MysqlFlags}
use haentgl.Extern.MysqlPackets.{MysqlPackets}

pub record Environment : Type 0 where
  pub winnow : Winnow
  pub flags : MysqlFlags
  pub order : ByteOrder
  -- `std::str::from_utf8`, with `none` for its error.
  pub from_utf8 : List ℕ → Option (List ℕ)
  pub packets : MysqlPackets
  -- `String::from_utf8_lossy`.
  pub utf8_lossy : List ℕ → List ℕ
