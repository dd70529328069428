-- ===== src/External/ClickHouse.antt =====
-- The driver clickhouse-go, as the sink uses it: an insert is a batch that is prepared, filled and
-- sent. A batch is known by a number.
use marginpilot.Base.{ℕ, Text, List, Proc}

-- The settings that the program opens a connection with.
pub record Options : Type 0 where
  pub addr : List Text
  pub database : Text

pub record Connection (W Row : Type 0) : Type 0 where
  pub prepare_batch : Proc W ℕ
  pub append : ℕ → Row → Proc W (Unit {0})
  pub send : ℕ → Proc W (Unit {0})
