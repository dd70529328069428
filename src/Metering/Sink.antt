-- ===== src/Metering/Sink.antt =====
-- services/metering/internal/sink/clickhouse.go
use marginpilot.Base.{
  ℕ, ◌-◌, ◌%◌, ◌^◌, Text, codes, [], ◌∷◌, Result, ℤ, pos, negsuc, Proc, ◌>>=◌, ◌>>◌,
}
use marginpilot.Shared.Calendar.{Time}
use marginpilot.Shared.Events.{UsageEvent}
use marginpilot.External.Sql.{statement}
use marginpilot.External.ClickHouse.{Connection, Options}

-- `NewClickHouse`, over the opening of a connection
unfoldable pub new_clickhouse : {C : Type 0} → (Options → Result C) → Text → Result C
new_clickhouse open_with addr = open_with (record { addr = addr ∷ []; database = codes "default" })

-- The table `usage_events` of `EnsureSchema`.
pub record Row : Type 0 where
  pub event_id : Text
  pub tenant_id : Text
  pub customer_id : Text
  pub feature : Text
  pub provider : Text
  pub model : Text
  pub input_tokens : ℕ
  pub output_tokens : ℕ
  pub cost_micros : ℕ
  pub latency_ms : ℕ
  pub occurred_at : Time

-- The statement of `EnsureSchema`.
unfoldable pub create_table : Text
create_table = statement (
    "CREATE TABLE IF NOT EXISTS usage_events (" ∷ "    event_id      String,"
    ∷ "    tenant_id     String," ∷ "    customer_id   String," ∷ "    feature       String,"
    ∷ "    provider      String," ∷ "    model         String," ∷ "    input_tokens  UInt32,"
    ∷ "    output_tokens UInt32," ∷ "    cost_micros   UInt64," ∷ "    latency_ms    UInt32,"
    ∷ "    occurred_at   DateTime64(3, 'UTC')" ∷ ") ENGINE = MergeTree"
    ∷ "ORDER BY (tenant_id, customer_id, occurred_at)" ∷ [])

-- `EnsureSchema`, over the execution of a statement
unfoldable pub ensure_schema : {W : Type 0} → (Text → Proc W (Unit {0})) → Proc W (Unit {0})
ensure_schema execute = execute create_table

-- Go's conversion of an integer to an unsigned one of `bits` bits.
unfoldable pub to_unsigned : ℕ → ℤ → ℕ
to_unsigned bits (pos n) = n % 2 ^ bits
to_unsigned bits (negsuc n) = 2 ^ bits - 1 - n % 2 ^ bits

-- The arguments of `Append`.
unfoldable pub row_of : UsageEvent → ℤ → Row
row_of e cost = record {
  event_id = e.event_id;
  tenant_id = e.tenant_id;
  customer_id = e.customer_id;
  feature = e.feature;
  provider = e.provider;
  model = e.model;
  input_tokens = to_unsigned 32 e.input_tokens;
  output_tokens = to_unsigned 32 e.output_tokens;
  cost_micros = to_unsigned 64 cost;
  latency_ms = to_unsigned 32 e.latency_ms;
  occurred_at = e.occurred_at;
}

-- `Insert`
unfoldable pub insert : {W : Type 0} → Connection W Row → UsageEvent → ℤ → Proc W (Unit {0})
insert conn e cost = do
  batch ← conn.prepare_batch
  conn.append batch (row_of e cost)
  conn.send batch
