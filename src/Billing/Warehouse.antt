-- ===== src/Billing/Warehouse.antt =====
-- What the queries of services/billing/internal/cogs/cogs.go mean on the table `usage_events`, which
-- services/metering/internal/sink/clickhouse.go fills.
pub mod Queries
pub mod Memory
use marginpilot.Base.{
  ℕ, ◌+◌, ◌%◌, ◌^◌, ◌==◌, Text, text_eq, List, [], ◌∷◌, ◌++◌, Bool, ◌&&◌, if◌then◌else◌, ◌≡◌, Proc,
  Result, ok, map, Mem, ◌⊎◌,
}
use marginpilot.External.ClickHouse.{Connection}
use marginpilot.External.Sql.{Cursor}
use marginpilot.Metering.Sink.{Row}
use marginpilot.Billing.Cogs.{UsageSums, period_int}

-- `WHERE tenant_id = ? AND customer_id = ? AND toYYYYMM(occurred_at) = ?`
unfoldable pub is_counted : Text → Text → ℕ → Row → Bool
is_counted tenant customer p r =
    text_eq r.tenant_id tenant && (text_eq r.customer_id customer && period_int r.occurred_at == p)

-- The exact sum of `cost_micros` over the rows that are counted.
unfoldable pub total : Text → Text → ℕ → List Row → ℕ
total tenant customer p [] = 0
total tenant customer p (r ∷ rs) =
    let rest = total tenant customer p rs in
    if is_counted tenant customer p r then r.cost_micros + rest else rest

-- The row of `GROUP BY customer_id` for a customer.
abbrev pub sum_of : Text → ℕ → List Row → Text → Result (Text × ℕ)
sum_of tenant p rs customer = ok (customer, total tenant customer p rs % 2 ^ 64)

-- A table of ClickHouse that is written in batches and read by the two queries. `rows w` is what the
-- table holds and `filled w b` what was appended to the batch `b` and not sent. A MergeTree keeps every
-- row, and a sum of `UInt64` wraps around. The grouped query has
-- a row for each customer with a row in the table.
pub record IsWarehouse {W : Type 0} (conn : Connection W Row) (sums : UsageSums W)
    (rows : W → List Row) (filled : W → ℕ → List Row) : Type 0 where
  pub rows-prepare : (w : W) → rows (conn.prepare_batch w).1 ≡ rows w
  pub filled-prepare :
      (b : ℕ) (w : W) → (conn.prepare_batch w).0 ≡ ok b → filled (conn.prepare_batch w).1 b ≡ []
  pub rows-append : (b : ℕ) (r : Row) (w : W) → rows (conn.append b r w).1 ≡ rows w
  pub filled-append :
      (b : ℕ) (r : Row) (w : W)
      → (conn.append b r w).0 ≡ ok tt
      → filled (conn.append b r w).1 b ≡ r ∷ filled w b
  pub rows-send :
      (b : ℕ) (w : W) → (conn.send b w).0 ≡ ok tt → rows (conn.send b w).1 ≡ filled w b ++ rows w
  pub select_customer-ok :
      (tenant customer : Text) (p n : ℕ) (w : W)
      → (sums.select_customer tenant customer p w).0 ≡ ok n
      → n ≡ total tenant customer p (rows w) % 2 ^ 64
  pub select_tenant-ok :
      (tenant : Text) (p : ℕ) (w : W) (found : Cursor (Text × ℕ))
      → (sums.select_tenant tenant p w).0 ≡ ok found
      → found.final ≡ ok tt
      → (names : List Text) × (found.items ≡ map (sum_of tenant p (rows w)) names)
        × ((customer : Text) → Mem customer names ⊎ (total tenant customer p (rows w) ≡ 0))
