-- ===== src/Billing/Cogs.antt =====
-- services/billing/internal/cogs/cogs.go. A Go map is an association list, the newest entry first.
pub mod Months
use marginpilot.Base.{
  ℕ, ◌+◌, ◌*◌, ◌%◌, ◌^◌, Text, codes, text_eq, List, [], ◌∷◌, if◌then◌else◌, ℤ, pos, wrap64, Proc,
  Result, ok, err, pure, lift, always, ◌>>=◌, ◌>>◌,
}
use marginpilot.Shared.Calendar.{Time, year, month}
use marginpilot.External.Machine.{Machine}
use marginpilot.External.ClickHouse.{Options}
use marginpilot.External.Sql.{Cursor}

-- The two queries on `usage_events`: the sums of `cost_micros` of a tenant's customers in a month,
-- and of one customer. A month is a number such as 202607, and a sum an unsigned 64-bit number.
pub record UsageSums (W : Type 0) : Type 0 where
  pub select_tenant : Text → ℕ → Proc W (Cursor (Text × ℕ))
  pub select_customer : Text → Text → ℕ → Proc W ℕ

-- `NewReader`, over the opening of a connection
unfoldable pub new_reader : {C : Type 0} → (Options → Result C) → Text → Result C
new_reader open_with addr = open_with (record { addr = addr ∷ []; database = codes "default" })

-- `int64(micros)`
unfoldable pub to_signed : ℕ → ℤ
unfolding wrap64
to_signed n = wrap64 (pos n)

-- `periodInt`
unfoldable pub period_int : Time → ℕ
period_int t = (year t * 100 + month t) % 2 ^ 32

-- The loop over the rows of `ByCustomer`, which fills the map.
unfoldable pub tally :
    List (Text × ℤ) → List (Result (Text × ℕ)) → Result (Unit {0}) → Result (List (Text × ℤ))
unfolding to_signed
tally out [] (ok _) = ok out
tally out [] (err e) = err e
tally out (ok (customer, micros) ∷ rows) final =
    tally ((customer, to_signed micros) ∷ out) rows final
tally out (err e ∷ rows) final = err e

-- `costs[customer]`, 0 where the map lacks it
unfoldable pub cost_of : List (Text × ℤ) → Text → ℤ
cost_of [] customer = pos 0
cost_of ((name, micros) ∷ costs) customer =
    if text_eq name customer then micros else cost_of costs customer

module _ {W : Type 0} (ch : UsageSums W) (m : Machine W) where
  -- `ByCustomer`
  unfoldable pub by_customer : Text → Proc W (List (Text × ℤ))
  unfolding tally period_int
  by_customer tenant = do
    t ← always m.now
    rows ← ch.select_tenant tenant (period_int t)
    lift (tally [] rows.items rows.final)

  -- `Customer`
  unfoldable pub customer_cost : Text → Text → Proc W ℤ
  unfolding to_signed period_int
  customer_cost tenant customer = do
    t ← always m.now
    micros ← ch.select_customer tenant customer (period_int t)
    pure (to_signed micros)
