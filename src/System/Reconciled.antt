-- ===== src/System/Reconciled.antt =====
-- That an invoice and the budget agree.
use marginpilot.Base.{
  ℕ, ◌<◌, Text, Lacks, ◌≡◌, sym, ap, ◌∙◌, List, All, Option, ℤ, pos, ◌+ℤ◌, +ℤ_assoc, wrap64,
  IsInt64, wrap64_of_IsInt64, Result, ok,
}
use marginpilot.Shared.Calendar.{year}
use marginpilot.Shared.Events.{UsageEvent}
use marginpilot.Shared.Spend
use marginpilot.External.Machine.{Machine}
use marginpilot.External.Redis.{Redis, IsRedis, counter}
use marginpilot.External.ClickHouse.{Connection}
use marginpilot.Metering.Pricer.{Pricer}
use marginpilot.Metering.Sink.{Row}
use marginpilot.Metering.Consumer.Accounting.{IsApart}
use marginpilot.Billing.Cogs.{UsageSums, period_int, customer_cost}
use marginpilot.Billing.Warehouse.{IsWarehouse, total}
use marginpilot.System.Ledger.{HasPrice, charged, counter-History}
use marginpilot.System.Books.{IsBeside}
use marginpilot.System.Invoices.{
  IsPlain, Booked, billed, charged-billed, counted, customer_cost-Booked,
}

module _ {W : Type 0} (unmarshal : Text → Result UsageEvent) (pricer : Pricer W)
    (ch : Connection W Row) (rdb : Redis W) (m : Machine W) {sums : UsageSums W}
    {rows : W → List Row} {filled : W → ℕ → List Row} {lookup : W → Text → Option Text}
    (stored : IsWarehouse ch sums rows filled) (beside : IsBeside pricer rdb m rows)
    (laws : IsRedis rdb lookup) (apart : IsApart pricer ch lookup) (price : UsageEvent → ℤ)
    (tenant customer : Text) where
  -- On a ClickHouse and a Redis that keep their laws, beside a pricer that has a price for each event:
  -- if the rows and the spend counter of a customer's month agreed once, then after a history of
  -- metering the cost that billing answers in that month is the counter that the budget reads and the
  -- prices of those of the customer's events of that month whose row was stored but whose increment
  -- was not made, because handling failed between the two; so they agree if every message was handled
  -- with success. The sum fits an `int64`, tenants have no colon and years four digits.
  pub customer_cost-counter :
      (w w' : W) (es us : List UsageEvent) (c : ℤ)
      → HasPrice pricer price
      → Lacks b':' tenant
      → year (m.now w').0 < 10000
      → All IsPlain es
      → All IsPlain us
      → (let k = Spend.key tenant customer (m.now w').0 in
          Booked unmarshal pricer ch rdb m stored beside laws apart price tenant customer k w es us
            w')
      → counter (lookup w (Spend.key tenant customer (m.now w').0))
        ≡ pos (total tenant customer (period_int (m.now w').0) (rows w))
      → (let uncounted = billed price tenant customer (period_int (m.now w').0) us in
          IsInt64 (counter (lookup w' (Spend.key tenant customer (m.now w').0)) +ℤ uncounted))
      → (customer_cost sums m tenant customer w').0 ≡ ok c
      → c
        ≡ counter (lookup w' (Spend.key tenant customer (m.now w').0))
          +ℤ billed price tenant customer (period_int (m.now w').0) us
  customer_cost-counter w w' es us c priced plain years all_plain us_plain history start fits
        asked =
      let u = (m.now w').0 in
      let k = Spend.key tenant customer u in
      let p = period_int u in
      let before = pos (total tenant customer p (rows w)) in
      let missed = billed price tenant customer p us in
      let (cs, booked, split) =
        counted unmarshal pricer ch rdb m stored beside laws apart price tenant customer k w w' es
          us history in
      let parts : charged price k cs +ℤ missed ≡ billed price tenant customer p es =
        ap (λ (z : ℤ). charged price k cs +ℤ z)
          (sym (charged-billed price tenant customer u us plain years us_plain))
        ∙ split
        ∙ charged-billed price tenant customer u es plain years all_plain in
      let spent : counter (lookup w' k) +ℤ missed ≡ before +ℤ billed price tenant customer p es =
        ap (λ (z : ℤ). z +ℤ missed)
          (counter-History unmarshal pricer ch rdb laws apart price k w w' cs priced booked
            ∙ ap (λ (z : ℤ). z +ℤ charged price k cs) start)
        ∙ +ℤ_assoc before (charged price k cs) missed
        ∙ ap (λ (z : ℤ). before +ℤ z) parts in
      customer_cost-Booked unmarshal pricer ch rdb m stored beside laws apart price tenant customer
        k w w' es us c priced history asked
      ∙ ap wrap64 (sym spent)
      ∙ wrap64_of_IsInt64 (counter (lookup w' k) +ℤ missed) fits
