-- ===== src/System/Tests/Billed.antt =====
-- Two events over one Redis and one table in memory: what billing answers is what the budget reads.
use marginpilot.Base.{
  Text, codes, [], ◌∷◌, ◌≡◌, refl, sym, arith, inl, pos, ◌+ℤ◌, Result, ok, err, canceled,
  ok-injective, wrap64,
}
use marginpilot.Base.Decimal.{pad, print_ℤ, parse_ℤ}
use marginpilot.Shared.Calendar.{year, month}
use marginpilot.Shared.Events.{UsageEvent}
use marginpilot.Shared.Spend
use marginpilot.External.Machine.{Machine, frozen}
use marginpilot.External.Redis.{Redis, IsRedis, counter}
use marginpilot.External.Redis.Memory.{Memory, memory_redis, memory_redis-IsRedis}
use marginpilot.External.Redis.Shared.{shared_redis, shared_redis-IsRedis}
use marginpilot.External.ClickHouse.{Connection}
use marginpilot.Metering.Pricer.{Pricer}
use marginpilot.Metering.Sink.{Row, insert, row_of, to_unsigned}
use marginpilot.Metering.Consumer.{handle, charge}
use marginpilot.Metering.Consumer.Accounting.{IsApart}
use marginpilot.Billing.Cogs.{UsageSums, period_int, customer_cost, by_customer, cost_of}
use marginpilot.Billing.Warehouse.{IsWarehouse, is_counted, total}
use marginpilot.Billing.Warehouse.Memory.{
  Tables, memory_tables, memory_sums, memory_tables-IsWarehouse,
}
use marginpilot.Billing.Warehouse.Queries.{by_customer-customer_cost}
use marginpilot.System.Ledger.{HasPrice}
use marginpilot.System.Books.{IsBeside}
use marginpilot.System.Invoices.{Booked, done, metered, uncounted, billed, customer_cost-Booked}
use marginpilot.System.Reconciled.{customer_cost-counter}
use marginpilot.System.Tests.{noon, nothing, event, ten}

abbrev World : Type 0
World = Memory × Tables

abbrev put : Tables → World → World
put t w = (w.0, t)

abbrev table : Connection World Row
table = memory_tables (λ (w : World). w.1) put (λ t w. refl)

abbrev sums : UsageSums World
sums = memory_sums (λ (w : World). w.1) put (λ t w. refl)

abbrev redis : Redis World
redis = shared_redis Tables memory_redis

abbrev laws : IsRedis redis (λ (w : World). w.0)
laws = shared_redis-IsRedis Tables memory_redis memory_redis-IsRedis

abbrev stored : IsWarehouse table sums (λ w. w.1.stored) (λ w b. w.1.batch)
stored = memory_tables-IsWarehouse (λ (w : World). w.1) put (λ t w. refl)

abbrev dear : Pricer World
dear model i o w = (ok (pos 10), w)

abbrev machine : Machine World
machine = frozen noon (codes "id")

dear-HasPrice : HasPrice dear ten
dear-HasPrice e w c h = sym (ok-injective h)

apart : IsApart dear table (λ (w : World). w.0)
apart = record {
  lookup-pricer = λ model i o k w. refl;
  lookup-prepare = λ k w. refl;
  lookup-append = λ b row k w. refl;
  lookup-send = λ b k w. refl;
}

beside : IsBeside dear redis machine (λ (w : World). w.1.stored)
beside = record {
  rows-pricer = λ model i o w. refl;
  rows-incr_by = λ k n w. refl;
  rows-expire = λ k ttl w. refl;
  rows-now = λ w. refl;
}

abbrev unmarshal : Text → Result UsageEvent
unmarshal b = ok event

abbrev start : World
start = (nothing, record { stored = []; batch = [] })

abbrev handled : World → World
handled w = (handle unmarshal dear table redis [] w).1

abbrev counter_key : Text
counter_key = Spend.key (codes "acme") (codes "c1") noon

history :
    Booked unmarshal dear table redis machine stored beside laws apart ten
      (codes "acme")
      (codes "c1")
      counter_key
      start
      (event ∷ event ∷ [])
      []
      (handled (handled start))
unfolding handle charge insert row_of to_unsigned Spend.key Spend.period pad year month counter
    parse_ℤ print_ℤ customer_cost by_customer total is_counted period_int
history =
    metered [] event (event ∷ []) [] start _ refl refl
      (metered [] event [] [] (handled start) _ refl refl (done _))

customer_cost-Booked_example :
    pos 20
    ≡ wrap64 (
        pos (total (codes "acme") (codes "c1") (period_int noon) [])
        +ℤ billed ten (codes "acme") (codes "c1") (period_int noon) (event ∷ event ∷ []))
unfolding handle charge insert row_of to_unsigned Spend.key Spend.period pad year month counter
    parse_ℤ print_ℤ customer_cost by_customer total is_counted period_int
customer_cost-Booked_example =
    customer_cost-Booked unmarshal dear table redis machine stored beside laws apart ten
      (codes "acme") (codes "c1") counter_key start (handled (handled start)) (event ∷ event ∷ [])
      [] (pos 20) dear-HasPrice history refl

-- A Redis that takes no increment.
abbrev deaf : Redis World
deaf = record redis { incr = λ k w. (err canceled, w); incr_by = λ k n w. (err canceled, w) }

deaf-IsRedis : IsRedis deaf (λ (w : World). w.0)
deaf-IsRedis = record {
  get-ok = laws.get-ok;
  get-nil = laws.get-nil;
  lookup-get = laws.lookup-get;
  lookup-expire = laws.lookup-expire;
  lookup-set = laws.lookup-set;
  incr_by-ok = λ k n m w h. cc h;
  lookup-incr_by = λ k n m j w h. cc h;
  incr_lem = λ k w. refl;
  incr-err = λ k w e h. inl refl;
}

deaf_beside : IsBeside dear deaf machine (λ (w : World). w.1.stored)
deaf_beside = record {
  rows-pricer = λ model i o w. refl;
  rows-incr_by = λ k n w. refl;
  rows-expire = λ k ttl w. refl;
  rows-now = λ w. refl;
}

abbrev missed : World
missed = (handle unmarshal dear table deaf [] start).1

-- The row of the event is stored, and its increment fails.
missed_history :
    Booked unmarshal dear table deaf machine stored deaf_beside deaf-IsRedis apart ten
      (codes "acme")
      (codes "c1")
      counter_key
      start
      (event ∷ [])
      (event ∷ [])
      missed
unfolding handle charge insert row_of to_unsigned
missed_history = uncounted [] event canceled [] [] start _ refl refl refl refl (done _)

customer_cost-counter_example :
    pos 10
    ≡ counter (missed.0 counter_key)
      +ℤ billed ten (codes "acme") (codes "c1") (period_int noon) (event ∷ [])
unfolding handle charge insert row_of to_unsigned Spend.key Spend.period pad year month counter
    parse_ℤ print_ℤ customer_cost by_customer total is_counted period_int
customer_cost-counter_example =
    customer_cost-counter unmarshal dear table deaf machine stored deaf_beside deaf-IsRedis apart
      ten (codes "acme") (codes "c1") start missed (event ∷ []) (event ∷ []) (pos 10) dear-HasPrice
      (ground arith) (ground arith) (ground arith) (ground arith) missed_history refl (ground arith)
      refl

by_customer-customer_cost_example :
    cost_of ((codes "c1", pos 20) ∷ (codes "c1", pos 20) ∷ []) (codes "c1") ≡ pos 20
unfolding handle charge insert row_of to_unsigned Spend.key Spend.period pad year month counter
    parse_ℤ print_ℤ customer_cost by_customer total is_counted period_int
by_customer-customer_cost_example =
    by_customer-customer_cost sums stored machine (codes "acme") (codes "c1")
      (handled (handled start)) ((codes "c1", pos 20) ∷ (codes "c1", pos 20) ∷ []) (pos 20) refl
      refl
