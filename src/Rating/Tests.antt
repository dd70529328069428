-- ===== src/Rating/Tests.antt =====
-- The rating service over a table in memory: its theorems at concrete inputs.
use marginpilot.Base.{
  ◌+◌, ◌*◌, ◌/◌, codes, ◌≡◌, refl, arith, none, pos, ok, quot, add64, wrap64, mul64,
}
use marginpilot.External.Postgres.Memory.{Rows, memory_table, memory_table-IsTable}
use marginpilot.Rating.Catalog.{Rates, seed, seed_rows, rates, price, cost}
use marginpilot.Rating.Catalog.Pricing.{price-ok}

abbrev empty : Rows Rates
empty key = none

abbrev seeded : Rows Rates
seeded = (seed memory_table seed_rows empty).1

price-ok_example : pos 1 ≡ pos ((3 * 150_000 + 2 * 600_000) / 1_000_000)
unfolding quot add64 wrap64 mul64
price-ok_example =
    price-ok memory_table memory_table-IsTable (codes "gpt-4o-mini") 3 2 150_000 600_000 seeded
      (pos 1) (unfold seed in unfold seed_rows in refl) (omega arith)
      (unfold price in unfold seed in unfold seed_rows in refl)

price_of_unknown_model : (price memory_table (codes "o9") (pos 3) (pos 2) seeded).0 ≡ ok (pos 9)
unfolding price rates seed seed_rows cost quot add64 wrap64 mul64
price_of_unknown_model = refl
