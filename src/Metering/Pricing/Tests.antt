-- ===== src/Metering/Pricing/Tests.antt =====
-- Prices of the built-in table.
use marginpilot.Base.{◌+◌, ◌≤◌, ℕ, codes, ◌≡◌, refl, arith, some, pos, quot, neg}
use marginpilot.Binary64.{scale, sum, to_int64, round_ℤ, round_ℕ, ulp_from, nearest}
use marginpilot.Rating.Catalog.{Rates, cost}
use marginpilot.Metering.Pricing.{builtin_cost, catalog, token_price, charge_of}
use marginpilot.Metering.Pricing.Agreement.{builtin_cost-agrees, seeded_rates}

-- 0.15 and 0.60 micros a token: 13 tokens of input and 7 of output are 6.15 micros.
builtin_cost_mini : builtin_cost (λ z. z) (codes "gpt-4o-mini") (pos 13) (pos 7) ≡ pos 6
unfolding builtin_cost catalog token_price charge_of scale sum to_int64 round_ℤ round_ℕ ulp_from
    nearest quot neg
builtin_cost_mini = refl

builtin_cost-agrees_example :
    (r : Rates) × (seeded_rates (codes "o9") ≡ some r)
    × ((c r' : ℕ) × (builtin_cost (λ z. z) (codes "o9") (pos 1000) (pos 70) ≡ pos c)
        × (cost r (pos 1000) (pos 70) ≡ pos r')
        × (r' ≤ c)
        × (c ≤ r' + 1))
builtin_cost-agrees_example =
    builtin_cost-agrees (λ z. z) (codes "o9") 1000 70 (omega arith) (omega arith)
