-- ===== src/Billing/Cogs/Months.antt =====
-- That billing, metering and budget mean the same month and the same cost.
use marginpilot.Base.{◌<◌, ◌≡◌, arith, ℤ, pos, negsuc, wrap64, IsInt64}
use marginpilot.Base.Decimal.{value}
use marginpilot.Shared.Calendar.{Time, year, month_bounds}
use marginpilot.Shared.Spend.{period}
use marginpilot.Shared.Spend.Keys.{value-period}
use marginpilot.Metering.Sink.{to_unsigned}
use marginpilot.Billing.Cogs.{period_int, to_signed}

-- The month that billing sums is the one whose label the spend key carries, read as a number, for
-- years below 42949672.
pub value-period_int : (t : Time) → year t < 42_949_672 → value 0 (period t) ≡ period_int t
unfolding period_int
value-period_int t h = omega (arith, value-period t, month_bounds t)

-- A cost that fits an `int64`, negative ones included, is read back by billing as metering stored
-- it, if it is alone in its sum.
to_signed-to_unsigned : (cost : ℤ) → IsInt64 cost → to_signed (to_unsigned 64 cost) ≡ cost
unfolding to_signed to_unsigned wrap64
to_signed-to_unsigned (pos n) h = ground arith
to_signed-to_unsigned (negsuc n) h = ground arith
