-- ===== src/Shared/Spend.antt =====
-- shared/spend/spend.go: the key under which metering accumulates and budget reads a customer's
-- spend of a calendar month.
pub mod Keys
use marginpilot.Base.{Text, codes, List, ◌∷◌, ◌++◌}
use marginpilot.Base.Decimal.{pad}
use marginpilot.Shared.Calendar.{Time, year, month}

-- `Period`: the layout "200601" is a four digit year and a two digit month.
unfoldable pub period : Time → Text
period t = pad 4 (year t) ++ pad 2 (month t)

-- `Key`
unfoldable pub key : Text → Text → Time → Text
key tenant customer t = codes "spend:" ++ (tenant ++ b':' ∷ (customer ++ b':' ∷ period t))
