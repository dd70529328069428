-- ===== src/Billing/Store.antt =====
-- services/billing/internal/store/store.go
use marginpilot.Base.{
  ℕ, Text, codes, List, [], ◌∷◌, ◌++◌, Option, none, some, Bool, true, false, if◌then◌else◌, ℤ, pos,
  Proc, Result, Error, ok, err, no_rows, pure, lift, attempt, ◌>>=◌, ◌>>◌,
}
use marginpilot.External.Sql.{Cursor, statement}

pub record Subscription : Type 0 where
  pub customer_id : Text
  pub plan : Text
  pub revenue_micros : ℤ

-- The statements on the table `subscriptions`: the rows of a tenant by customer, one row, and an
-- insert with ON CONFLICT DO NOTHING.
pub record Subscriptions (W : Type 0) : Type 0 where
  pub select_tenant : Text → Proc W (Cursor Subscription)
  pub select_one : Text → Text → Proc W Subscription
  pub insert : Text → Subscription → Proc W (Unit {0})

-- The statement of `Migrate`.
unfoldable pub create_table : Text
create_table = statement (
    "CREATE TABLE IF NOT EXISTS subscriptions (" ∷ "    tenant_id      TEXT NOT NULL,"
    ∷ "    customer_id    TEXT NOT NULL," ∷ "    plan           TEXT NOT NULL,"
    ∷ "    revenue_micros BIGINT NOT NULL," ∷ "    PRIMARY KEY (tenant_id, customer_id)" ∷ ")" ∷ [])

-- `Migrate`, over the execution of a statement
unfoldable pub migrate : {W : Type 0} → (Text → Proc W (Unit {0})) → Proc W (Unit {0})
migrate execute = execute create_table

abbrev demo : Text → Text → Text → ℕ → Text × Subscription
demo tenant customer plan revenue =
    (tenant, record { customer_id = customer; plan = plan; revenue_micros = pos revenue })

-- The rows of `Seed`.
unfoldable pub demo_rows : List (Text × Subscription)
demo_rows =
    demo (codes "demo-tenant") (codes "acme-inc") (codes "pro") 99_000_000
    ∷ demo (codes "demo-tenant") (codes "globex") (codes "starter") 29_000_000
    ∷ demo (codes "northwind") (codes "north-sales") (codes "scale") 199_000_000
    ∷ demo (codes "northwind") (codes "north-support") (codes "starter") 49_000_000
    ∷ []

-- The loop over the rows of a query, with the rows read so far.
unfoldable pub scan : {R : Type 0} → List R → List (Result R) → Result (Unit {0}) → Result (List R)
scan out [] (ok _) = ok out
scan out [] (err e) = err e
scan out (ok r ∷ rs) final = scan (out ++ r ∷ []) rs final
scan out (err e ∷ rs) final = err e

abbrev is_no_rows : Error → Bool
is_no_rows no_rows = true
is_no_rows _ = false

-- The subscription and whether it was found, as an option.
unfoldable pub found_one : Result Subscription → Result (Option Subscription)
found_one (ok s) = ok (some s)
found_one (err e) = if is_no_rows e then ok none else err e

module _ {W : Type 0} (db : Subscriptions W) where
  -- `Seed`, over the rows that are left
  unfoldable pub seed_demo : List (Text × Subscription) → Proc W (Unit {0})
  seed_demo [] = pure tt
  seed_demo ((tenant, s) ∷ rest) = db.insert tenant s >> seed_demo rest

  -- `List`
  unfoldable pub list : Text → Proc W (List Subscription)
  unfolding scan
  list tenant = do rows ← db.select_tenant tenant; lift (scan [] rows.items rows.final)

  -- `Get`
  unfoldable pub get : Text → Text → Proc W (Option Subscription)
  unfolding found_one
  get tenant customer = do r ← attempt (db.select_one tenant customer); lift (found_one r)
