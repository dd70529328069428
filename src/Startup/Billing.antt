-- ===== src/Startup/Billing.antt =====
-- `main` of services/billing/cmd/billing. Ending with an error is `os.Exit(1)`, which leaves out the
-- deferred close of the pool; opening ClickHouse is a parameter.
pub mod Success
use marginpilot.Base.{Text, codes, [], Option, Proc, Result, pure, lift, attempt, ◌>>=◌, ◌>>◌}
use marginpilot.Shared.Config.{Environ}
use marginpilot.Shared.Config
use marginpilot.Shared.Server.{Host}
use marginpilot.Shared.Server as Httpx
use marginpilot.External.Machine.{Machine}
use marginpilot.External.ClickHouse.{Options}
use marginpilot.External.Http.{HttpClient}
use marginpilot.Billing.Store
use marginpilot.Billing.Store.{Subscriptions, seed_demo, demo_rows}
use marginpilot.Billing.Cogs.{UsageSums, new_reader}
use marginpilot.Billing.Exporter.{Exporter, new_exporter}
use marginpilot.Billing.Handler.{Float64}
use marginpilot.Billing.Routes.{Endpoints, register}
use marginpilot.Startup.Retry.{Pools, billing_connect}
use marginpilot.Startup.Services.{change, postgres_dsn}

module _ (env : Environ) where
  abbrev pub stripe : {W : Type 0} → HttpClient W → Exporter W
  stripe client =
      new_exporter client (Config.get env (codes "STRIPE_API_KEY") [])
        (Config.get env (codes "STRIPE_METER_NAME") (codes "ai_usage"))

  abbrev pub clickhouse_addr : Text
  clickhouse_addr = Config.get env (codes "CLICKHOUSE_ADDR") (codes "localhost:9000")

  abbrev pub billing_addr : Text
  billing_addr = Config.get env (codes "BILLING_ADDR") (codes ":8085")

module _ {W F P : Type 0} (float : Float64 F) (m : Machine W) (env : Environ) (pools : Pools W P)
    (execute : P → Text → Proc W (Unit {0})) (subscriptions : P → Subscriptions W)
    (open_clickhouse : Options → Result (UsageSums W)) (client : HttpClient W)
    (host : Host W (Endpoints W F)) where
  unfoldable pub billing_main : Proc W (Unit {0})
  billing_main = do
    pool ← billing_connect pools (postgres_dsn env)
    let subs = subscriptions pool
    Store.migrate (execute pool)
    attempt (seed_demo subs demo_rows)
    reader ← lift (new_reader open_clickhouse (clickhouse_addr env))
    Httpx.run host (register float m subs reader (stripe env client)) (billing_addr env)
    change (pools.close pool)
