-- ===== src/Startup/Billing/Success.antt =====
-- When the command of the billing service ends well.
use marginpilot.Base.{Text, ◌≡◌, ◌↔◌, refl, Proc, Result, ok, lift, continue, bind-ok}
use marginpilot.Shared.Config.{Environ}
use marginpilot.Shared.Server.{Host, run}
use marginpilot.External.Machine.{Machine}
use marginpilot.External.ClickHouse.{Options}
use marginpilot.External.Http.{HttpClient}
use marginpilot.Billing.Store
use marginpilot.Billing.Store.{Subscriptions, seed_demo, demo_rows}
use marginpilot.Billing.Cogs.{UsageSums, new_reader}
use marginpilot.Billing.Handler.{Float64}
use marginpilot.Billing.Routes.{Endpoints, register}
use marginpilot.Startup.Retry.{Pools, billing_connect}
use marginpilot.Startup.Services.{postgres_dsn}
use marginpilot.Startup.Billing.{stripe, clickhouse_addr, billing_addr, billing_main}

module _ {W F P : Type 0} (float : Float64 F) (m : Machine W) (env : Environ) (pools : Pools W P)
    (execute : P → Text → Proc W (Unit {0})) (subscriptions : P → Subscriptions W)
    (open_clickhouse : Options → Result (UsageSums W)) (client : HttpClient W)
    (host : Host W (Endpoints W F)) (w : W) where
  abbrev connected : Result P × W
  connected = billing_connect pools (postgres_dsn env) w

  abbrev migrated : P → Result (Unit {0}) × W
  migrated pool = Store.migrate (execute pool) connected.1

  abbrev pub seeded : P → W
  seeded pool = (seed_demo (subscriptions pool) demo_rows (migrated pool).1).1

  abbrev served : P → UsageSums W → Result (Unit {0}) × W
  served pool reader =
      run host (register float m (subscriptions pool) reader (stripe env client)) (billing_addr env)
        (seeded pool)

  -- What the command needs: a pool, a table, a client of ClickHouse, and a server that runs until it
  -- is told to stop and drains.
  abbrev pub Fulfilled : P → UsageSums W → Type 0
  Fulfilled pool reader =
      (connected.0 ≡ ok pool)
      × ((migrated pool).0 ≡ ok tt)
      × (new_reader open_clickhouse (clickhouse_addr env) ≡ ok reader)
      × ((served pool reader).0 ≡ ok tt)

  -- The billing command ends without an error exactly when it got a pool of connections, the
  -- migration succeeded, the client of ClickHouse was made and the server of the API ended well: a
  -- failed seeding does not show in its exit code.
  billing_main-ok :
      ((billing_main float m env pools execute subscriptions open_clickhouse client host w).0
        ≡ ok tt)
      ↔ ((pool : P) × (reader : UsageSums W) × Fulfilled pool reader)
  unfolding billing_main
  billing_main-ok = (
    (λ h.
        let (pool, made, h₁) = bind-ok (billing_connect pools (postgres_dsn env)) _ w h in
        let (u, created, h₂) = bind-ok (Store.migrate (execute pool)) _ connected.1 h₁ in
        let (reader, opened, h₃) =
          bind-ok (lift (new_reader open_clickhouse (clickhouse_addr env))) _ (seeded pool) h₂ in
        let (v, ended, h₄) = bind-ok (run host _ (billing_addr env)) _ (seeded pool) h₃ in
        (pool, reader, (made, created, opened, ended))),
    (λ (pool, reader, (made, created, opened, ended)).
        rw (made, continue, created, continue, opened, continue, ended, continue) refl),
  )
