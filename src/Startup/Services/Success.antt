-- ===== src/Startup/Services/Success.antt =====
-- When the command of the rating service ends well.
use marginpilot.Base.{Text, ◌≡◌, ◌↔◌, refl, Proc, Result, ok, continue, bind-ok}
use marginpilot.Shared.Config.{Environ}
use marginpilot.Shared.Server.{Host}
use marginpilot.External.Postgres.{Table}
use marginpilot.Contract.Rating.{PriceRequest, PriceResponse}
use marginpilot.Rating.Catalog
use marginpilot.Rating.Catalog.{Rates, seed, seed_rows}
use marginpilot.Startup.Retry.{Pools, rating_connect}
use marginpilot.Startup.Services.{GrpcHost, postgres_dsn, serve_grpc, rating_addr, rating_main}

module _ {W P : Type 0} (env : Environ) (host : Host W (Unit {0})) (pools : Pools W P)
    (execute : P → Text → Proc W (Unit {0})) (prices : P → Table W Rates)
    (grpc : GrpcHost W (PriceRequest → Proc W PriceResponse)) (w : W) where
  abbrev connected : Result P × W
  connected = rating_connect pools (postgres_dsn env) w

  abbrev migrated : P → Result (Unit {0}) × W
  migrated pool = Catalog.migrate (execute pool) connected.1

  abbrev pub seeded : P → W
  seeded pool = (seed (prices pool) seed_rows (migrated pool).1).1

  -- What the command needs: a pool, a table, and its gRPC port once the table was seeded.
  abbrev pub Ready : P → Type 0
  Ready pool =
      (connected.0 ≡ ok pool)
      × ((migrated pool).0 ≡ ok tt)
      × ((grpc.listen (rating_addr env host pools execute) (seeded pool)).0 ≡ ok tt)

  -- The rating command ends without an error exactly when it got a pool of connections, the
  -- migration succeeded and its gRPC port could be opened: neither a failed seeding nor a failure of
  -- the server of /healthz shows in its exit code.
  rating_main-ok :
      ((rating_main env host pools execute prices grpc w).0 ≡ ok tt) ↔ ((pool : P) × Ready pool)
  unfolding rating_main serve_grpc
  rating_main-ok = (
    (λ h.
        let (pool, made, h₁) = bind-ok (rating_connect pools (postgres_dsn env)) _ w h in
        let (u, created, h₂) = bind-ok (Catalog.migrate (execute pool)) _ connected.1 h₁ in
        let (v, served, h₃) = bind-ok (serve_grpc env host grpc _ _ _) _ (seeded pool) h₂ in
        let (x, listening, h₄) = bind-ok (grpc.listen _) _ (seeded pool) served in
        (pool, (made, created, listening))),
    (λ (pool, (made, created, listening)).
        rw (made, continue, created, continue, listening, continue) refl),
  )
