-- ===== src/Lib.antt =====
-- marginpilot: a gateway in front of language models that meters what each customer costs and
-- stops a customer who is over budget. The repository is a set of Go services; this library models
-- their logic and proves what makes it correct.
--
-- The parts and how they interact. A chat request reaches the gateway (services/gateway), which
-- finds out the caller by an API key (services/identity), asks its response cache, asks the budget
-- (services/budget), calls a provider and publishes a usage event. Metering (services/metering)
-- reads the events, prices each through rating (services/rating), stores a row in ClickHouse and
-- adds the price to a counter in Redis. Budget reads that counter under the same key
-- (shared/spend), and alerts when it refuses a call; the notifier (services/notifier) delivers the
-- alerts. Billing (services/billing) sums the rows into invoices; the dashboard shows them.
--
-- How the code is modelled. A Go function with a context and an error is a `Proc W A`: a function
-- from the outside world `W` to a result and the world left, so effects before an error stay made
-- (Base/Effects). What the program calls and does not implement (Redis, Kafka, PostgreSQL,
-- ClickHouse, HTTP, the clock and the random source, JSON, SHA-256, gRPC, the unescaping of paths,
-- listening, signals, starting a goroutine, the float64 of billing's margins) is a parameter:
-- External has a record of calls for most, with the documented laws a theorem uses and an instance
-- in memory that meets them. Go's `int64` is an integer with its wrap-around written out
-- (Base/Int); a string is a list of code points (Base/Strings); an instant counts nanoseconds
-- (Shared/Calendar). Log lines are left out.
--
-- The files.
--   Base               shared types, integers, texts, decimal printing and parsing, effects
--   Shared             shared/events, shared/config, shared/spend, shared/httpx (Server), and
--                      calendar months
--   Regexp             Go's package regexp, for the expressions of the guardrail
--   Binary64           Go's float64, for the built-in prices of metering
--   Contract           the messages of proto/gen
--   External           interfaces of drivers and libraries, the routing of net/http (Mux) and
--                      encoding/hex (Hex)
--   Gateway            services/gateway/internal: Service is app/service.go (Proxy, emit),
--                      Fingerprint its cacheKey, Http and Routes are adapter/inbound/httpapi, Echo,
--                      Guardrail (guardrail/policy.go) and Adapters are adapter/outbound
--   Budget             services/budget/internal: Enforcer, Store (adapter/redisstore), Server
--                      (adapter/grpcserver), Alerter; Refinement is the service over Redis
--   Metering           services/metering/internal: Consumer (Run, handle), Sink, Pricer, Pricing
--                      (pricing/pricing.go and adapter/pricer/builtin.go)
--   Rating             services/rating/internal: Catalog (Seed, rates, Price), Server
--   Identity           services/identity/internal: Store (Seed, Resolve, Hash), Server
--   Billing            services/billing/internal: Store, Cogs, Exporter, Handler, Routes
--                      (Register); Warehouse is what its queries mean on the rows that metering
--                      writes
--   Notifier           services/notifier/internal/consumer
--   Dashboard          services/dashboard/cmd/dashboard
--   Startup            the commands, services/*/cmd: Retry (connect, warmUp, the schema loop),
--                      Wiring (the choice of adapters), Services (main of rating, identity,
--                      budget), Billing, Gateway, and Consumers (metering, notifier)
--   System             services together: Enforcement and Ledger (metering over Redis, with the
--                      budget that reads it), Refusals (gateway and budget), Overspent (all three),
--                      Overshoot (budget and metering interleaved), Books, Invoices and Reconciled
--                      (metering, billing and budget over Redis and ClickHouse), Charged (gateway
--                      and metering), Priced (gateway, metering and rating), Alerts (budget and
--                      notifier over Kafka), Urls (dashboard and billing), Demo (dashboard, gateway
--                      and identity)
--
-- Bounds and fuel. The consumers' endless loops are modelled for any number of rounds. `rates` of
-- the catalog is on fuel for its calls of itself, of which there is at most one; it is given two.
-- The retry loops have the bounds of the source: ten attempts, and fifteen for the schema. Expiry
-- in Redis is a change of the world between calls. The doublings by which a float64 is scaled are
-- on fuel of 128, which is enough below 2^181. A star of a regular expression has as many rounds
-- as the text has characters left, which is enough since every round but the last consumes one
-- (Regexp/Rounds). Fused multiply-add, which Go allows on some platforms, is not used; a
-- conversion to int64 out of range is a parameter.
--
-- A command that ends with an error is `os.Exit(1)`, and runs no deferred call. A goroutine is
-- handed to a parameter that starts it, and what it does later is a change of the world.
--
-- Not modelled: what timeouts and batching of the clients do, the logger and the log lines, what the
-- statements that create tables do, the table of `strings.ToLower` (a parameter), generated
-- reflection and stubs, the page of the dashboard, the closes of clients when the gateway ends,
-- and the Python analytics service.
pub mod Base
pub mod Shared
pub mod Regexp
pub mod Binary64
pub mod External
pub mod Contract
pub mod Budget
pub mod Gateway
pub mod Identity
pub mod Rating
pub mod Metering
pub mod System
pub mod Billing
pub mod Notifier
pub mod Startup
pub mod Dashboard
