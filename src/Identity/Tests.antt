-- ===== src/Identity/Tests.antt =====
-- The identity service over a table in memory: its theorem at a concrete input.
use marginpilot.Base.{Text, codes, ◌≡◌, ◌≢◌, ◌⊎◌, refl, none, some}
use marginpilot.External.Postgres.Memory.{Rows, memory_table, memory_table-IsTable}
use marginpilot.Identity.Store.{Caller}
use marginpilot.Identity.Store
use marginpilot.Identity.Server.{resolve, response}
use marginpilot.Identity.Server.Keys.{resolve-seed}

abbrev hash : Text → Text
hash s = s

abbrev demo : Caller
demo = record { tenant_id = codes "acme"; customer_id = codes "c1"; feature = codes "chat" }

abbrev empty : Rows Caller
empty key = none

resolve-seed_example :
    ((hash (codes "mp_demo") ≢ hash (codes "mp_demo"))
      × (response (some demo) ≡ response (empty (hash (codes "mp_demo")))))
    ⊎ ((r : Caller) × (empty (hash (codes "mp_demo")) ≡ some r)
        × (response (some demo) ≡ response (some r)))
    ⊎ ((hash (codes "mp_demo") ≡ hash (codes "mp_demo"))
        × (empty (hash (codes "mp_demo")) ≡ none)
        × (response (some demo) ≡ response (some demo)))
resolve-seed_example =
    resolve-seed hash memory_table memory_table-IsTable (codes "mp_demo") (codes "mp_demo") demo
      empty (response (some demo)) (unfold Store.seed in refl)
      (unfold resolve in unfold Store.seed in unfold Store.resolve in refl)
