-- ===== src/System/Tests/Simulated.antt =====
-- A request that the dashboard simulates for a tenant without a demo key, over a table in memory.
use marginpilot.Base.{Text, codes, ◌++◌, [], ◌≡◌, ◌⊎◌, refl, none, some, Error, ok, err}
use marginpilot.External.Postgres.Memory.{Rows, memory_table, memory_table-IsTable}
use marginpilot.Identity.Store.{Caller}
use marginpilot.Gateway.Adapters.{identity_resolve}
use marginpilot.Gateway.Http.{Request, resolve_caller}
use marginpilot.Startup.Wiring.{seed_keys}
use marginpilot.Dashboard.{key_for, simulate_request}
use marginpilot.System.Demo.{IsFresh, ask, as_caller, demo_caller, simulate-Caller}

abbrev hash : Text → Text
hash s = s

abbrev fresh_keys : Rows Caller
fresh_keys key = none

abbrev sent : Request
sent = record { header = λ name. codes "Bearer " ++ key_for (codes "globex"); body = [] }

fresh_keys-IsFresh : IsFresh hash memory_table memory_table-IsTable fresh_keys
fresh_keys-IsFresh = record {
  distinct = λ h. cc;
  no_acme = refl;
  no_north = refl;
  acme_seeded = refl;
  north_seeded = refl;
}

simulate-Caller_example :
    (let after = (seed_keys hash memory_table fresh_keys).1 in
      (((resolve_caller
            (some (identity_resolve (ask hash memory_table memory_table-IsTable)))
            sent
            after).0
          ≡ ok (as_caller (demo_caller (codes "globex"))))
        ⊎ ((e : Error) × ((ask hash memory_table memory_table-IsTable
                (record { api_key = key_for (codes "globex") })
                after).0
              ≡ err e)
            × ((resolve_caller
                  (some (identity_resolve (ask hash memory_table memory_table-IsTable)))
                  sent
                  after).0
                ≡ err e))))
simulate-Caller_example =
    simulate-Caller hash memory_table memory_table-IsTable (codes "http://g") (codes "globex")
      (codes "12:00:00.000") sent fresh_keys fresh_keys-IsFresh (unfold simulate_request in refl)
