-- ===== src/Startup/Tests.antt =====
-- Starting up against servers that come up late: the theorems at concrete inputs.
use marginpilot.Base.{ℕ, suc, ◌<◌, [], ◌≡◌, refl, ltb, if◌then◌else◌, ok, err, failure}
use marginpilot.Startup.Retry.{Pools, try_connect, rating_connect}
use marginpilot.Startup.Retry.Attempts.{world_at, FailsBefore, rating_connect-ok}

-- The world is the number of pauses so far; the server is up after `n` of them.
abbrev late : ℕ → Pools ℕ (Unit {0})
late n = record {
  dial = λ dsn w. (ok tt, w);
  ping = λ pool w. (if ltb w n then err (failure []) else ok tt, w);
  close = λ pool w. w;
  sleep = λ t w. suc w;
}

rating_connect-ok_example :
    (k : ℕ) × (k < 10)
    × FailsBefore (late 3) [] k 0
    × ((try_connect (late 3) [] (world_at (late 3) [] k 0)).0 ≡ ok tt)
unfolding try_connect
rating_connect-ok_example = rating_connect-ok (late 3) [] tt 0 (unfold rating_connect in refl)
