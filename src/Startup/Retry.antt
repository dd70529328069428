-- ===== src/Startup/Retry.antt =====
-- The loops by which the commands wait for what they need: `connect` of services/rating/cmd/rating,
-- services/identity/cmd/identity and services/billing/cmd/billing, `warmUp` of
-- services/gateway/cmd/gateway and the schema loop of services/metering/cmd/metering.
pub mod Attempts
use marginpilot.Base.{
  ℕ, zero, suc, ◌*◌, Text, codes, [], Option, none, some, Bool, true, false, ◌&&◌, if◌then◌else◌,
  Proc, Result, Error, ok, err, key_not_found, failure, succeeded, not, pure, raise, lift, attempt,
  ◌>>=◌, ◌>>◌,
}
use marginpilot.Shared.Calendar.{nanos}
use marginpilot.Gateway.Port.{BudgetChecker, CallerResolver}

-- Opening, asking and closing a pool of connections, and waiting a number of nanoseconds. A lazy
-- pool may open though the server is down.
pub record Pools (W P : Type 0) : Type 0 where
  pub dial : Text → Proc W P
  pub ping : P → Proc W (Unit {0})
  pub close : P → W → W
  pub sleep : ℕ → W → W

abbrev pub pause : ℕ
pause = 2 * nanos

module _ {W P : Type 0} (pools : Pools W P) where
  -- One attempt of `connect`: a pool that does not answer is closed.
  unfoldable pub keep : P → Result (Unit {0}) → Proc W P
  keep pool (ok _) w = (ok pool, w)
  keep pool (err e) w = (err e, pools.close pool w)

  unfoldable pub try_connect : Text → Proc W P
  unfolding keep
  try_connect dsn = do pool ← pools.dial dsn; answer ← attempt (pools.ping pool); keep pool answer

  -- `connect` with a number of attempts left, on the outcome of one and the rest of the loop.
  unfoldable pub or_again : (Error → Proc W P) → Result P × W → Result P × W
  or_again again (ok pool, w) = (ok pool, w)
  or_again again (err e, w) = again e (pools.sleep pause w)

  unfoldable pub connect_from : ℕ → Text → Error → Proc W P
  unfolding or_again
  connect_from zero dsn last w = (err last, w)
  connect_from (suc left) dsn last w =
      let again = connect_from left dsn in or_again again (try_connect dsn w)

  -- `connect`, in each of the three commands. With ten attempts the error given here is never the last.
  unfoldable pub rating_connect : Text → Proc W P
  unfolding connect_from
  rating_connect dsn = connect_from 10 dsn (failure [])

  unfoldable pub identity_connect : Text → Proc W P
  unfolding connect_from
  identity_connect dsn = connect_from 10 dsn (failure [])

  unfoldable pub billing_connect : Text → Proc W P
  unfolding connect_from
  billing_connect dsn = connect_from 10 dsn (failure [])

-- The schema loop of `startConsumer`, with the attempts left after this one: it ends with the
-- schema in place, or with the error on which the command exits.
unfoldable pub or_wait :
    {W : Type 0}
    → (ℕ → W → W)
    → Option (Proc W (Unit {0}))
    → Result (Unit {0}) × W
    → Result (Unit {0}) × W
or_wait sleep again (ok _, w) = (ok tt, w)
or_wait sleep none (err e, w) = (err e, w)
or_wait sleep (some again) (err e, w) = again (sleep pause w)

unfoldable pub schema_from : {W : Type 0} → (ℕ → W → W) → Proc W (Unit {0}) → ℕ → Proc W (Unit {0})
unfolding or_wait
schema_from sleep ensure_schema zero w = or_wait sleep none (ensure_schema w)
schema_from sleep ensure_schema (suc left) w =
    let again = schema_from sleep ensure_schema left in or_wait sleep (some again) (ensure_schema w)

unfoldable pub await_schema : {W : Type 0} → (ℕ → W → W) → Proc W (Unit {0}) → Proc W (Unit {0})
unfolding schema_from
await_schema sleep ensure_schema = schema_from sleep ensure_schema 14

-- An error of the resolver that does not show that it answered.
unfoldable pub unreachable : {A : Type 0} → Result A → Bool
unreachable (ok _) = false
unreachable (err key_not_found) = false
unreachable (err _) = true

abbrev pub warm_key : Text
warm_key = codes "__warmup__"

module _ {W : Type 0} (sleep : ℕ → W → W) (budget : BudgetChecker W) where
  abbrev resolved : Option (CallerResolver W) → W → Bool × W
  resolved none w = (false, w)
  resolved (some resolve) w = let (r, w') = resolve warm_key w in (unreachable r, w')

  -- `warmUp` with the attempts left: whether it has reached both services.
  unfoldable pub warm_up : Option (CallerResolver W) → ℕ → W → Bool × W
  unfolding unreachable
  warm_up resolver zero w = (false, w)
  warm_up resolver (suc left) w =
      let (asked, w₁) = budget warm_key warm_key w in
      let (cold, w₂) = resolved resolver w₁ in
      let later = warm_up resolver left (sleep pause w₂) in
      if succeeded asked && not cold then (true, w₂) else later
