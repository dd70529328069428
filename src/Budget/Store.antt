-- ===== src/Budget/Store.antt =====
-- services/budget/internal/adapter/redisstore/redisstore.go
pub mod Window
pub mod Limits
use marginpilot.Base.{
  ℕ, ◌*◌, Text, codes, ◌∷◌, ◌++◌, Option, none, some, Bool, if◌then◌else◌, ℤ, pos, leb_ℤ, eqb_ℤ,
  quot, Proc, Result, Error, ok, err, redis_nil, failure, pure, raise, lift, always, attempt, ◌>>=◌,
  ◌>>◌, true, false,
}
use marginpilot.Base.Decimal.{print_ℤ, parse_ℤ}
use marginpilot.Shared.Calendar.{Time, nanos, unix}
use marginpilot.Shared.Spend
use marginpilot.External.Redis.{Redis}
use marginpilot.External.Machine.{Machine}
use marginpilot.Budget.Enforcer.{SpendStore}

-- `rateWindow` in nanoseconds
abbrev pub rate_window : ℕ
rate_window = 60 * nanos

abbrev pub rate_max : ℤ
rate_max = pos 120

-- `limitKey`
unfoldable pub limit_key : Text → Text → Text
limit_key tenant customer = codes "limit:" ++ (tenant ++ b':' ∷ customer)

-- `time.Now().Unix() / int64(rateWindow.Seconds())`
unfoldable pub bucket : Time → ℤ
bucket t = quot (unix t) 60

unfoldable pub rate_key : Text → Text → ℤ → Text
rate_key tenant customer b = codes "rl:" ++ (tenant ++ b':' ∷ (customer ++ b':' ∷ print_ℤ b))

abbrev is_redis_nil : Error → Bool
is_redis_nil redis_nil = true
is_redis_nil _ = false

parsed : Option ℤ → Result ℤ
parsed none = err (failure (codes "strconv.ParseInt"))
parsed (some n) = ok n

as_int : Result Text → Result ℤ
unfolding parsed
as_int (ok v) = parsed (parse_ℤ v)
as_int (err e) = if is_redis_nil e then ok (pos 0) else err e

module _ {W : Type 0} (r : Redis W) (m : Machine W) where
  -- `getInt`
  unfoldable pub get_int : Text → Proc W ℤ
  unfolding as_int
  get_int key = do v ← attempt (r.get key); lift (as_int v)

  -- `Spend`
  unfoldable pub spend : Text → Text → Proc W ℤ
  unfolding get_int
  spend tenant customer = do t ← always m.now; get_int (Spend.key tenant customer t)

  -- `Limit`
  unfoldable pub limit : Text → Text → Proc W ℤ
  unfolding get_int
  limit tenant customer = get_int (limit_key tenant customer)

  -- `SetLimit`; the driver sends an integer in decimal
  unfoldable pub set_limit : Text → Text → ℤ → Proc W (Unit {0})
  set_limit tenant customer micros = r.set (limit_key tenant customer) (print_ℤ micros) 0

  -- The lifetime is set on the first hit, and its error is dropped.
  pub first_hit : Text → ℤ → Proc W (Unit {0})
  first_hit key n =
      if eqb_ℤ n (pos 1) then (do attempt (r.expire key rate_window); pure tt) else pure tt

  -- `AllowRate`
  unfoldable pub allow_rate : Text → Text → Proc W Bool
  unfolding first_hit
  allow_rate tenant customer = do
    t ← always m.now
    let key = rate_key tenant customer (bucket t)
    n ← r.incr key
    first_hit key n
    pure (leb_ℤ n rate_max)

  abbrev pub redis_store : SpendStore W
  redis_store = record {
    spend = spend;
    limit = limit;
    set_limit = set_limit;
    allow_rate = allow_rate;
  }
