-- ===== src/External/Redis.antt =====
-- The calls of the driver go-redis that the program makes, and what Redis documents of them.
pub mod Memory
pub mod Shared
use marginpilot.Base.{
  ℕ, ◌≡◌, refl, ◌⊎◌, Text, text_eq, Option, none, some, if◌then◌else◌, ℤ, pos, ◌+ℤ◌, IsInt64, Proc,
  ok, err, Error, redis_nil,
}
use marginpilot.Base.Decimal.{print_ℤ, parse_ℤ, parse_ℤ-print_ℤ}

pub record Redis (W : Type 0) : Type 0 where
  -- the stored text, or the error `redis.Nil` where there is none
  pub get : Text → Proc W Text
  -- a lifetime of 0 nanoseconds is none
  pub set : Text → Text → ℕ → Proc W (Unit {0})
  pub incr : Text → Proc W ℤ
  pub incr_by : Text → ℤ → Proc W ℤ
  pub expire : Text → ℕ → Proc W (Unit {0})

or_zero : Option ℤ → ℤ
or_zero none = pos 0
or_zero (some z) = z

-- The number that a key holds, 0 where the key is absent.
unfoldable pub counter : Option Text → ℤ
unfolding or_zero
counter none = pos 0
counter (some v) = or_zero (parse_ℤ v)

-- What a key shows after another key, or it, was given a value.
abbrev pub written : Text → Text → Text → Option Text → Option Text
written k v j old = if text_eq k j then some v else old

-- `lookup w k` is what the server holds under `k`. Expiry is a change of the world between calls.
-- A failed increment may have been made or not.
pub record IsRedis {W : Type 0} (r : Redis W) (lookup : W → Text → Option Text) : Type 0 where
  pub get-ok : (k v : Text) (w : W) → (r.get k w).0 ≡ ok v → lookup w k ≡ some v
  pub get-nil : (k : Text) (w : W) → (r.get k w).0 ≡ err redis_nil → lookup w k ≡ none
  pub lookup-get : (k j : Text) (w : W) → lookup (r.get k w).1 j ≡ lookup w j
  pub lookup-expire :
      (k : Text) (n : ℕ) (j : Text) (w : W) → lookup (r.expire k n w).1 j ≡ lookup w j
  pub lookup-set :
      (k v : Text) (n : ℕ) (j : Text) (w : W)
      → (r.set k v n w).0 ≡ ok tt
      → lookup (r.set k v n w).1 j ≡ written k v j (lookup w j)
  pub incr_by-ok :
      (k : Text) (n m : ℤ) (w : W)
      → (r.incr_by k n w).0 ≡ ok m
      → (m ≡ counter (lookup w k) +ℤ n) × IsInt64 m
  pub lookup-incr_by :
      (k : Text) (n m : ℤ) (j : Text) (w : W)
      → (r.incr_by k n w).0 ≡ ok m
      → lookup (r.incr_by k n w).1 j ≡ written k (print_ℤ m) j (lookup w j)
  pub incr_lem : (k : Text) (w : W) → r.incr k w ≡ r.incr_by k (pos 1) w
  pub incr-err :
      (k : Text) (w : W) (e : Error)
      → (r.incr k w).0 ≡ err e
      → (lookup (r.incr k w).1 k ≡ lookup w k)
        ⊎ (IsInt64 (counter (lookup w k) +ℤ pos 1)
            × (lookup (r.incr k w).1 k ≡ some (print_ℤ (counter (lookup w k) +ℤ pos 1))))

pub counter-print_ℤ : (z : ℤ) → IsInt64 z → counter (some (print_ℤ z)) ≡ z
unfolding counter
counter-print_ℤ z h = rw (parse_ℤ-print_ℤ z h) refl
