-- ===== src/External/Redis/Memory.antt =====
-- A Redis that never fails but for a number out of range, as a function from keys to values. It
-- keeps no lifetimes. It is one instance of the interface and meets its laws.
use marginpilot.Base.{
  ◌≡◌, refl, sym, ap, subst, arith, Text, Option, none, some, ℤ, pos, negsuc, ◌+ℤ◌, IsInt64, Bool,
  true, false, ltb, ◌^◌, Result, Error, ok, err, failure, redis_nil, codes, inl,
}
use marginpilot.Base.Decimal.{print_ℤ}
use marginpilot.External.Redis.{Redis, IsRedis, counter, written}

abbrev pub Memory : Type 0
Memory = Text → Option Text

abbrev store : Memory → Text → Text → Memory
store w k v j = written k v j (w j)

abbrev is_int64 : ℤ → Bool
is_int64 (pos n) = ltb n (2 ^ 63)
is_int64 (negsuc n) = ltb n (2 ^ 63)

abbrev found : Option Text → Result Text
found none = err redis_nil
found (some v) = ok v

abbrev settle : Bool → Memory → Text → ℤ → Result ℤ × Memory
settle true w k m = (ok m, store w k (print_ℤ m))
settle false w k m = (err (failure (codes "ERR increment or decrement would overflow")), w)

abbrev add : Memory → Text → ℤ → Result ℤ × Memory
add w k m = settle (is_int64 m) w k m

abbrev pub memory_redis : Redis Memory
memory_redis = record {
  get = λ k w. (found (w k), w);
  set = λ k v n w. (ok tt, store w k v);
  incr = λ k w. add w k (counter (w k) +ℤ pos 1);
  incr_by = λ k n w. add w k (counter (w k) +ℤ n);
  expire = λ k n w. (ok tt, w);
}

found-ok : (o : Option Text) {v : Text} → found o ≡ ok v → o ≡ some v
found-ok none e = cc
found-ok (some v) e = cc

found-nil : (o : Option Text) → found o ≡ err redis_nil → o ≡ none
found-nil none e = refl
found-nil (some v) e = cc

IsInt64-of_test : (z : ℤ) → is_int64 z ≡ true → IsInt64 z
IsInt64-of_test (pos n) h = ground arith
IsInt64-of_test (negsuc n) h = ground arith

settle-ok :
    (b : Bool) (w : Memory) (k : Text) (z m : ℤ)
    → (settle b w k z).0 ≡ ok m
    → (b ≡ true) × (z ≡ m) × ((settle b w k z).1 ≡ store w k (print_ℤ z))
settle-ok true w k z m e = (refl, cc, refl)
settle-ok false w k z m e = cc

settle-err :
    (b : Bool) (w : Memory) (k : Text) (z : ℤ) {e : Error}
    → (settle b w k z).0 ≡ err e
    → (settle b w k z).1 k ≡ w k
settle-err true w k z e = cc
settle-err false w k z e = refl

add-ok : (w : Memory) (k : Text) (z m : ℤ) → (add w k z).0 ≡ ok m → (m ≡ z) × IsInt64 m
add-ok w k z m e =
    let (fits, same, _) = settle-ok (is_int64 z) w k z m e in
    (sym same, subst IsInt64 same (IsInt64-of_test z fits))

lookup-add :
    (w : Memory) (k j : Text) (z m : ℤ)
    → (add w k z).0 ≡ ok m
    → (add w k z).1 j ≡ written k (print_ℤ m) j (w j)
lookup-add w k j z m e =
    let (_, same, left) = settle-ok (is_int64 z) w k z m e in
    rw (← same) (ap (λ (w' : Memory). w' j) left)

-- The laws are met, so they can be assumed together.
pub memory_redis-IsRedis : IsRedis memory_redis (λ w. w)
memory_redis-IsRedis = record {
  get-ok = λ k v w e. found-ok (w k) e;
  get-nil = λ k w e. found-nil (w k) e;
  lookup-get = λ k j w. refl;
  lookup-expire = λ k n j w. refl;
  lookup-set = λ k v n j w e. refl;
  incr_by-ok = λ k n m w e. add-ok w k (counter (w k) +ℤ n) m e;
  lookup-incr_by = λ k n m j w e. lookup-add w k j (counter (w k) +ℤ n) m e;
  incr_lem = λ k w. refl;
  incr-err = λ k w e h. inl (settle-err _ w k (counter (w k) +ℤ pos 1) h);
}
