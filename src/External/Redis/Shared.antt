-- ===== src/External/Redis/Shared.antt =====
-- A Redis that is one of two parts of the world.
use marginpilot.Base.{Text, Option, Proc}
use marginpilot.External.Redis.{Redis, IsRedis}

-- An effect on the first of two parts.
abbrev pub on_first : {V S A : Type 0} → Proc V A → Proc (V × S) A
on_first f (v, s) = let (r, v') = f v in (r, (v', s))

module _ {V : Type 0} (S : Type 0) (r : Redis V) where
  abbrev pub shared_redis : Redis (V × S)
  shared_redis = record {
    get = λ k. on_first (r.get k);
    set = λ k v n. on_first (r.set k v n);
    incr = λ k. on_first (r.incr k);
    incr_by = λ k n. on_first (r.incr_by k n);
    expire = λ k n. on_first (r.expire k n);
  }

  -- It keeps the laws of that part.
  pub shared_redis-IsRedis :
      {lookup : V → Text → Option Text}
      → IsRedis r lookup
      → IsRedis shared_redis (λ (w : V × S). lookup w.0)
  shared_redis-IsRedis laws = record {
    get-ok = λ k v w h. laws.get-ok k v w.0 h;
    get-nil = λ k w h. laws.get-nil k w.0 h;
    lookup-get = λ k j w. laws.lookup-get k j w.0;
    lookup-expire = λ k n j w. laws.lookup-expire k n j w.0;
    lookup-set = λ k v n j w h. laws.lookup-set k v n j w.0 h;
    incr_by-ok = λ k n m w h. laws.incr_by-ok k n m w.0 h;
    lookup-incr_by = λ k n m j w h. laws.lookup-incr_by k n m j w.0 h;
    incr_lem = λ k w. cc (laws.incr_lem k w.0);
    incr-err = λ k w e h. laws.incr-err k w.0 e h;
  }
