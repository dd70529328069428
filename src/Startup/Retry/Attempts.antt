-- ===== src/Startup/Retry/Attempts.antt =====
-- How often a connection is tried.
use marginpilot.Base.{
  ℕ, zero, suc, ◌<◌, Text, ◌≡◌, refl, arith, Result, Error, ok, err, Proc, failure, [], ◌∙◌,
}
use marginpilot.Startup.Retry.{Pools, pause, try_connect, or_again, connect_from, rating_connect}

module _ {W P : Type 0} (pools : Pools W P) (dsn : Text) where
  abbrev tried : W → Result P × W
  tried = try_connect pools dsn

  -- The world before a later attempt, after so many that failed.
  pub world_at : ℕ → W → W
  world_at zero w = w
  world_at (suc k) w = world_at k (pools.sleep pause (tried w).1)

  -- The first `k` attempts fail.
  abbrev pub FailsBefore : ℕ → W → Type 0
  FailsBefore k w = (j : ℕ) → j < k → (e : Error) × ((tried (world_at j w)).0 ≡ err e)

  fails_one_more :
      (k : ℕ) (w : W) {e : Error}
      → (tried w).0 ≡ err e
      → FailsBefore k (pools.sleep pause (tried w).1)
      → FailsBefore (suc k) w
  unfolding world_at
  fails_one_more k w {e} h rest zero below = (e, h)
  fails_one_more k w h rest (suc j) below = rest j (omega arith)

  abbrev Connected : ℕ → P → W → Type 0
  Connected n pool w = (k : ℕ) × (k < n) × FailsBefore k w × ((tried (world_at k w)).0 ≡ ok pool)

  or_again-ok :
      (n : ℕ) (pool : P) (w : W) (again : Error → Proc W P) (out : Result P)
      → (tried w).0 ≡ out
      → ((e : Error)
          → (again e (pools.sleep pause (tried w).1)).0 ≡ ok pool
          → Connected n pool (pools.sleep pause (tried w).1))
      → (or_again pools again (out, (tried w).1)).0 ≡ ok pool
      → Connected (suc n) pool w
  unfolding or_again world_at
  or_again-ok n pool w again (ok p) h later e =
      (0, omega arith, (λ j below. absurd (omega (arith, below))), h ∙ e)
  or_again-ok n pool w again (err x) h later e =
      let (k, below, failed, made) = later x e in
      (suc k, omega arith, fails_one_more k w h failed, made)

  connect_from-ok :
      (n : ℕ) (last : Error) (pool : P) (w : W)
      → (connect_from pools n dsn last w).0 ≡ ok pool
      → Connected n pool w
  unfolding connect_from
  connect_from-ok zero last pool w h = cc
  connect_from-ok (suc n) last pool w h =
      or_again-ok n pool w (connect_from pools n dsn) (tried w).0 refl
        (λ e. connect_from-ok n e pool _) h

  -- A connection that succeeds is that of the first attempt that succeeds, one of ten, each after
  -- a pause.
  pub rating_connect-ok :
      (pool : P) (w : W)
      → (rating_connect pools dsn w).0 ≡ ok pool
      → (k : ℕ) × (k < 10) × FailsBefore k w × ((try_connect pools dsn (world_at k w)).0 ≡ ok pool)
  unfolding rating_connect
  rating_connect-ok pool w h = connect_from-ok 10 (failure []) pool w h

  or_again-err :
      (n : ℕ) (x : Error) (w : W) (again : Error → Proc W P) (out : Result P)
      → (tried w).0 ≡ out
      → ((e : Error)
          → (again e (pools.sleep pause (tried w).1)).0 ≡ err x
          → FailsBefore n (pools.sleep pause (tried w).1))
      → (or_again pools again (out, (tried w).1)).0 ≡ err x
      → FailsBefore (suc n) w
  unfolding or_again
  or_again-err n x w again (ok p) h later e = cc
  or_again-err n x w again (err y) h later e = fails_one_more n w h (later y e)

  connect_from-err :
      (n : ℕ) (last x : Error) (w : W)
      → (connect_from pools n dsn last w).0 ≡ err x
      → FailsBefore n w
  unfolding connect_from
  connect_from-err zero last x w h = λ j below. absurd (omega (arith, below))
  connect_from-err (suc n) last x w h =
      or_again-err n x w (connect_from pools n dsn) (tried w).0 refl (λ e. connect_from-err n e x _)
        h

  -- A connection that fails has failed in each of its ten attempts.
  pub rating_connect-err :
      (x : Error) (w : W) → (rating_connect pools dsn w).0 ≡ err x → FailsBefore 10 w
  unfolding rating_connect
  rating_connect-err x w h = connect_from-err 10 (failure []) x w h
