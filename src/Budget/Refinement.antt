-- ===== src/Budget/Refinement.antt =====
-- The budget service on Redis makes the decision that its three counters call for.
use marginpilot.Base.{
  ℕ, Text, head-ne, text_eq-false, ◌≡◌, ◌≢◌, sym, ap, ◌∙◌, arith, Option, Bool, ℤ, pos, ◌+ℤ◌, ◌-ℤ◌,
  leb_ℤ, IsInt64, ok, bind-ok, ok-injective, continue,
}
use marginpilot.Shared.Spend
use marginpilot.External.Redis.{Redis, IsRedis, counter}
use marginpilot.External.Machine.{Machine}
use marginpilot.Budget.Enforcer.{Enforcer, Decision, allow, effective_limit}
use marginpilot.Budget.Enforcer.Decisions.{IsDecision, decided}
use marginpilot.Budget.Store.{
  allow_rate, bucket, first_hit, get_int, limit, limit_key, rate_key, rate_max, redis_store, spend,
}
use marginpilot.Budget.Store.Limits.{get_int-ok}
use marginpilot.Budget.Store.Window.{first_hit-keeps}

rate_key-ne-limit_key : (a b c d : Text) (n : ℤ) → rate_key a b n ≢ limit_key c d
unfolding rate_key limit_key
rate_key-ne-limit_key a b c d n = head-ne b'r' b'l' _ _ (omega arith)

rate_key-ne-key : (a b c d : Text) (n : ℤ) (t : ℕ) → rate_key a b n ≢ Spend.key c d t
unfolding rate_key Spend.key
rate_key-ne-key a b c d n t = head-ne b'r' b's' _ _ (omega arith)

module _ {W : Type 0} (r : Redis W) {lookup : W → Text → Option Text}
    (laws : IsRedis r lookup) where
  incr-ok :
      (key : Text) (n : ℤ) (w : W)
      → (r.incr key w).0 ≡ ok n
      → (n ≡ counter (lookup w key) +ℤ pos 1)
        × ((j : Text) → key ≢ j → lookup (r.incr key w).1 j ≡ lookup w j)
  incr-ok key n w e =
      let e' = rw laws.incr_lem at e in
      (
        (laws.incr_by-ok key (pos 1) n w e').0,
        (λ j other.
            rw laws.incr_lem
              (rw (text_eq-false key j other) at (laws.lookup-incr_by key (pos 1) n j w e'))),
      )

module _ {W : Type 0} (r : Redis W) (m : Machine W) {lookup : W → Text → Option Text}
    (laws : IsRedis r lookup) (quiet : (k : Text) (w : W) → lookup (m.now w).1 k ≡ lookup w k) where
  -- A request that is counted passes if the counter of its window, with it, is within the cap, and
  -- it touches no other key.
  allow_rate-ok :
      (tenant customer : Text) (w : W) {passed : Bool}
      → (allow_rate r m tenant customer w).0 ≡ ok passed
      → let key = rate_key tenant customer (bucket (m.now w).0) in
        (passed ≡ leb_ℤ (counter (lookup w key) +ℤ pos 1) rate_max)
        × ((j : Text) → key ≢ j → lookup (allow_rate r m tenant customer w).1 j ≡ lookup w j)
  unfolding allow_rate
  allow_rate-ok tenant customer w h =
      let w₁ = (m.now w).1 in
      let key = rate_key tenant customer (bucket (m.now w).0) in
      let (n, counted, rest) = bind-ok (r.incr key) _ w₁ h in
      let (sum, made) = incr-ok r laws key n w₁ counted in
      let w₂ = (r.incr key w₁).1 in
      let (u, hit, done) = bind-ok (first_hit r m key n) _ w₂ rest in
      (
        sym (ok-injective done)
            ∙ ap (λ (z : ℤ). leb_ℤ z rate_max)
                (sum ∙ ap (λ (o : Option Text). counter o +ℤ pos 1) (quiet key w)),
        (λ j other.
            rw (counted, continue, hit, continue)
              ((first_hit-keeps r m lookup laws key n j w₂).1 ∙ made j other ∙ quiet j w)),
      )

  -- The three worlds in which `Allow` reads the rate, the limit and the spend.
  module _ (default_limit : ℤ) (tenant customer : Text) (w : W) where
    abbrev pub enforcer : Enforcer W
    enforcer = record { store = redis_store r m; default_limit = default_limit }

    abbrev after_rate : W
    after_rate = (allow_rate r m tenant customer w).1

    abbrev after_limit : W
    after_limit = (limit r m tenant customer after_rate).1

    abbrev rate_counter : Text
    rate_counter = rate_key tenant customer (bucket (m.now w).0)

    -- The reading of the clock by which the month of the spend is chosen.
    abbrev pub spend_time : ℕ
    spend_time = (m.now after_limit).0

    abbrev spend_counter : Text
    spend_counter = Spend.key tenant customer spend_time

    abbrev pub held_hits : ℤ
    held_hits = counter (lookup w rate_counter)

    abbrev pub held_spend : ℤ
    held_spend = counter (lookup w spend_counter)

    abbrev pub held_limit : ℤ
    held_limit = effective_limit default_limit (counter (lookup w (limit_key tenant customer)))

    limit-ok :
        {n : ℤ} {passed : Bool}
        → (allow_rate r m tenant customer w).0 ≡ ok passed
        → (limit r m tenant customer after_rate).0 ≡ ok n
        → n ≡ counter (lookup w (limit_key tenant customer))
    unfolding limit
    limit-ok counted read =
        sym (get_int-ok r laws (limit_key tenant customer) after_rate m read)
        ∙ ap counter
            ((allow_rate-ok tenant customer w counted).1 _ (rate_key-ne-limit_key _ _ _ _ _))

    lookup-after_limit : (k : Text) → lookup after_limit k ≡ lookup after_rate k
    unfolding limit get_int
    lookup-after_limit k = laws.lookup-get (limit_key tenant customer) k after_rate

    spend-ok :
        {n : ℤ} {passed : Bool}
        → (allow_rate r m tenant customer w).0 ≡ ok passed
        → (spend r m tenant customer after_limit).0 ≡ ok n
        → n ≡ held_spend
    unfolding spend
    spend-ok counted read =
        sym (get_int-ok r laws spend_counter (m.now after_limit).1 m read)
        ∙ ap counter (
            quiet spend_counter after_limit
            ∙ lookup-after_limit spend_counter
            ∙ (allow_rate-ok tenant customer w counted).1 _ (rate_key-ne-key _ _ _ _ _ _))

    -- A check that is answered leaves the spend counters alone.
    pub lookup-allow :
        (d : Decision) (t c : Text) (at_time : ℕ)
        → (allow enforcer tenant customer w).0 ≡ ok d
        → lookup (allow enforcer tenant customer w).1 (Spend.key t c at_time)
          ≡ lookup w (Spend.key t c at_time)
    unfolding allow spend get_int
    lookup-allow d t c at_time h =
        let k = Spend.key t c at_time in
        let (passed, counted, h₁) = bind-ok (allow_rate r m tenant customer) _ w h in
        let (lim, limited, h₂) = bind-ok (limit r m tenant customer) _ after_rate h₁ in
        let (spent, paid, h₃) = bind-ok (spend r m tenant customer) _ after_limit h₂ in
        rw (counted, continue, limited, continue, paid, continue)
          (laws.lookup-get spend_counter k _
            ∙ quiet k after_limit
            ∙ lookup-after_limit k
            ∙ (allow_rate-ok tenant customer w counted).1 _ (rate_key-ne-key _ _ _ _ _ _))

    -- On a Redis that keeps its laws, with a clock that leaves it alone, a check that is answered
    -- is the decision on what Redis held when it began: the requests of the window with this one
    -- against the cap, and the customer's spend of the month against the limit in force, where
    -- their difference fits an `int64`.
    pub allow_refines :
        (d : Decision)
        → IsInt64 (held_limit -ℤ held_spend)
        → (allow enforcer tenant customer w).0 ≡ ok d
        → IsDecision d (leb_ℤ (held_hits +ℤ pos 1) rate_max) held_limit held_spend
    unfolding allow
    allow_refines d fits h =
        let (passed, counted, h₁) = bind-ok (allow_rate r m tenant customer) _ w h in
        let (lim, limited, h₂) = bind-ok (limit r m tenant customer) _ after_rate h₁ in
        let (spent, paid, h₃) = bind-ok (spend r m tenant customer) _ after_limit h₂ in
        decided ((allow_rate-ok tenant customer w counted).0)
          (ap (effective_limit default_limit) (limit-ok counted limited)) (spend-ok counted paid)
          fits (ok-injective h₃)
