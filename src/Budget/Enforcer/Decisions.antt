-- ===== src/Budget/Enforcer/Decisions.antt =====
-- What a budget decision says, and that no decision is made on a failed read.
use marginpilot.Base.{
  Text, [], ◌≡◌, ◌↔◌, refl, sym, ap, ◌∙◌, subst, arith, Bool, true, false, ℤ, pos, ◌-ℤ◌, ◌≤ℤ◌, ◌<ℤ◌,
  IsInt64, sub64, wrap64_of_IsInt64, ok, continue, bind-ok, ok-injective,
}
use marginpilot.Budget.Enforcer.{
  Enforcer, Decision, allow, decide, effective_limit, reason_rate, reason_budget,
}

-- A decision on the rate test `rate`, the customer's limit in force and the spend so far.
pub record IsDecision (d : Decision) (rate : Bool) (limit spent : ℤ) : Type 0 where
  pub allowed_iff : (d.allowed ≡ true) ↔ ((rate ≡ true) × (spent <ℤ limit))
  pub remaining : d.remaining_micros ≡ limit -ℤ spent
  pub no_reason : d.allowed ≡ true → d.reason ≡ []
  pub rate_first : rate ≡ false → d.reason ≡ reason_rate
  pub then_budget : rate ≡ true → limit ≤ℤ spent → d.reason ≡ reason_budget

decide-IsDecision :
    (rate : Bool) (limit spent : ℤ) → IsDecision (decide rate (limit -ℤ spent)) rate limit spent
unfolding decide
decide-IsDecision true limit spent = record {
  allowed_iff = ground arith;
  remaining = ground arith;
  no_reason = ground arith;
  rate_first = ground arith;
  then_budget = ground arith;
}
decide-IsDecision false limit spent = record {
  allowed_iff = ground arith;
  remaining = ground arith;
  no_reason = ground arith;
  rate_first = ground arith;
  then_budget = ground arith;
}

decide-true :
    (rate : Bool) (remaining : ℤ) (d : Decision)
    → decide rate remaining ≡ d
    → d.allowed ≡ true
    → (rate ≡ true) × (d.remaining_micros ≡ remaining) × (pos 0 <ℤ d.remaining_micros)
unfolding decide
decide-true rate remaining d e h = ground arith

pub decided :
    {rate rate' : Bool} {limit limit' spent spent' : ℤ} {d : Decision}
    → rate ≡ rate'
    → limit ≡ limit'
    → spent ≡ spent'
    → IsInt64 (limit' -ℤ spent')
    → decide rate (sub64 limit spent) ≡ d
    → IsDecision d rate' limit' spent'
unfolding sub64
decided {rate' = rate'} {limit' = limit'} {spent' = spent'} {d = d} p q r fits e =
    let exact : decide rate' (limit' -ℤ spent') ≡ d =
      ap (decide rate') (sym (wrap64_of_IsInt64 (limit' -ℤ spent') fits)) ∙ rw (← p, ← q, ← r) e in
    subst (λ x. IsDecision x rate' limit' spent') exact (decide-IsDecision rate' limit' spent')

module _ {W : Type 0} (e : Enforcer W) (tenant customer : Text) (w : W) where
  abbrev after_rate : W
  after_rate = (e.store.allow_rate tenant customer w).1

  abbrev after_limit : W
  after_limit = (e.store.limit tenant customer after_rate).1

  -- When the three reads succeed and the difference fits an `int64`, the answer is the decision on
  -- the rate test, the limit in force (the default where none is set) and the spend.
  allow-IsDecision :
      (rate : Bool) (limit spent : ℤ)
      → (e.store.allow_rate tenant customer w).0 ≡ ok rate
      → (e.store.limit tenant customer after_rate).0 ≡ ok limit
      → (e.store.spend tenant customer after_limit).0 ≡ ok spent
      → IsInt64 (effective_limit e.default_limit limit -ℤ spent)
      → (d : Decision) × ((allow e tenant customer w).0 ≡ ok d)
        × IsDecision d rate (effective_limit e.default_limit limit) spent
  unfolding allow sub64
  allow-IsDecision rate limit spent p q r fits = (
    decide rate (effective_limit e.default_limit limit -ℤ spent),
    rw (p, continue, q, continue, r, continue, wrap64_of_IsInt64 _ fits) refl,
    decide-IsDecision rate (effective_limit e.default_limit limit) spent,
  )

  -- The budget fails closed: a call is allowed only if all three reads succeeded, the rate test
  -- passed, and the remaining budget, as an `int64`, is positive.
  allow-true :
      (d : Decision)
      → (allow e tenant customer w).0 ≡ ok d
      → d.allowed ≡ true
      → (limit spent : ℤ) × ((e.store.allow_rate tenant customer w).0 ≡ ok true)
        × ((e.store.limit tenant customer after_rate).0 ≡ ok limit)
        × ((e.store.spend tenant customer after_limit).0 ≡ ok spent)
        × (d.remaining_micros ≡ sub64 (effective_limit e.default_limit limit) spent)
        × (pos 0 <ℤ d.remaining_micros)
  unfolding allow
  allow-true d h granted =
      let (rate, p, h₁) = bind-ok (e.store.allow_rate tenant customer) _ w h in
      let (limit, q, h₂) = bind-ok (e.store.limit tenant customer) _ after_rate h₁ in
      let (spent, r, h₃) = bind-ok (e.store.spend tenant customer) _ after_limit h₂ in
      let left = sub64 (effective_limit e.default_limit limit) spent in
      let same : decide rate left ≡ d = ok-injective h₃ in
      let (rate_passed, exact, positive) = decide-true rate left d same granted in
      (limit, spent, rw (← rate_passed) p, q, r, exact, positive)
