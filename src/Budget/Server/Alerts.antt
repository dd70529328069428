-- ===== src/Budget/Server/Alerts.antt =====
-- When the service alerts, and what an alert says.
use marginpilot.Base.{
  ◌≡◌, ◌⊎◌, arith, Option, none, some, Bool, true, false, ℤ, ok, bind-ok, ok-injective, sub64,
}
use marginpilot.Contract.Budget.{AllowRequest, AllowResponse}
use marginpilot.Budget.Enforcer
use marginpilot.Budget.Enforcer.{decide, effective_limit, reason_rate, reason_budget, Decision}
use marginpilot.Budget.Server.{Server, Alert, allow, is_set}

decide-reason :
    (rate : Bool) (remaining : ℤ)
    → let d = decide rate remaining in
      d.allowed ≡ false → (d.reason ≡ reason_rate) ⊎ (d.reason ≡ reason_budget)
unfolding decide
decide-reason rate remaining h = ground arith

module _ {W : Type 0} (s : Server W) (req : AllowRequest) (w : W) where
  reason_of_denial :
      (d : Decision)
      → (Enforcer.allow s.enforcer req.tenant_id req.customer_id w).0 ≡ ok d
      → d.allowed ≡ false
      → (d.reason ≡ reason_rate) ⊎ (d.reason ≡ reason_budget)
  unfolding Enforcer.allow
  reason_of_denial d h denied =
      let (rate, _, h₁) = bind-ok (s.enforcer.store.allow_rate _ _) _ w h in
      let (limit, _, h₂) = bind-ok (s.enforcer.store.limit _ _) _ _ h₁ in
      let (spent, _, h₃) = bind-ok (s.enforcer.store.spend _ _) _ _ h₂ in
      let left = sub64 (effective_limit s.enforcer.default_limit limit) spent in
      let same : decide rate left ≡ d = ok-injective h₃ in
      rw (← same) (decide-reason rate left (rw same denied))

  -- A denied request of a service with a publisher starts one alert, for the request's tenant and
  -- customer, whose type is the reason of the answer and is "rate_limit" or "budget"; an allowed
  -- request starts none, and so does every request of a service with no publisher.
  pub allow-alert :
      (resp : AllowResponse) (alert : Option Alert)
      → (allow s req w).0 ≡ ok (resp, alert)
      → ((resp.allowed ≡ false)
          × (is_set s.alerter ≡ true)
          × (alert
              ≡ some (record {
                tenant = req.tenant_id;
                customer = req.customer_id;
                reason = resp.reason;
              }))
          × ((resp.reason ≡ reason_rate) ⊎ (resp.reason ≡ reason_budget)))
        ⊎ (((resp.allowed ≡ true) ⊎ (is_set s.alerter ≡ false)) × (alert ≡ none))
  unfolding allow
  allow-alert resp alert h =
      let (d, made, answer) =
        bind-ok (Enforcer.allow s.enforcer req.tenant_id req.customer_id) _ w h in
      ground (arith, reason_of_denial d made)
