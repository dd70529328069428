-- ===== src/System/Refusals.antt =====
-- A customer who has spent the budget, as the gateway sees it: gateway, budget service and Redis
-- together, the gRPC call being one of the service's handler.
use marginpilot.Base.{
  answer-cases, Text, ◌≡◌, ◌≢◌, ◌⊎◌, inl, inr, refl, ap, ◌∙◌, arith, Option, none, some, Bool,
  false, Bool-cases, ℤ, ◌-ℤ◌, ◌≤ℤ◌, IsInt64, Proc, Result, Error, ok, err, budget_exceeded, pure,
  continue, ◌>>=◌,
}
use marginpilot.External.Redis.{Redis, IsRedis}
use marginpilot.External.Machine.{Machine}
use marginpilot.Contract.Budget.{AllowRequest, AllowResponse}
use marginpilot.Budget.Enforcer.{Decision}
use marginpilot.Budget.Enforcer
use marginpilot.Budget.Enforcer.Decisions.{IsDecision}
use marginpilot.Budget.Server.{Server, AlertPublisher}
use marginpilot.Budget.Server
use marginpilot.Budget.Store.{redis_store}
use marginpilot.Budget.Refinement.{held_limit, held_spend, allow_refines}
use marginpilot.Gateway.Domain.{ChatRequest, ChatResponse, Caller}
use marginpilot.Gateway.Port.{Ports}
use marginpilot.Gateway.Fingerprint.{cache_key}
use marginpilot.Gateway.Service.{proxy, after_lookup, upstream}
use marginpilot.Gateway.Adapters.{budget_grpc}
use marginpilot.Gateway.Http.{answer}

-- The client of a budget service that is reached.
abbrev pub called : {W : Type 0} → Server W → AllowRequest → Proc W AllowResponse
called s req = do (resp, alert) ← Server.allow s req; pure resp

granted : Result Decision → Result Bool
granted (ok d) = ok d.allowed
granted (err e) = err e

over_limit :
    (d : Decision) {rate : Bool} {limit spent : ℤ}
    → IsDecision d rate limit spent
    → limit ≤ℤ spent
    → d.allowed ≡ false
over_limit d {limit = limit} {spent = spent} h over = elim (Bool-cases d.allowed) [
  | inl granted ↦ absurd (omega (arith, (h.allowed_iff.0 granted).1, over))
  | inr refused ↦ refused
]

-- The budget service on a Redis.
abbrev pub service : {W : Type 0} → Redis W → Machine W → ℤ → Option (AlertPublisher W) → Server W
service r m default_limit alerter = record {
  enforcer = record { store = redis_store r m; default_limit = default_limit };
  alerter = alerter;
}

-- The gateway with a budget service.
abbrev pub wired : {W : Type 0} → Server W → Ports W → Ports W
wired s ports = record ports { budget = budget_grpc (called s) }

-- What a budget service decides about a customer.
abbrev pub checked_by : {W : Type 0} → Server W → Caller → Proc W Decision
checked_by s c = Enforcer.allow s.enforcer c.tenant_id c.customer_id

module _ {W : Type 0} (sha256_hex : Text → Text) (m : Machine W) (s : Server W) (ports : Ports W)
    (c : Caller) where
  budget_answers :
      (w : W) (answered : Result Decision)
      → (checked_by s c w).0 ≡ answered
      → ((wired s ports).budget c.tenant_id c.customer_id w).0 ≡ granted answered
  unfolding budget_grpc Server.allow granted
  budget_answers w (ok d) h = rw (h, continue) refl
  budget_answers w (err e) h = rw (h, continue) refl

  upstream_refused :
      (req : ChatRequest) (key : Text) (w : W)
      → ((wired s ports).budget c.tenant_id c.customer_id w).0 ≡ ok false
      → (upstream sha256_hex m (wired s ports) c req key w).0 ≡ err budget_exceeded
  unfolding upstream
  upstream_refused req key w h = rw (h, continue) refl

  upstream_failed :
      (req : ChatRequest) (key : Text) (w : W) (e : Error)
      → ((wired s ports).budget c.tenant_id c.customer_id w).0 ≡ err e
      → (upstream sha256_hex m (wired s ports) c req key w).0 ≡ err e
  unfolding upstream
  upstream_failed req key w e h = rw (h, continue) refl

  after_lookup-miss :
      (req : ChatRequest) (key : Text) (found : Result (Option ChatResponse)) (w : W)
      → ((cached : ChatResponse) → found ≢ ok (some cached))
      → (after_lookup sha256_hex m (wired s ports) c req key found w)
        ≡ (upstream sha256_hex m (wired s ports) c req key w)
  unfolding after_lookup
  after_lookup-miss req key (err e) w miss = refl
  after_lookup-miss req key (ok none) w miss = refl
  after_lookup-miss req key (ok (some cached)) w miss = absurd (miss cached refl)

module _ {W : Type 0} (sha256_hex : Text → Text) (r : Redis W) (m : Machine W)
    {lookup : W → Text → Option Text} (laws : IsRedis r lookup)
    (quiet : (k : Text) (w : W) → lookup (m.now w).1 k ≡ lookup w k) (default_limit : ℤ)
    (alerter : Option (AlertPublisher W)) (ports : Ports W) (c : Caller) where
  abbrev s : Server W
  s = service r m default_limit alerter

  upstream_exhausted :
      (req : ChatRequest) (key : Text) (w : W)
      → IsInt64 (
          held_limit r m laws quiet default_limit c.tenant_id c.customer_id w
          -ℤ held_spend r m laws quiet default_limit c.tenant_id c.customer_id w)
      → held_limit r m laws quiet default_limit c.tenant_id c.customer_id w
        ≤ℤ held_spend r m laws quiet default_limit c.tenant_id c.customer_id w
      → ((upstream sha256_hex m (wired s ports) c req key w).0 ≡ err budget_exceeded)
        ⊎ ((e : Error) × ((checked_by s c w).0 ≡ err e)
            × ((upstream sha256_hex m (wired s ports) c req key w).0 ≡ err e))
  unfolding granted
  upstream_exhausted req key w fits over = elim (answer-cases (checked_by s c w).0) [
    | inl (d, said) ↦ inl (
        upstream_refused sha256_hex m s ports c req key w (
          budget_answers sha256_hex m s ports c w (ok d) said
          ∙ ap ok (
              over_limit d
                (allow_refines r m laws quiet default_limit c.tenant_id c.customer_id w d fits said)
                over)))
    | inr (e, failed) ↦ inr (
      e,
      failed,
      upstream_failed sha256_hex m s ports c req key w e
          (budget_answers sha256_hex m s ports c w (err e) failed),
    )
  ]

  -- A gateway whose budget is the budget service on a Redis that keeps its laws, with a clock that
  -- leaves it alone: when a request passed the guardrail and was not cached, and the customer's
  -- spend of the month has reached the limit in force (their difference fitting an `int64`), the
  -- answer is 402, or the budget check has failed and its error is what the request fails with.
  pub proxy-exhausted :
      (req checked : ChatRequest) (w : W)
      → ports.guardrail req ≡ ok checked
      → ((cached : ChatResponse)
          → (ports.cache.get (cache_key sha256_hex checked) w).0 ≢ ok (some cached))
      → (let asked = (ports.cache.get (cache_key sha256_hex checked) w).1 in
          IsInt64 (
            held_limit r m laws quiet default_limit c.tenant_id c.customer_id asked
            -ℤ held_spend r m laws quiet default_limit c.tenant_id c.customer_id asked))
      → (let asked = (ports.cache.get (cache_key sha256_hex checked) w).1 in
          held_limit r m laws quiet default_limit c.tenant_id c.customer_id asked
          ≤ℤ held_spend r m laws quiet default_limit c.tenant_id c.customer_id asked)
      → (let proxied = (proxy sha256_hex m (wired s ports) c req w).0 in
          (((proxied ≡ err budget_exceeded) × ((answer proxied).status ≡ 402))
            ⊎ ((e : Error) × ((checked_by s c
                    (ports.cache.get (cache_key sha256_hex checked) w).1).0
                  ≡ err e)
                × (proxied ≡ err e))))
  unfolding proxy answer
  proxy-exhausted req checked w passed miss fits over =
      let key = cache_key sha256_hex checked in
      let (found, asked) = ports.cache.get key w in
      let same : (proxy sha256_hex m (wired s ports) c req w).0
          ≡ (upstream sha256_hex m (wired s ports) c checked key asked).0 =
        rw (passed, continue)
          (ap (λ x. x.0) (after_lookup-miss sha256_hex m s ports c checked key found asked miss)) in
      elim (upstream_exhausted checked key asked fits over) [
        | inl refused ↦ inl (same ∙ refused, rw (same ∙ refused) refl)
        | inr (e, failed, raised) ↦ inr (e, failed, same ∙ raised)
      ]
