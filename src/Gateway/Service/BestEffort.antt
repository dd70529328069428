-- ===== src/Gateway/Service/BestEffort.antt =====
-- What a caller of the gateway does not notice.
use marginpilot.Base.{
  Text, ◌≡◌, ◌≢◌, refl, sym, ◌∙◌, Option, none, some, Bool, true, false, if◌then◌else◌, Proc,
  Result, ok, err, budget_exceeded, raise, lift, continue, continue-same, bind-ok, ok-injective,
}
use marginpilot.External.Machine.{Machine}
use marginpilot.Gateway.Domain.{ChatRequest, ChatResponse, Caller}
use marginpilot.Gateway.Port.{Ports, UsagePublisher}
use marginpilot.Gateway.Fingerprint.{cache_key}
use marginpilot.Gateway.Service.{emit, forward, upstream, after_lookup, proxy}

module _ {W : Type 0} (sha256_hex : Text → Text) (m : Machine W) (s : Ports W)
    (publish : UsagePublisher W) (set : Text → ChatResponse → Proc W (Unit {0})) where
  -- The same gateway with another publisher and another way to fill the cache.
  abbrev pub replaced : Ports W
  replaced = record s { publish = publish; cache = record s.cache { set = set } }

  forward-same :
      (c : Caller) (req : ChatRequest) (key : Text) (w : W)
      → (forward sha256_hex m replaced c req key w).0 ≡ (forward sha256_hex m s c req key w).0
  unfolding forward emit
  forward-same c req key w =
      continue-same (s.provider.complete req (m.now w).1).0 _ _ _ (λ resp. refl)

  answer-same :
      (c : Caller) (req : ChatRequest) (key : Text) (allowed : Bool) (w : W)
      → ((if allowed then forward sha256_hex m replaced c req key else raise budget_exceeded) w).0
        ≡ ((if allowed then forward sha256_hex m s c req key else raise budget_exceeded) w).0
  answer-same c req key true w = forward-same c req key w
  answer-same c req key false w = refl

  after_lookup-same :
      (c : Caller) (req : ChatRequest) (key : Text) (found : Result (Option ChatResponse)) (w : W)
      → (after_lookup sha256_hex m replaced c req key found w).0
        ≡ (after_lookup sha256_hex m s c req key found w).0
  unfolding after_lookup upstream emit
  after_lookup-same c req key (err _) w =
      continue-same (s.budget c.tenant_id c.customer_id w).0 _ _ _
        (λ allowed. answer-same c req key allowed _)
  after_lookup-same c req key (ok none) w =
      continue-same (s.budget c.tenant_id c.customer_id w).0 _ _ _
        (λ allowed. answer-same c req key allowed _)
  after_lookup-same c req key (ok (some resp)) w = refl

  -- Publishing usage and filling the cache are best effort: whatever they do, failing included, the
  -- answer to the request is the same.
  pub proxy-same :
      (c : Caller) (req : ChatRequest) (w : W)
      → (proxy sha256_hex m replaced c req w).0 ≡ (proxy sha256_hex m s c req w).0
  unfolding proxy
  proxy-same c req w =
      continue-same (s.guardrail req) _ _ w (λ checked. after_lookup-same c checked _ _ _)

module _ {W : Type 0} (sha256_hex : Text → Text) (m : Machine W) (s : Ports W) (c : Caller)
    (req : ChatRequest) (key : Text) (resp : ChatResponse) where
  forward-ok :
      (w : W)
      → (forward sha256_hex m s c req key w).0 ≡ ok resp
      → (w' : W) × ((s.provider.complete req w').0 ≡ ok resp)
  unfolding forward emit
  forward-ok w h =
      let (answer, made, rest) = bind-ok (s.provider.complete req) _ (m.now w).1 h in
      ((m.now w).1, made ∙ rest)

  answer-ok :
      (allowed : Bool) (w : W)
      → ((if allowed then forward sha256_hex m s c req key else raise budget_exceeded) w).0
        ≡ ok resp
      → (allowed ≡ true) × ((w' : W) × ((s.provider.complete req w').0 ≡ ok resp))
  answer-ok true w h = (refl, forward-ok w h)
  answer-ok false w h = cc

  upstream-ok :
      (w : W)
      → (upstream sha256_hex m s c req key w).0 ≡ ok resp
      → ((s.budget c.tenant_id c.customer_id w).0 ≡ ok true)
        × ((w' : W) × ((s.provider.complete req w').0 ≡ ok resp))
  unfolding upstream
  upstream-ok w h =
      let (allowed, asked, rest) = bind-ok (s.budget c.tenant_id c.customer_id) _ w h in
      let (granted, called) = answer-ok allowed _ rest in (rw (← granted) asked, called)

  after_lookup-ok :
      (found : Result (Option ChatResponse)) (w : W)
      → ((cached : ChatResponse) → found ≢ ok (some cached))
      → (after_lookup sha256_hex m s c req key found w).0 ≡ ok resp
      → ((s.budget c.tenant_id c.customer_id w).0 ≡ ok true)
        × ((w' : W) × ((s.provider.complete req w').0 ≡ ok resp))
  unfolding after_lookup
  after_lookup-ok (err _) w miss h = upstream-ok w h
  after_lookup-ok (ok none) w miss h = upstream-ok w h
  after_lookup-ok (ok (some cached)) w miss h = absurd (miss cached refl)

module _ {W : Type 0} (sha256_hex : Text → Text) (m : Machine W) (s : Ports W) (c : Caller)
    (req checked : ChatRequest) (w : W) where
  abbrev lookup : Result (Option ChatResponse) × W
  lookup = s.cache.get (cache_key sha256_hex checked) w

  -- A cached response is the answer to every request that the guardrail turns into a request with
  -- its key, whatever the customer's budget.
  pub proxy-hit :
      (resp : ChatResponse)
      → s.guardrail req ≡ ok checked
      → lookup.0 ≡ ok (some resp)
      → (proxy sha256_hex m s c req w).0 ≡ ok resp
  unfolding proxy after_lookup emit
  proxy-hit resp p q = rw (p, continue, q, after_lookup) refl

  -- A request that was not cached is answered only if the budget said yes, and then with the
  -- provider's response; a failure of the cache counts as a miss, and a failure of the budget
  -- service refuses the request.
  pub proxy-miss :
      (resp : ChatResponse)
      → s.guardrail req ≡ ok checked
      → ((cached : ChatResponse) → lookup.0 ≢ ok (some cached))
      → (proxy sha256_hex m s c req w).0 ≡ ok resp
      → ((s.budget c.tenant_id c.customer_id lookup.1).0 ≡ ok true)
        × ((w' : W) × ((s.provider.complete checked w').0 ≡ ok resp))
  unfolding proxy
  proxy-miss resp p miss h =
      let (checked', guarded, rest) = bind-ok (lift (s.guardrail req)) _ w h in
      let same : checked' ≡ checked = ok-injective (sym guarded ∙ p) in
      after_lookup-ok sha256_hex m s c checked (cache_key sha256_hex checked) resp lookup.0 lookup.1
        miss (rw same at rest)
