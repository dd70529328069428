-- ===== src/Gateway/Service/Traces.antt =====
-- Which outbound calls the request path makes, in which order, and with what.
use marginpilot.Base.{
  Text, List, [], ◌∷◌, ◌++◌, ◌≡◌, ◌≤◌, arith, Option, none, some, Bool, true, false, if◌then◌else◌,
  ℤ, pos, Proc, Result, Error, ok, err, budget_exceeded, raise, lift, after_bind, count_if,
  succeeded,
}
use marginpilot.Shared.Events.{UsageEvent}
use marginpilot.External.Machine.{Machine}
use marginpilot.Gateway.Domain.{ChatRequest, ChatResponse, Caller}
use marginpilot.Gateway.Port.{Ports}
use marginpilot.Gateway.Fingerprint.{cache_key}
use marginpilot.Gateway.Service.{emit, forward, upstream, after_lookup, proxy, cache_provider}

pub data Call : Type 0 where
  got : Text → Call
  asked : Text → Text → Call
  completed : ChatRequest → Call
  stored : Text → ChatResponse → Call
  published : UsageEvent → Call

-- The world with a record of the calls made so far.
abbrev pub Recorded : Type 0 → Type 0
Recorded W = W × List Call

abbrev note : {W A : Type 0} → Call → Proc W A → Proc (Recorded W) A
note c p (w, log) = let (r, w') = p w in (r, (w', log ++ c ∷ []))

abbrev unseen : {W A : Type 0} → (W → A × W) → Recorded W → A × Recorded W
unseen f (w, log) = let (a, w') = f w in (a, (w', log))

-- The same ports, which write down each call.
abbrev pub recording : {W : Type 0} → Ports W → Ports (Recorded W)
recording s = record {
  provider = record {
    name = s.provider.name;
    complete = λ req. note (completed req) (s.provider.complete req);
  };
  publish = λ e. note (published e) (s.publish e);
  budget = λ t c. note (asked t c) (s.budget t c);
  cache = record {
    get = λ k. note (got k) (s.cache.get k);
    set = λ k resp. note (stored k resp) (s.cache.set k resp);
  };
  guardrail = s.guardrail;
}

abbrev pub recording_machine : {W : Type 0} → Machine W → Machine (Recorded W)
recording_machine m = record { now = unseen m.now; random = unseen m.random }

-- The event charges the caller for the response, to `provider`, with these tokens.
pub record Charges (e : UsageEvent) (c : Caller) (resp : ChatResponse) (provider : Text)
    (in_tokens out_tokens : ℤ) : Type 0 where
  pub tenant : e.tenant_id ≡ c.tenant_id
  pub customer : e.customer_id ≡ c.customer_id
  pub feature : e.feature ≡ c.feature
  pub model : e.model ≡ resp.model
  pub by_provider : e.provider ≡ provider
  pub input : e.input_tokens ≡ in_tokens
  pub output : e.output_tokens ≡ out_tokens

-- The five ways in which a request can go, each with its result and its calls in order.
pub data Run (sha256_hex : Text → Text) (provider : Text) (c : Caller)
    : Result ChatResponse → List Call → Type 0 where
  rejected : (e : Error) → Run sha256_hex provider c (err e) []
  hit :
      (req : ChatRequest) (resp : ChatResponse) (e : UsageEvent)
      → Charges e c resp cache_provider (pos 0) (pos 0)
      → Run sha256_hex provider c (ok resp) (got (cache_key sha256_hex req) ∷ published e ∷ [])
  refused :
      (req : ChatRequest) (e : Error)
      → Run sha256_hex provider c
          (err e)
          (got (cache_key sha256_hex req) ∷ asked c.tenant_id c.customer_id ∷ [])
  failed :
      (req : ChatRequest) (e : Error)
      → Run sha256_hex provider c
          (err e)
          (got (cache_key sha256_hex req) ∷ asked c.tenant_id c.customer_id ∷ completed req ∷ [])
  served :
      (req : ChatRequest) (resp : ChatResponse) (e : UsageEvent)
      → Charges e c resp provider resp.usage.prompt_tokens resp.usage.completion_tokens
      → Run sha256_hex provider c (ok resp) (
          got (cache_key sha256_hex req)
          ∷ asked c.tenant_id c.customer_id
          ∷ completed req
          ∷ stored (cache_key sha256_hex req) resp
          ∷ published e
          ∷ [])

module _ {W : Type 0} (sha256_hex : Text → Text) (m : Machine W) (s : Ports W) (c : Caller) where
  abbrev Goes : Result ChatResponse × Recorded W → Type 0
  Goes out = Run sha256_hex s.provider.name c out.0 out.1.1

  forward-Run :
      (req : ChatRequest) (w : W)
      → Goes (
          forward sha256_hex
            (recording_machine m)
            (recording s)
            c
            req
            (cache_key sha256_hex req)
            (w, got (cache_key sha256_hex req) ∷ asked c.tenant_id c.customer_id ∷ []))
  unfolding forward emit
  forward-Run req w =
      after_bind Goes ((recording s).provider.complete req) _
        ((m.now w).1, got (cache_key sha256_hex req) ∷ asked c.tenant_id c.customer_id ∷ [])
        (λ resp _. served req resp _ (ground arith)) (λ e _. failed req e)

  answer-Run :
      (req : ChatRequest) (allowed : Bool) (w : W)
      → Goes (
          (if allowed
              then forward sha256_hex
                  (recording_machine m)
                  (recording s)
                  c
                  req
                  (cache_key sha256_hex req)
              else raise budget_exceeded)
            (w, got (cache_key sha256_hex req) ∷ asked c.tenant_id c.customer_id ∷ []))
  answer-Run req true w = forward-Run req w
  answer-Run req false w = refused req budget_exceeded

  upstream-Run :
      (req : ChatRequest) (w : W)
      → Goes (
          upstream sha256_hex
            (recording_machine m)
            (recording s)
            c
            req
            (cache_key sha256_hex req)
            (w, got (cache_key sha256_hex req) ∷ []))
  unfolding upstream
  upstream-Run req w =
      after_bind Goes ((recording s).budget c.tenant_id c.customer_id) _
        (w, got (cache_key sha256_hex req) ∷ []) (λ allowed _. answer-Run req allowed _)
        (λ e _. refused req e)

  after_lookup-Run :
      (req : ChatRequest) (found : Result (Option ChatResponse)) (w : W)
      → Goes (
          after_lookup sha256_hex
            (recording_machine m)
            (recording s)
            c
            req
            (cache_key sha256_hex req)
            found
            (w, got (cache_key sha256_hex req) ∷ []))
  unfolding after_lookup emit
  after_lookup-Run req (err _) w = upstream-Run req w
  after_lookup-Run req (ok none) w = upstream-Run req w
  after_lookup-Run req (ok (some resp)) w = hit req resp _ (ground arith)

  -- Every request goes in one of five ways, whatever the ports do: a rejected request makes no
  -- call; a cache hit asks neither budget nor provider and is charged to "cache" with no tokens;
  -- else the budget is asked, and the request ends there, or with a failure of the provider, or
  -- with a response that is stored and charged with its own token counts.
  pub proxy-Run :
      (req : ChatRequest) (w : W)
      → Goes (proxy sha256_hex (recording_machine m) (recording s) c req (w, []))
  unfolding proxy
  proxy-Run req w =
      after_bind Goes (lift (s.guardrail req)) _ (w, []) (λ checked _. after_lookup-Run checked _ _)
        (λ e _. rejected e)

abbrev pub is_publish : Call → Bool
is_publish (published _) = true
is_publish _ = false

abbrev pub is_complete : Call → Bool
is_complete (completed _) = true
is_complete _ = false

abbrev pub is_ask : Call → Bool
is_ask (asked _ _) = true
is_ask _ = false

Run-counts :
    (sha256_hex : Text → Text) (provider : Text) (c : Caller) {r : Result ChatResponse}
    {log : List Call}
    → Run sha256_hex provider c r log
    → (count_if is_publish log ≡ (if succeeded r then 1 else 0))
      × (count_if is_complete log ≤ count_if is_ask log)
      × (count_if is_ask log ≤ 1)
Run-counts h p c (rejected e) = omega arith
Run-counts h p c (hit req resp e x) = omega arith
Run-counts h p c (refused req e) = omega arith
Run-counts h p c (failed req e) = omega arith
Run-counts h p c (served req resp e x) = omega arith

-- The usage of a request that is answered is handed to the publisher exactly once, and that of
-- one that is refused never; the provider is called at most once, and never without the budget
-- having been asked.
pub proxy-counts :
    {W : Type 0} (sha256_hex : Text → Text) (m : Machine W) (s : Ports W) (c : Caller)
    (req : ChatRequest) (w : W)
    → let out = proxy sha256_hex (recording_machine m) (recording s) c req (w, []) in
      (count_if is_publish out.1.1 ≡ (if succeeded out.0 then 1 else 0))
      × (count_if is_complete out.1.1 ≤ count_if is_ask out.1.1)
      × (count_if is_ask out.1.1 ≤ 1)
proxy-counts h m s c req w = Run-counts h s.provider.name c (proxy-Run h m s c req w)
