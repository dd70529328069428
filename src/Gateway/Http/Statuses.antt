-- ===== src/Gateway/Http/Statuses.antt =====
-- Which answer the API gives, and why.
use marginpilot.Base.{
  Text, codes, [], ◌≡◌, ◌≢◌, ◌⊎◌, inl, inr, refl, Option, Result, Error, ok, err, unauthorized,
  key_not_found, blocked, budget_exceeded,
}
use marginpilot.External.Machine.{Machine}
use marginpilot.Gateway.Domain.{ChatRequest, ChatResponse, Caller}
use marginpilot.Gateway.Port.{Ports, CallerResolver}
use marginpilot.Gateway.Service.{proxy}
use marginpilot.Gateway.Http.{
  Request, Response, completion, write_error, bearer, resolve_failure, answer, complete,
  with_caller, resolve_caller, chat_completions,
}

-- How a request is answered, from what was found out about the caller, the body and, if both are
-- known, the proxied request.
pub data Answers (caller : Result Caller) (req : Result ChatRequest)
    (proxied : Caller → ChatRequest → Result ChatResponse) (resp : Response) : Type 0 where
  unknown_key :
      (e : Error)
      → caller ≡ err e
      → (e ≡ unauthorized) ⊎ (e ≡ key_not_found)
      → resp.status ≡ 401
      → Answers caller req proxied resp
  identity_down :
      (e : Error)
      → caller ≡ err e
      → e ≢ unauthorized
      → e ≢ key_not_found
      → resp.status ≡ 502
      → Answers caller req proxied resp
  bad_body :
      (c : Caller) (e : Error)
      → caller ≡ ok c
      → req ≡ err e
      → resp.status ≡ 400
      → Answers caller req proxied resp
  forbidden :
      (c : Caller) (r : ChatRequest)
      → caller ≡ ok c
      → req ≡ ok r
      → proxied c r ≡ err blocked
      → resp.status ≡ 403
      → Answers caller req proxied resp
  over_budget :
      (c : Caller) (r : ChatRequest)
      → caller ≡ ok c
      → req ≡ ok r
      → proxied c r ≡ err budget_exceeded
      → resp.status ≡ 402
      → Answers caller req proxied resp
  upstream_down :
      (c : Caller) (r : ChatRequest) (e : Error)
      → caller ≡ ok c
      → req ≡ ok r
      → proxied c r ≡ err e
      → e ≢ blocked
      → e ≢ budget_exceeded
      → resp.status ≡ 502
      → Answers caller req proxied resp
  completed :
      (c : Caller) (r : ChatRequest) (out : ChatResponse)
      → caller ≡ ok c
      → req ≡ ok r
      → proxied c r ≡ ok out
      → resp.status ≡ 200
      → resp.content ≡ completion out
      → Answers caller req proxied resp

module _ {caller : Result Caller} {req : Result ChatRequest}
    {proxied : Caller → ChatRequest → Result ChatResponse} where
  resolve_failure-Answers :
      (e : Error) → caller ≡ err e → Answers caller req proxied (resolve_failure e)
  unfolding resolve_failure
  resolve_failure-Answers unauthorized p = unknown_key unauthorized p (inl refl) refl
  resolve_failure-Answers key_not_found p = unknown_key key_not_found p (inr refl) refl
  resolve_failure-Answers e p = identity_down e p (λ q. cc) (λ q. cc) refl

  answer-Answers :
      (c : Caller) (r : ChatRequest) (out : Result ChatResponse)
      → caller ≡ ok c
      → req ≡ ok r
      → proxied c r ≡ out
      → Answers caller req proxied (answer out)
  unfolding answer
  answer-Answers c r (ok out) p q made = completed c r out p q made refl refl
  answer-Answers c r (err blocked) p q made = forbidden c r p q made refl
  answer-Answers c r (err budget_exceeded) p q made = over_budget c r p q made refl
  answer-Answers c r (err e) p q made = upstream_down c r e p q made (λ h. cc) (λ h. cc) refl

module _ {W : Type 0} (decode : Text → Result ChatRequest) (sha256_hex : Text → Text)
    (m : Machine W) (s : Ports W) (body : Text) where
  abbrev result_at : W → Caller → ChatRequest → Result ChatResponse
  result_at w c req = (proxy sha256_hex m s c req w).0

  complete-Answers :
      (c : Caller) (req : Result ChatRequest) (w : W)
      → (resp : Response) × ((complete decode sha256_hex m s c req w).0 ≡ ok resp)
        × Answers (ok c) req (result_at w) resp
  unfolding complete write_error
  complete-Answers c (err e) w = (write_error 400 _, refl, bad_body c e refl refl refl)
  complete-Answers c (ok req) w =
      (answer (result_at w c req), refl, answer-Answers c req (result_at w c req) refl refl refl)

  with_caller-Answers :
      (caller : Result Caller) (w : W)
      → (resp : Response) × ((with_caller decode sha256_hex m s body caller w).0 ≡ ok resp)
        × Answers caller (decode body) (result_at w) resp
  unfolding with_caller
  with_caller-Answers (err e) w = (resolve_failure e, refl, resolve_failure-Answers e refl)
  with_caller-Answers (ok c) w = complete-Answers c (decode body) w

module _ {W : Type 0} (decode : Text → Result ChatRequest) (sha256_hex : Text → Text)
    (m : Machine W) (s : Ports W) (resolver : Option (CallerResolver W)) (r : Request) (w : W) where
  abbrev known : Result Caller × W
  known = resolve_caller resolver r w

  -- Every request is answered, with the status that fits what happened: 401 for a missing or unknown
  -- key, 400 for a bad body, 403 for a blocked request, 402 for a customer over budget, 502 for a
  -- failure of identity or upstream, and 200, with the response, for a proxied one.
  pub chat_completions-Answers :
      (resp : Response) × ((chat_completions decode sha256_hex m s resolver r w).0 ≡ ok resp)
      × Answers known.0 (decode r.body) (λ c req. (proxy sha256_hex m s c req known.1).0) resp
  unfolding chat_completions
  chat_completions-Answers = with_caller-Answers decode sha256_hex m s r.body known.0 known.1

  -- With no key, or an empty one, the answer is 401 and nothing outside the process is called.
  chat_completions_no_key :
      bearer (r.header (codes "Authorization")) ≡ []
      → (resp : Response) × (chat_completions decode sha256_hex m s resolver r w ≡ (ok resp, w))
        × (resp.status ≡ 401)
  unfolding chat_completions resolve_caller resolve_failure
  chat_completions_no_key p = (resolve_failure unauthorized, rw p refl, refl)
