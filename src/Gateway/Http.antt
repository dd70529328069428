-- ===== src/Gateway/Http.antt =====
-- services/gateway/internal/adapter/inbound/httpapi/handler.go. A request is its headers and its
-- body, a response its status and what is encoded into it. The JSON decoder is a parameter, and a
-- header that is absent reads as the empty text.
pub mod Statuses
use marginpilot.Base.{
  ℕ, Text, codes, is_empty, trim_space, strip_prefix, Option, none, some, Bool, true, false, ◌||◌,
  if◌then◌else◌, Proc, Result, Error, ok, err, unauthorized, key_not_found, blocked,
  budget_exceeded, pure, raise, attempt, ◌>>=◌,
}
use marginpilot.External.Machine.{Machine}
use marginpilot.Gateway.Domain.{ChatRequest, ChatResponse, Caller}
use marginpilot.Gateway.Port.{Ports, CallerResolver}
use marginpilot.Gateway.Service.{proxy}

pub record Request : Type 0 where
  pub header : Text → Text
  pub body : Text

pub data Body : Type 0 where
  error_message : Text → Body
  completion : ChatResponse → Body

pub record Response : Type 0 where
  pub status : ℕ
  pub content : Body

-- `writeError`
unfoldable pub write_error : ℕ → Text → Response
write_error code msg = record { status = code; content = error_message msg }

after_prefix : Text → Option Text → Text
after_prefix h none = trim_space h
after_prefix h (some key) = trim_space key

-- `bearer`
unfoldable pub bearer : Text → Text
unfolding after_prefix
bearer h = after_prefix h (strip_prefix (codes "Bearer ") h)

-- `headerOr`
unfoldable pub header_or : Request → Text → Text → Text
header_or r key def = let v = r.header key in if is_empty v then def else v

-- The caller that the headers name, with demo defaults.
unfoldable pub header_caller : Request → Caller
unfolding header_or
header_caller r = record {
  tenant_id = header_or r (codes "X-Tenant-Id") (codes "demo-tenant");
  customer_id = header_or r (codes "X-Customer-Id") (codes "demo-customer");
  feature = header_or r (codes "X-Feature") (codes "default");
}

abbrev is_unauthorized : Error → Bool
is_unauthorized unauthorized = true
is_unauthorized _ = false

abbrev is_key_not_found : Error → Bool
is_key_not_found key_not_found = true
is_key_not_found _ = false

abbrev is_blocked : Error → Bool
is_blocked blocked = true
is_blocked _ = false

abbrev is_budget_exceeded : Error → Bool
is_budget_exceeded budget_exceeded = true
is_budget_exceeded _ = false

-- The first branch of `chatCompletions`.
unfoldable pub resolve_failure : Error → Response
unfolding write_error
resolve_failure e =
    if is_unauthorized e || is_key_not_found e
    then write_error 401 (codes "invalid or missing api key")
    else write_error 502 (codes "identity service error")

-- The final `switch` of `chatCompletions`, and the encoding after it.
unfoldable pub answer : Result ChatResponse → Response
unfolding write_error
answer (ok resp) = record { status = 200; content = completion resp }
answer (err e) =
    if is_blocked e
    then write_error 403 (codes "request blocked by guardrail")
    else if is_budget_exceeded e
    then write_error 402 (codes "budget exceeded for customer")
    else write_error 502 (codes "upstream provider error")

module _ {W : Type 0} (resolver : Option (CallerResolver W)) where
  lookup_caller : Option (CallerResolver W) → Request → Text → Proc W Caller
  lookup_caller none r key = pure (header_caller r)
  lookup_caller (some resolve) r key = resolve key

  -- `resolveCaller`
  unfoldable pub resolve_caller : Request → Proc W Caller
  unfolding lookup_caller
  resolve_caller r =
      let key = bearer (r.header (codes "Authorization")) in
      if is_empty key then raise unauthorized else lookup_caller resolver r key

module _ {W : Type 0} (decode : Text → Result ChatRequest) (sha256_hex : Text → Text)
    (m : Machine W) (s : Ports W) where
  -- `chatCompletions` after the caller and the decoded body are known
  unfoldable pub complete : Caller → Result ChatRequest → Proc W Response
  complete caller (err e) = pure (write_error 400 (codes "invalid request body"))
  complete caller (ok req) = do resp ← attempt (proxy sha256_hex m s caller req); pure (answer resp)

  unfoldable pub with_caller : Text → Result Caller → Proc W Response
  unfolding complete
  with_caller body (err e) = pure (resolve_failure e)
  with_caller body (ok caller) = complete caller (decode body)

  -- `chatCompletions`
  unfoldable pub chat_completions : Option (CallerResolver W) → Request → Proc W Response
  unfolding with_caller
  chat_completions resolver r = do
    caller ← attempt (resolve_caller resolver r)
    with_caller r.body caller
