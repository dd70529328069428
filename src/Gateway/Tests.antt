-- ===== src/Gateway/Tests.antt =====
-- The gateway with its echo provider and a Redis in memory: its theorems at concrete inputs.
mod Cached
mod Routed
use marginpilot.Base.{
  ℕ, ◌+◌, ◌%◌, ◌↔◌, length, ◌*◌, String, budget_exceeded, ◌≤◌, Text, codes, [], ◌∷◌, map, ◌≡◌, ◌≢◌,
  ◌⊎◌, refl, arith, none, true, false, if◌then◌else◌, count_if, succeeded, trim_space, Result, ok,
  err,
}
use marginpilot.External.Machine.{Machine, frozen}
use marginpilot.External.Redis.Memory.{Memory, memory_redis}
use marginpilot.Gateway.Domain.{ChatMessage, ChatRequest, ChatResponse, Caller}
use marginpilot.Gateway.Port.{Ports}
use marginpilot.Gateway.Fingerprint.{cache_key, preimage}
use marginpilot.Gateway.Fingerprint.Collisions.{cache_key-eq, normal, IsPlainRequest}
use marginpilot.External.Hex.{encode}
use marginpilot.Gateway.Service.{proxy, emit, new_id}
use marginpilot.Gateway.Service.Ids.{IsSource, new_id-equal}
use marginpilot.Gateway.Service.Traces.{
  Run, recording, recording_machine, proxy-Run, proxy-counts, is_publish, is_complete, is_ask,
}
use marginpilot.Gateway.Service.BestEffort.{proxy-miss, proxy-same, replaced}
use marginpilot.Gateway.Http.{Request, Response, chat_completions, resolve_caller}
use marginpilot.Gateway.Http.Statuses.{Answers, chat_completions-Answers}
use marginpilot.Gateway.Echo.{echo, complete}
use marginpilot.Gateway.Adapters.{allow_all, noop_guardrail, redis_cache, redis_get}

abbrev machine : Machine Memory
machine = frozen (63_950_000_000 * 1_000_000_000) (codes "id")

abbrev nothing : Memory
nothing key = none

abbrev message : String → ChatMessage
message s = record { role = codes "user"; content = codes s }

abbrev hello : ChatRequest
hello = record { model = codes "gpt-4o"; messages = message " hi there" ∷ []; stream = false }

abbrev hello_trimmed : ChatRequest
hello_trimmed = record {
  model = codes "gpt-4o";
  messages = message "hi there" ∷ [];
  stream = false;
}

abbrev reply : ChatResponse
reply = complete hello

abbrev marshal : ChatResponse → Result Text
marshal resp = ok (codes "reply")

abbrev unmarshal : Text → Result ChatResponse
unmarshal b = ok reply

abbrev hash : Text → Text
hash s = s

abbrev ports : Ports Memory
ports = record {
  provider = echo;
  publish = λ e w. (ok tt, w);
  budget = allow_all;
  cache = redis_cache marshal unmarshal memory_redis;
  guardrail = noop_guardrail;
}

abbrev caller : Caller
caller = record { tenant_id = codes "acme"; customer_id = codes "c1"; feature = codes "chat" }

proxy-Run_example :
    let out = proxy hash (recording_machine machine) (recording ports) caller hello (nothing, []) in
    Run hash (codes "echo") caller out.0 out.1.1
proxy-Run_example = proxy-Run hash machine ports caller hello nothing

proxy-counts_example :
    let out = proxy hash (recording_machine machine) (recording ports) caller hello (nothing, []) in
    (count_if is_publish out.1.1 ≡ (if succeeded out.0 then 1 else 0))
    × (count_if is_complete out.1.1 ≤ count_if is_ask out.1.1)
    × (count_if is_ask out.1.1 ≤ 1)
proxy-counts_example = proxy-counts hash machine ports caller hello nothing

proxy-same_example :
    (proxy hash machine
      (replaced hash machine ports (λ e w. (err budget_exceeded, w)) (λ k r w. (ok tt, w)))
      caller
      hello
      nothing).0
    ≡ (proxy hash machine ports caller hello nothing).0
proxy-same_example =
    proxy-same hash machine ports (λ e w. (err budget_exceeded, w)) (λ k r w. (ok tt, w)) caller
      hello nothing

proxy-miss_example :
    ((allow_all {W = Memory} (codes "acme") (codes "c1") nothing).0 ≡ ok true)
    × ((w : Memory) × ((echo.complete hello w).0 ≡ ok reply))
unfolding redis_get emit
proxy-miss_example =
    proxy-miss hash machine ports caller hello hello nothing reply refl
      (λ cached h. unfold redis_get in cc) (unfold proxy in refl)

abbrev post : Request
post = record { header = λ name. codes "Bearer mp_demo"; body = codes "{}" }

abbrev bare : Request
bare = record { header = λ name. []; body = codes "{}" }

abbrev pub decode : Text → Result ChatRequest
decode body = ok hello

chat_completions-Answers_example :
    (resp : Response) × ((chat_completions decode hash machine ports none post nothing).0 ≡ ok resp)
    × Answers
        (resolve_caller none post nothing).0
        (ok hello)
        (λ c req. (proxy hash machine ports c req (resolve_caller none post nothing).1).0)
        resp
chat_completions-Answers_example =
    chat_completions-Answers decode hash machine ports none post nothing

hello-IsPlain : IsPlainRequest hello
unfolding trim_space
hello-IsPlain = record { model = ground arith; messages = ground arith }

hello_trimmed-IsPlain : IsPlainRequest hello_trimmed
unfolding trim_space
hello_trimmed-IsPlain = record { model = ground arith; messages = ground arith }

cache_key-eq_example :
    ((hello.model ≡ hello_trimmed.model)
      × (map normal hello.messages ≡ map normal hello_trimmed.messages))
    ⊎ ((preimage hello ≢ preimage hello_trimmed)
        × (hash (preimage hello) ≡ hash (preimage hello_trimmed)))
unfolding trim_space
cache_key-eq_example =
    cache_key-eq hash hello hello_trimmed hello-IsPlain hello_trimmed-IsPlain
      (unfold cache_key in refl)
