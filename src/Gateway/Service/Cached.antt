-- ===== src/Gateway/Service/Cached.antt =====
-- The gateway with its Redis cache: who is answered by a response that was stored.
use marginpilot.Base.{Text, ◌≡◌, ◌≢◌, ◌⊎◌, inl, inr, ◌∙◌, Option, Result, Error, ok, err, redis_nil}
use marginpilot.External.Machine.{Machine}
use marginpilot.External.Redis.{Redis, IsRedis}
use marginpilot.Gateway.Domain.{ChatRequest, ChatResponse, Caller}
use marginpilot.Gateway.Port.{Ports}
use marginpilot.Gateway.Adapters.{prefixed, redis_set, redis_cache}
use marginpilot.Gateway.Adapters.RedisCache.{held-redis_set, redis_get-held}
use marginpilot.Gateway.Fingerprint.{cache_key}
use marginpilot.Gateway.Service.{proxy}
use marginpilot.Gateway.Service.BestEffort.{proxy-hit}

module _ {W : Type 0} (marshal : ChatResponse → Result Text)
    (unmarshal : Text → Result ChatResponse) (r : Redis W) {lookup : W → Text → Option Text}
    (laws : IsRedis r lookup) where
  -- On a Redis that keeps its laws, with a codec that decodes what it encoded: after a response
  -- was stored under the key of a request, and as long as the key still holds it, that response is the
  -- answer to every request that the guardrail turns into one with the same key, whoever the caller
  -- is and whatever budget and provider say, unless the read of the cache fails.
  pub proxy-stored :
      (sha256_hex : Text → Text) (m : Machine W) (s : Ports W) (c : Caller)
      (req checked stored : ChatRequest) (resp : ChatResponse) (w w' : W)
      → ((b : Text) → marshal resp ≡ ok b → unmarshal b ≡ ok resp)
      → (let key = cache_key sha256_hex stored in
          (redis_set marshal unmarshal r key resp w).0 ≡ ok tt)
      → (let key = cache_key sha256_hex stored in
          lookup w' (prefixed key)
          ≡ lookup (redis_set marshal unmarshal r key resp w).1 (prefixed key))
      → s.guardrail req ≡ ok checked
      → cache_key sha256_hex checked ≡ cache_key sha256_hex stored
      → ((proxy sha256_hex m (record s { cache = redis_cache marshal unmarshal r }) c req w').0
          ≡ ok resp)
        ⊎ ((e : Error) × ((r.get (prefixed (cache_key sha256_hex stored)) w').0 ≡ err e)
            × (e ≢ redis_nil))
  proxy-stored sha256_hex m s c req checked stored resp w w' codec set kept passed same =
      let key = cache_key sha256_hex stored in
      let (b, decodes, held) = held-redis_set marshal unmarshal r laws key resp w codec set in
      elim (redis_get-held marshal unmarshal r laws key b resp w' (kept ∙ held) decodes) [
        | inl found ↦ inl (
            proxy-hit sha256_hex m (record s { cache = redis_cache marshal unmarshal r }) c req
              checked w' resp passed (rw same found))
        | inr failed ↦ inr failed
      ]
