-- ===== src/Gateway/Tests/Cached.antt =====
-- A request that is answered by the response that an earlier one stored.
use marginpilot.Base.{◌≡◌, ◌≢◌, ◌⊎◌, refl, Error, ok, err, redis_nil, trim_space}
use marginpilot.External.Redis.Memory.{Memory, memory_redis, memory_redis-IsRedis}
use marginpilot.Gateway.Adapters.{prefixed, redis_cache, redis_set}
use marginpilot.Gateway.Fingerprint.{cache_key}
use marginpilot.Gateway.Service.{proxy}
use marginpilot.Gateway.Service.Cached.{proxy-stored}
use marginpilot.Gateway.Tests.{
  machine, nothing, hello, hello_trimmed, reply, marshal, unmarshal, hash, ports, caller,
}

abbrev stored : Memory
stored = (redis_set marshal unmarshal memory_redis (cache_key hash hello) reply nothing).1

proxy-stored_example :
    ((proxy hash machine
        (record ports { cache = redis_cache marshal unmarshal memory_redis })
        caller
        hello_trimmed
        stored).0
      ≡ ok reply)
    ⊎ ((e : Error) × ((memory_redis.get (prefixed (cache_key hash hello)) stored).0 ≡ err e)
        × (e ≢ redis_nil))
unfolding redis_set cache_key trim_space
proxy-stored_example =
    proxy-stored marshal unmarshal memory_redis memory_redis-IsRedis hash machine ports caller
      hello_trimmed hello_trimmed hello reply nothing stored (λ b h. refl) refl refl refl refl
