-- ===== src/Gateway/Adapters/RedisCache.antt =====
-- What the Redis cache gives back.
use marginpilot.Base.{
  Text, text_eq_refl, ◌≡◌, ◌≢◌, ◌⊎◌, inl, inr, refl, sym, ap, ◌∙◌, Option, some, some-eq, Result,
  Error, ok, err, continue, redis_nil, bind-ok, lift,
}
use marginpilot.External.Redis.{Redis, IsRedis}
use marginpilot.Gateway.Domain.{ChatResponse}
use marginpilot.Gateway.Adapters.{prefixed, ttl, decoded, present, redis_get, redis_set}

present-some :
    (out : Result ChatResponse) {cached resp : ChatResponse}
    → out ≡ ok resp
    → present out ≡ ok (some cached)
    → cached ≡ resp
unfolding present
present-some (ok a) e h = cc
present-some (err x) e h = cc

decoded-some :
    (unmarshal : Text → Result ChatResponse) (out : Result Text) {held : Option Text} {b : Text}
    {cached resp : ChatResponse}
    → ((v : Text) → out ≡ ok v → held ≡ some v)
    → held ≡ some b
    → unmarshal b ≡ ok resp
    → decoded unmarshal out ≡ ok (some cached)
    → cached ≡ resp
unfolding decoded
decoded-some unmarshal (ok v) {b = b} holds stored codec h =
    let same : v ≡ b = cc (holds v refl) in present-some (unmarshal v) (ap unmarshal same ∙ codec) h
decoded-some unmarshal (err redis_nil) holds stored codec h = cc
decoded-some unmarshal (err _) holds stored codec h = cc

module _ {W : Type 0} (marshal : ChatResponse → Result Text)
    (unmarshal : Text → Result ChatResponse) (r : Redis W) {lookup : W → Text → Option Text}
    (laws : IsRedis r lookup) where
  read_back :
      (out : Result Text) (key : Text) (resp cached : ChatResponse) (w : W)
      → ((b : Text) → out ≡ ok b → unmarshal b ≡ ok resp)
      → (continue out (λ b. r.set (prefixed key) b ttl) w).0 ≡ ok tt
      → (redis_get marshal unmarshal r key (continue out (λ b. r.set (prefixed key) b ttl) w).1).0
        ≡ ok (some cached)
      → cached ≡ resp
  unfolding redis_get
  read_back (err e) key resp cached w codec stored read = cc
  read_back (ok b) key resp cached w codec stored read =
      let held =
        rw text_eq_refl at (laws.lookup-set (prefixed key) b ttl (prefixed key) w stored) in
      decoded-some unmarshal _ (λ v e. laws.get-ok (prefixed key) v _ e) held (codec b refl) read

  -- On a Redis that keeps its laws, after a response was stored under a key, a read of that key
  -- that finds a response finds that one, if the codec decodes what it encoded.
  redis_get-redis_set :
      (key : Text) (resp cached : ChatResponse) (w : W)
      → ((b : Text) → marshal resp ≡ ok b → unmarshal b ≡ ok resp)
      → (redis_set marshal unmarshal r key resp w).0 ≡ ok tt
      → (redis_get marshal unmarshal r key (redis_set marshal unmarshal r key resp w).1).0
        ≡ ok (some cached)
      → cached ≡ resp
  unfolding redis_set
  redis_get-redis_set key resp cached w codec stored read =
      read_back (marshal resp) key resp cached w codec stored read

  -- A stored response is held in a text that decodes to it.
  pub held-redis_set :
      (key : Text) (resp : ChatResponse) (w : W)
      → ((b : Text) → marshal resp ≡ ok b → unmarshal b ≡ ok resp)
      → (redis_set marshal unmarshal r key resp w).0 ≡ ok tt
      → (b : Text) × (unmarshal b ≡ ok resp)
        × (lookup (redis_set marshal unmarshal r key resp w).1 (prefixed key) ≡ some b)
  unfolding redis_set
  held-redis_set key resp w codec h =
      let (b, encoded, stored) = bind-ok (lift (marshal resp)) _ w h in
      (
        b,
        codec b encoded,
        rw (encoded, continue)
            (rw text_eq_refl at (laws.lookup-set (prefixed key) b ttl (prefixed key) w stored)),
      )

  get-held :
      (key b : Text) (resp : ChatResponse) (out : Result Text) (w : W)
      → (r.get (prefixed key) w).0 ≡ out
      → lookup w (prefixed key) ≡ some b
      → unmarshal b ≡ ok resp
      → ((redis_get marshal unmarshal r key w).0 ≡ ok (some resp))
        ⊎ ((e : Error) × (out ≡ err e) × (e ≢ redis_nil))
  unfolding redis_get decoded present
  get-held key b resp (ok v) w read held decodes =
      let same : v ≡ b = some-eq (sym (laws.get-ok (prefixed key) v w read) ∙ held) in
      inl (rw (read, same, decodes) refl)
  get-held key b resp (err e) w read held decodes =
      inr (e, refl, λ nil. cc (laws.get-nil (prefixed key) w (read ∙ ap err nil)))

  -- Reading a key that holds a response gives it, or the read itself fails.
  pub redis_get-held :
      (key b : Text) (resp : ChatResponse) (w : W)
      → lookup w (prefixed key) ≡ some b
      → unmarshal b ≡ ok resp
      → ((redis_get marshal unmarshal r key w).0 ≡ ok (some resp))
        ⊎ ((e : Error) × ((r.get (prefixed key) w).0 ≡ err e) × (e ≢ redis_nil))
  redis_get-held key b resp w = get-held key b resp (r.get (prefixed key) w).0 w refl
