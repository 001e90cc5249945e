-- ===== src/Infrastructure/RedisClient.antt =====
-- The clients of infrastructure/redis_client.py.
pub mod Spec
pub mod Represents
pub mod Refinement
pub mod Disabled
use stock_trader.Prelude.{
  ℕ, ◌*◌, Bool, true, false, Option, none, some, List, [], ◌∷◌, String, ltb, if◌then◌else◌,
}
use stock_trader.Errors.{
  Message, Exception, Result, ok, err, raise, runtime_error, text, number, ◌>>=◌,
}
use stock_trader.Infrastructure.RedisServer.{RedisServer}

-- `RedisClient`; `connected` says whether `_client` is set.
pub record RedisClient : Type 0 where
  pub host : String
  pub port : ℕ
  pub db : ℕ
  pub decode_responses : Bool
  pub connected : Bool

unfoldable pub get_redis_url : RedisClient → Message
get_redis_url c =
    text "redis://" ∷ text c.host ∷ text ":" ∷ number c.port ∷ text "/" ∷ number c.db ∷ []

unfoldable pub connect : RedisClient → RedisClient
connect c = record c { connected = true }

unfoldable pub close : RedisClient → RedisClient
close c = record c { connected = false }

-- The property `client`.
unfoldable pub client : RedisClient → Result (Unit {0})
client c =
    if c.connected
    then ok tt
    else raise runtime_error (text "Redis client not connected. Call connect() first." ∷ [])

abbrev pub default_ttl : Option ℕ
default_ttl = some 3600

module _ (redis : RedisServer) where
  abbrev Store : Type 0
  Store = redis.Store

  -- What a method returns, and the store afterwards; a command that fails leaves it as it is.
  abbrev pub Outcome {ℓ} : Type ℓ → Type ℓ
  Outcome A = Result A × Store

  abbrev pub stored : Store → Result Store → Outcome (Unit {0})
  stored s (err e) = (err e, s)
  stored s (ok s') = (ok tt, s')

  abbrev pub when_connected {ℓ} : {A : Type ℓ} → Store → Result (Unit {0}) → Outcome A → Outcome A
  when_connected s (err e) rest = (err e, s)
  when_connected s (ok _) rest = rest

  unfoldable pub enqueue : RedisClient → ℕ → String → String → Store → Outcome (Unit {0})
  enqueue c now queue value s =
      when_connected s (client c) (stored s (redis.lpush now queue value s))

  -- `result[1] if result else None`
  abbrev pub popped : Result (Option (String × String)) × Store → Outcome (Option String)
  popped (err e, s) = (err e, s)
  popped (ok none, s) = (ok none, s)
  popped (ok (some (key, value)), s) = (ok (some value), s)

  abbrev pub when_replied :
      Option (Result (Option (String × String)) × Store) → Option (Outcome (Option String))
  when_replied none = none
  when_replied (some reply) = some (popped reply)

  abbrev pub waits_connected :
      Store
      → Result (Unit {0})
      → Option (Outcome (Option String))
      → Option (Outcome (Option String))
  waits_connected s (err e) rest = some (err e, s)
  waits_connected s (ok _) rest = rest

  -- With the timeout in seconds, 0 for none. There may be no reply.
  unfoldable pub dequeue : RedisClient → ℕ → String → ℕ → Store → Option (Outcome (Option String))
  dequeue c now queue timeout s =
      waits_connected s (client c) (when_replied (redis.brpop now timeout queue s))

  unfoldable pub queue_length : RedisClient → ℕ → String → Store → Outcome ℕ
  queue_length c now queue s = when_connected s (client c) (redis.llen now queue s, s)

  unfoldable pub get : RedisClient → ℕ → String → Store → Outcome (Option String)
  get c now key s = when_connected s (client c) (redis.get now key s, s)

  unfoldable pub set : RedisClient → ℕ → String → String → Option ℕ → Store → Outcome (Unit {0})
  set c now key value ttl s = when_connected s (client c) (stored s (redis.set now key value ttl s))

  abbrev pub was_positive : ℕ × Store → Outcome Bool
  was_positive (n, s) = (ok (ltb 0 n), s)

  unfoldable pub delete : RedisClient → ℕ → String → Store → Outcome Bool
  delete c now key s = when_connected s (client c) (was_positive (redis.delete now key s))

  unfoldable pub exists : RedisClient → ℕ → String → Store → Outcome Bool
  exists c now key s = when_connected s (client c) (was_positive (redis.exists now key s, s))
