-- ===== src/Infrastructure/RedisClient/Disabled.antt =====
-- `DisabledRedisClient` of infrastructure/redis_client.py. It has the configuration of a client and no
-- connection: none of its methods reads or changes Redis, and none raises.
use stock_trader.Prelude.{ℕ, Bool, true, false, Option, none, String}
use stock_trader.Errors.{Message}
use stock_trader.Infrastructure.RedisClient.{RedisClient}
use stock_trader.Infrastructure.RedisClient

pub record DisabledRedisClient : Type 0 where
  pub config : RedisClient

unfoldable pub get_redis_url : DisabledRedisClient → Message
get_redis_url c = RedisClient.get_redis_url c.config

-- `connect` and `close`
unfoldable pub connect : DisabledRedisClient → DisabledRedisClient
connect c = c

unfoldable pub close : DisabledRedisClient → DisabledRedisClient
close c = c

unfoldable pub enqueue : DisabledRedisClient → String → String → Unit {0}
enqueue c queue value = tt

unfoldable pub dequeue : DisabledRedisClient → String → ℕ → Option String
dequeue c queue timeout = none

unfoldable pub queue_length : DisabledRedisClient → String → ℕ
queue_length c queue = 0

unfoldable pub get : DisabledRedisClient → String → Option String
get c key = none

unfoldable pub set : DisabledRedisClient → String → String → Option ℕ → Unit {0}
set c key value ttl = tt

unfoldable pub delete : DisabledRedisClient → String → Bool
delete c key = true

unfoldable pub exists : DisabledRedisClient → String → Bool
exists c key = false
