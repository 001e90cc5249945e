-- ===== src/Infrastructure.antt =====
-- infrastructure/redis_client.py. The other file of infrastructure/, the rate limiter, is in RateLimit.
pub mod RedisServer
pub mod RedisClient
