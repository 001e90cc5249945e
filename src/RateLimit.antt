-- ===== src/RateLimit.antt =====
-- The two rate limiters of the market data provider:
-- core/market_data/providers/massive/rate_limiter.py and infrastructure/redis_rate_limiter.py.
pub mod Spacing
pub mod Memory
pub mod SortedSet
pub mod Script
pub mod Acquire
