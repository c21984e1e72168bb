-- ===== src/Redis.antt =====
-- packages/sqrl-redis-functions: rate limits, counters, labels and unique ids on redis.
pub mod RateLimit
pub mod Count
pub mod UniqueId
pub mod Mock
pub mod Label
pub mod CountUnique
