-- ===== src/Forward.antt =====
-- The backend relay, internal/forward: one child for each part.
pub mod Config
pub mod Instance
pub mod Shard
pub mod Sink
pub mod Float
pub mod Backoff
pub mod Client
pub mod Attempt
pub mod Deliver
pub mod Worker
pub mod Shards
pub mod Tests
