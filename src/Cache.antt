-- ===== src/Cache.antt =====
-- internal/server/cache.go: the cache of masterchain and shard blocks, of account states and of
-- libraries, filled by queries to the backends.
pub mod ShardKey
pub mod State
pub mod Fetch
pub mod Accounts
pub mod Frame
pub mod Master
pub mod Shard
pub mod Libraries
pub mod Lookup
pub mod Kept
pub mod Serve
pub mod Transaction
pub mod Wait
pub mod Update
mod Tests
