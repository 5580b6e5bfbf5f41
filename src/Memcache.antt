-- ===== src/Memcache.antt =====
-- src/goblin/protocol/memcache: the memcache text protocol.
pub mod Commands
pub mod Meta
pub mod Expiry
pub mod Server
