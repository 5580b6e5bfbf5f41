-- ===== src/Storage.antt =====
-- src/goblin/storage: where an object's bytes live, and which objects are kept.
pub mod Layout
pub mod DrivePool
pub mod StripedIo
pub mod Index
pub mod S3Fifo
pub mod Eviction
pub mod Pool
pub mod TierManager
