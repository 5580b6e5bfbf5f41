-- ===== src/Core.antt =====
-- src/goblin/core: the memory of the server, and what it counts.
pub mod Buddy
pub mod BlockPool
pub mod BufferPool
pub mod Stats
