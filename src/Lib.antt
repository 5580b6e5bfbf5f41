-- ===== src/Lib.antt =====
-- Goblin store: a cache and origin server for large objects (src/goblin). An object's bytes are
-- split by position over RAM, SSD and HDD, striped over the drives of each pool, and found by the
-- SHA-256 digest of their key; a policy chooses what to evict.
--
-- The parts and the files that model them:
--   common/types.hpp, error.hpp, error.cpp, config.hpp, config.cpp: Common/Types, Common/Errors,
--     Common/Config. `validate` is a chain of results; `double` is the parameter `Doubles`.
--   crypto/sha256.hpp, sha256.cpp: Crypto/Digest (the digest, `bucket`, `hex`), Crypto/Sha256.
--   core/stats.hpp: Core/Stats.
--   core/buffer_pool.hpp, buffer_pool.cpp: Core/Buddy (BuddyAllocator), Core/BlockPool (BlockPool and
--     IoBufferPool), Core/BufferPool (BufferPool). The buffer pool keeps a buddy allocator per block
--     in use, and takes blocks from the block pool.
--   storage/layout: Storage/Layout. `compute_layout` gives the extents of an object, `place` the
--     tier of an offset.
--   storage/drive_pool: Storage/DrivePool. `plan_reads` gives the segments of a range of one tier.
--   storage/striped_io: Storage/StripedIo, which runs such a plan against open files.
--   storage/index: Storage/Index, the sharded map from digests to metadata.
--   storage/s3fifo, eviction: Storage/S3Fifo, the eviction policy, and Storage/Eviction, its factory.
--   storage/tier_manager: Storage/Pool is class Pool, the files of the objects in the directories of a
--     tier. Storage/TierManager has the state of class TierManager, the pins of heads, removal, the
--     bound and expiry; below it Opening (`open`), Writes (`begin_store`), Handles (`write`,
--     `flush_block`, `abort_uncommitted`), Commit (`commit`), Reads (ReadStream::plan), Reading
--     (`read`) and Snapshots (`open_read`, `open_snapshot`).
--   http/key_derivation: Http/Keys. A string is a list of bytes.
--   http/request: Http/Request, whose `parse_request` takes what picohttpparser answers.
--   http/http_loop: Http/Response, the answers to GET and HEAD; a connection has the fields of
--     net/stream_loop that they use, and its `out` is the list of the pieces appended. Http/Dispatch
--     is one round of `process`, up to `begin_get`.
--   protocol/memcache/protocol: Memcache/Commands, Memcache/Meta, Memcache/Expiry.
--   protocol/memcache/server: Memcache/Server is one connection of the blocking server over the tier
--     manager; below it Storing has the storage commands of `handle_conn`, Replies `stream_value` and the
--     other commands, Rounds a round of its loop. What the peer sends and whether it takes the answers
--     are lists.
--   Prelude holds what they share: tests, lists, maps, bits, division and bytes. Tests runs the model.
--
-- A record of the source is a record of the same fields, a method a function from the state to the
-- new state and its result. Machine integers are native numbers with the wrap-around written out
-- (add64, sub64). A hash map is an association list with one entry per key; a lock is held through
-- each operation, which is one step.
--
-- Loops run on fuel where they do not follow a list: `plan_loop` has a round for every byte,
-- `count_order` 64 doublings, after which the word is 0, `drain_small` a round for every queued
-- digest and one more, `drain_main_all` one for every queued digest and every resident and one
-- more, `bound_loop` and `room_loop` one for every digest of their policy and one more, `write_loop` one
-- for every byte and one more, `stream_loop` one for every byte of the object; the theorems on the
-- results show that these are enough.
--
-- A volume of files has the answers of the operating system in it: `grants` for the calls that open,
-- rename and unlink, `answers` for how far a write gets. Whether memory is there is an argument.
--
-- Not modelled: the event loops that drive these parts, and the listeners and workers; io_uring,
-- OpenSSL and picohttpparser, which the source only calls; sockets, option parsing, tools.
pub mod Prelude
pub mod Common
pub mod Crypto
pub mod Core
pub mod Storage
pub mod Http
pub mod Memcache
pub mod Tests
