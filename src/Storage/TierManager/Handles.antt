-- ===== src/Storage/TierManager/Handles.antt =====
-- src/goblin/storage/tier_manager.cpp, class StoreHandle: `write`, `flush_block` and
-- `abort_uncommitted`. Each takes the manager and the handle, and gives both back with its
-- status.
pub mod Heads
pub mod Contents
pub mod Rounds
pub mod Staging
use goblin_store.Prelude.{
  ℕ, zero, suc, ◌+◌, ◌-◌, min, max, Bool, true, false, not, ◌&&◌, ◌||◌, ◌==◌, ltb, if◌then◌else◌,
  Option, none, some, List, [], ◌∷◌, ◌++◌, length, take, drop, replicate, is_some,
}
use goblin_store.Prelude.Bytes.{Bytes}
use goblin_store.Common.Errors.{Status, value, error, done, err, invalid_argument, cas_mismatch}
use goblin_store.Common.Types.{add64, device_block, align_up}
use goblin_store.Core.BlockPool.{Chunk, release_chunk}
use goblin_store.Core.BufferPool.{Region, deallocate_region}
use goblin_store.Crypto.Digest.{Digest, bucket}
use goblin_store.Storage.Index.{
  HeadLoc, ObjectMeta, no_head, is_resident, is_expired, lookup, set_meta,
}
use goblin_store.Storage.Layout.{ObjectLayout}
use goblin_store.Storage.Pool.{Pool, Volume, publish}
use goblin_store.Storage.S3Fifo.{insert_item, remove as remove_policy}
use goblin_store.Storage.StripedIo.{striped_pwrite}
use goblin_store.Storage.TierManager.{
  TierManager, free_head_region, unlink_tiers, enforce_object_bound,
}
use goblin_store.Storage.TierManager.Writes.{StoreHandle, begin_store}

abbrev pub Outcome : Type 0
Outcome = TierManager × StoreHandle × Status

unfoldable pub abort_ram : TierManager → StoreHandle → TierManager
abort_ram tm h = elim (h.head) [
  | none ↦ tm
  | some g ↦ record tm { ram = deallocate_region tm.ram g.block g.offset g.len }
]

unfoldable pub abort_stage : TierManager → StoreHandle → TierManager
abort_stage tm h = elim (h.stage) [
  | none ↦ tm
  | some c ↦ record tm { write_pool = release_chunk tm.write_pool c }
]

-- What the destructor does.
unfoldable pub abort_uncommitted : TierManager → StoreHandle → TierManager × StoreHandle
unfolding abort_ram abort_stage
abort_uncommitted tm h = if h.committed then (tm, h) else (
  unlink_tiers (abort_stage (abort_ram tm h) h) h.digest h.layout h.suffix,
  record h { head = none; stage = none },
)

-- Bytes at an address of RAM.
unfoldable pub write_memory : (ℕ → ℕ) → ℕ → List ℕ → ℕ → ℕ
write_memory m a [] x = m x
write_memory m a (b ∷ bs) x = let rest = write_memory m (a + 1) bs x in if x == a then b else rest

-- The part of a chunk that falls into the head.
unfoldable pub fill_head : (ℕ → ℕ) → Option Region → ℕ → List ℕ → ℕ → ℕ
fill_head m none off chunk = m
fill_head m (some g) off chunk =
    let hend = min (off + length chunk) g.len in
    if ltb off hend then write_memory m (g.address + off) (take (hend - off) chunk) else m

unfoldable pub stage_size : Option Chunk → ℕ
stage_size none = 0
stage_size (some c) = c.length

-- The part of a block, at `o` in the object, that goes to the SSD.
unfoldable pub ssd_extent : ObjectLayout → ℕ
ssd_extent l = if ltb 0 l.hdd_bytes then l.ssd_bytes else align_up l.ssd_bytes device_block

unfoldable pub write_volume : Pool → Volume → Digest → List ℕ → ℕ → Bytes → Volume × Status
write_volume p v d fds off bytes =
    let w = striped_pwrite v.answers p.drives (bucket d) v.disk fds off bytes in
    (record v { answers = w.answers; disk = w.disk }, w.status)

unfoldable pub flush_ssd : TierManager → StoreHandle → Bytes → TierManager × Status
unfolding write_volume
flush_ssd tm h block =
    let o = h.flushed in
    let stop = min (o + length block) (ssd_extent h.layout) in
    let (v, st) = write_volume tm.ssd tm.volume h.digest h.ssd o (take (stop - o) block) in
    if ltb o stop then (record tm { volume = v }, st) else (tm, done)

-- With an HDD tier: the part of a block past the SSD prefix.
unfoldable pub flush_tail : TierManager → StoreHandle → Pool → List ℕ → Bytes → TierManager × Status
unfolding write_volume
flush_tail tm h pool fds block =
    let o = h.flushed in
    let begin = max o h.layout.ssd_bytes in
    let (v, st) =
      write_volume pool tm.hdd_volume h.digest fds (begin - h.layout.ssd_bytes)
        (drop (begin - o) block) in
    if ltb h.layout.ssd_bytes (o + length block)
    then (record tm { hdd_volume = v }, st)
    else (tm, done)

unfoldable pub flush_hdd :
    TierManager → StoreHandle → Option Pool → Option (List ℕ) → Bytes → TierManager × Status
unfolding flush_tail
flush_hdd tm h (some pool) (some fds) block = flush_tail tm h pool fds block
flush_hdd tm h none fds block = (tm, done)
flush_hdd tm h (some pool) none block = (tm, done)

-- What the two writes of a block leave: the second counts only if the first succeeds.
unfoldable pub flush_end : StoreHandle → ℕ → TierManager × Status → TierManager × Status → Outcome
flush_end h n (tm1, error e) r = (tm1, h, error e)
flush_end h n (tm1, value _) (tm2, error e) = (tm2, h, error e)
flush_end h n (tm1, value _) (tm2, value _) =
    (tm2, record h { flushed = h.flushed + n; staged = [] }, done)

-- The staged block, `block`, at the disk offset `flushed`.
unfoldable pub flush_block : TierManager → StoreHandle → Bytes → Outcome
unfolding flush_ssd flush_hdd flush_end
flush_block tm h block =
    let r = flush_ssd tm h block in
    flush_end h (length block) r (flush_hdd r.0 h tm.hdd h.hdd block)

-- One round of the loop of `write`: the bytes that the buffer has room for, and a flush if it is full.
unfoldable pub stage_bytes : TierManager → StoreHandle → Bytes → Outcome
unfolding flush_block stage_size
stage_bytes tm h bytes =
    let staged = h.staged ++ bytes in
    if length staged == stage_size h.stage
    then flush_block tm (record h { staged = staged }) staged
    else (tm, record h { staged = staged }, done)

-- The loop of `write`, on fuel. Each round but the first takes a byte at least; the first takes none
-- where a flush failed before and the buffer is full. A buffer has at least a device block.
unfoldable pub write_loop : ℕ → TierManager → StoreHandle → Bytes → Outcome
write_loop zero tm h bytes = (tm, h, done)
write_loop (suc fuel) tm h bytes =
    let n = min (length bytes) (stage_size h.stage - length h.staged) in
    let r = stage_bytes tm h (take n bytes) in
    let next : Outcome = elim (r.2) [
      | error e ↦ r
      | value _ ↦ write_loop fuel r.0 r.1 (drop n bytes)
    ] in
    if length bytes == 0 then (tm, h, done) else next

unfoldable pub advance : ℕ → Outcome → Outcome
advance len (tm, h, error e) = (tm, h, error e)
advance len (tm, h, value _) = (tm, record h { off = h.off + len }, done)

unfoldable pub write : TierManager → StoreHandle → Bytes → Outcome
unfolding write_loop advance fill_head
write tm h chunk =
    let len = length chunk in
    let tm' : TierManager = record tm { memory = fill_head tm.memory h.head h.off chunk } in
    if ltb h.layout.size (add64 h.off len)
    then (tm, h, err invalid_argument "write past end of object")
    else if h.layout.ssd_bytes == 0 && (h.layout.hdd_bytes == 0)
    then advance len (tm', h, done)
    else advance len (write_loop (suc (length chunk)) tm' h chunk)
