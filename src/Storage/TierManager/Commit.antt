-- ===== src/Storage/TierManager/Commit.antt =====
-- src/goblin/storage/tier_manager.cpp, `StoreHandle::commit` and `store`: the new version is published
-- under the lock, in one step. `fetch_add` on the etags wraps on 64 bits.
pub mod Steps
pub mod Install
pub mod Cas
use goblin_store.Prelude.{
  ℕ, zero, suc, ◌+◌, ◌-◌, min, max, Bool, true, false, not, ◌&&◌, ◌||◌, ◌==◌, ltb, if◌then◌else◌,
  Option, none, some, List, [], ◌∷◌, ◌++◌, length, take, drop, replicate, is_some,
}
use goblin_store.Prelude.Bytes.{Bytes}
use goblin_store.Common.Errors.{Status, value, error, done, err, invalid_argument, cas_mismatch}
use goblin_store.Common.Types.{add64, device_block, align_up}
use goblin_store.Core.BlockPool.{Chunk, release_chunk}
use goblin_store.Core.BufferPool.{Region, deallocate_region}
use goblin_store.Crypto.Digest.{Digest, bucket}
use goblin_store.Storage.Index.{
  HeadLoc, ObjectMeta, no_head, is_resident, is_expired, lookup, set_meta,
}
use goblin_store.Storage.Layout.{ObjectLayout}
use goblin_store.Storage.Pool.{Pool, Volume, publish}
use goblin_store.Storage.S3Fifo.{insert_item, remove as remove_policy}
use goblin_store.Storage.StripedIo.{striped_pwrite}
use goblin_store.Storage.TierManager.{
  TierManager, free_head_region, unlink_tiers, enforce_object_bound,
}
use goblin_store.Storage.TierManager.Writes.{StoreHandle, begin_store}
use goblin_store.Storage.TierManager.Handles.{Outcome, abort_uncommitted, flush_block, write}

-- The trailing block, with zeros up to the device block.
unfoldable pub flush_rest : TierManager → StoreHandle → Outcome
unfolding flush_block
flush_rest tm h =
    let fill = length h.staged in
    let block = h.staged ++ replicate (align_up fill device_block - fill) 0 in
    if ltb 0 fill then flush_block tm h block else (tm, h, done)

unfoldable pub cas_fails : Option ObjectMeta → ℕ → ℕ → Bool
cas_fails old now expected =
    not (expected == 0)
    && elim old [ none ↦ true | some m ↦ is_expired m now || not (m.etag == expected) ]

unfoldable pub publish_ssd : TierManager → StoreHandle → TierManager × Status
publish_ssd tm h =
    let (v, st) = publish tm.ssd tm.volume h.digest h.layout.ssd_bytes h.suffix in
    if ltb 0 h.layout.ssd_bytes then (record tm { volume = v }, st) else (tm, done)

unfoldable pub publish_hdd : TierManager → Option Pool → StoreHandle → TierManager × Status
publish_hdd tm none h = (tm, done)
publish_hdd tm (some pool) h =
    let (v, st) = publish pool tm.hdd_volume h.digest h.layout.hdd_bytes h.suffix in
    if ltb 0 h.layout.hdd_bytes then (record tm { hdd_volume = v }, st) else (tm, done)

-- The head of the version that is replaced.
unfoldable pub retire : TierManager → Digest → Option ObjectMeta → TierManager
retire tm d none = tm
retire tm d (some old) =
    if is_resident old.head
    then record (free_head_region tm old.head.block old.head.offset old.head.len) {
      policy = remove_policy tm.policy d;
    }
    else tm

unfoldable pub head_of : Option Region → HeadLoc
head_of none = no_head
head_of (some g) = record { block = g.block; offset = g.offset; len = g.len }

unfoldable pub new_meta : TierManager → StoreHandle → ℕ → ℕ → ObjectMeta
unfolding head_of
new_meta tm h flags expiry = record {
  size = h.layout.size;
  flags = flags;
  expiry = expiry;
  etag = add64 tm.etag_seq 1;
  head = head_of h.head;
}

-- The new version becomes the one that the index shows.
unfoldable pub install : TierManager → StoreHandle → Option ObjectMeta → ℕ → ℕ → TierManager
unfolding new_meta
install tm h old flags expiry = record tm {
  etag_seq = add64 tm.etag_seq 1;
  any_ttl = tm.any_ttl || not (expiry == 0);
  index = set_meta tm.index h.digest (new_meta tm h flags expiry);
  policy = if is_some h.head then insert_item tm.policy h.digest else tm.policy;
  object_policy = if is_some old then tm.object_policy else insert_item tm.object_policy h.digest;
  write_pool = elim (h.stage) [ none ↦ tm.write_pool | some c ↦ release_chunk tm.write_pool c ];
}

unfoldable pub finish_commit : TierManager → StoreHandle → Option ObjectMeta → ℕ → ℕ → Outcome
unfolding install retire
finish_commit tm h old flags expiry = (
  enforce_object_bound (install (retire tm h.digest old) h old flags expiry),
  record h { stage = none; committed = true },
  done,
)

-- What the two renames leave: the second counts only if the first succeeds.
unfoldable pub publish_end :
    StoreHandle → Option ObjectMeta → ℕ → ℕ → TierManager × Status → TierManager × Status → Outcome
unfolding finish_commit
publish_end h old flags expiry (tm1, error e) r = (tm1, h, error e)
publish_end h old flags expiry (tm1, value _) (tm2, error e) = (tm2, h, error e)
publish_end h old flags expiry (tm1, value _) (tm2, value _) = finish_commit tm2 h old flags expiry

-- Under the lock.
unfoldable pub publish_version : TierManager → StoreHandle → Option ObjectMeta → ℕ → ℕ → Outcome
unfolding publish_ssd publish_hdd publish_end
publish_version tm h old flags expiry =
    let r = publish_ssd tm h in publish_end h old flags expiry r (publish_hdd r.0 tm.hdd h)

unfoldable pub commit_flushed : Outcome → ℕ → ℕ → ℕ → ℕ → Outcome
unfolding publish_version
commit_flushed (tm, h, error e) flags expiry cas_expected now = (tm, h, error e)
commit_flushed (tm, h, value _) flags expiry cas_expected now =
    let old = lookup tm.index h.digest in
    if cas_fails old now cas_expected
    then (tm, h, err cas_mismatch "")
    else publish_version tm h old flags expiry

unfoldable pub commit : TierManager → StoreHandle → ℕ → ℕ → ℕ → ℕ → Outcome
unfolding flush_rest commit_flushed
commit tm h flags expiry cas_expected now =
    if not (h.off == h.layout.size)
    then (tm, h, err invalid_argument "commit before the full value was written")
    else commit_flushed (flush_rest tm h) flags expiry cas_expected now

-- `write` and `commit` of a handle, and its destructor.
unfoldable pub close_handle : Outcome → TierManager × Status
unfolding abort_uncommitted
close_handle (tm, h, st) = ((abort_uncommitted tm h).0, st)

unfoldable pub commit_written : Outcome → ℕ → ℕ → ℕ → Outcome
commit_written (tm, h, error e) flags expiry now = (tm, h, error e)
commit_written (tm, h, value _) flags expiry now = commit tm h flags expiry 0 now

unfoldable pub store : TierManager → Digest → Bytes → ℕ → ℕ → ℕ → TierManager × Status
unfolding close_handle commit_written
store tm d bytes flags expiry now =
    let (tm', h) = begin_store tm d (length bytes) in
    elim h [
      | error e ↦ (tm', error e)
      | value handle ↦ close_handle (commit_written (write tm' handle bytes) flags expiry now)
    ]
