-- ===== src/Storage/TierManager/Writes.antt =====
-- src/goblin/storage/tier_manager.cpp, class StoreHandle and `begin_store`: the streaming write. A
-- handle is passed on by its value; one that was moved from is not kept. The bytes in the staging
-- buffer are the list `staged`, so `stage_fill_` is its length; an empty `stage_` is an absent chunk.
-- What a failed `begin_store` leaves is the state beside its error.
pub mod Evicting
pub mod Room
use goblin_store.Prelude.{
  ℕ, zero, suc, ◌+◌, ◌-◌, ◌%◌, min, max, Bool, true, false, not, ◌&&◌, ◌||◌, ◌==◌, ltb, leb,
  if◌then◌else◌, Option, none, some, List, [], ◌∷◌, ◌++◌, length, take, drop, replicate, is_some,
}
use goblin_store.Prelude.Bytes.{Bytes}
use goblin_store.Common.Errors.{
  Result, Status, value, error, done, err, invalid_argument, would_block, cas_mismatch,
}
use goblin_store.Common.Types.{add64, device_block, align_up, u32}
use goblin_store.Core.BlockPool.{Chunk, acquire_chunk, release_chunk}
use goblin_store.Core.BufferPool.{Region, allocate_region, deallocate_region}
use goblin_store.Crypto.Digest.{Digest, bucket}
use goblin_store.Memcache.Commands.{print_decimal}
use goblin_store.Storage.Index.{
  HeadLoc, ObjectMeta, no_head, is_resident, is_expired, lookup, set_meta, set_head, erase_key,
}
use goblin_store.Storage.Layout.{ObjectLayout, compute_layout}
use goblin_store.Storage.Pool.{Pool, Volume, open_object, publish}
use goblin_store.Storage.S3Fifo.{evict, insert_item, remove as remove_policy}
use goblin_store.Storage.StripedIo.{Written, striped_pwrite}
use goblin_store.Storage.TierManager.{
  TierManager, three_layer, free_head_region, unlink_tiers, enforce_object_bound,
}

pub record StoreHandle : Type 0 where
  pub digest : Digest
  pub layout : ObjectLayout
  pub ssd : List ℕ
  pub hdd : Option (List ℕ)
  pub head : Option Region
  pub suffix : Bytes
  pub stage : Option Chunk
  pub staged : List ℕ
  pub flushed : ℕ
  pub off : ℕ
  pub committed : Bool

-- ".tmp." and the number.
unfoldable pub scratch_suffix : ℕ → Bytes
scratch_suffix n = b'.' ∷ b't' ∷ b'm' ∷ b'p' ∷ b'.' ∷ print_decimal n

-- The scratch files of a tier. The first component is the volume after it.
unfoldable pub open_scratch : Pool → Volume → Digest → ℕ → Bytes → Volume × Result (List ℕ)
open_scratch p v d bytes suffix =
    if ltb 0 bytes then open_object p v d bytes true suffix else (v, value [])

unfoldable pub open_hdd_scratch :
    Option Pool → Volume → Digest → ℕ → Bytes → Volume × Result (Option (List ℕ))
unfolding open_scratch
open_hdd_scratch none v d bytes suffix = (v, value none)
open_hdd_scratch (some p) v d bytes suffix =
    let (v', fds) = open_scratch p v d bytes suffix in
    if ltb 0 bytes
    then elim fds [ value f ↦ (v', value (some f)) | error e ↦ (v', error e) ]
    else (v', value none)

-- A victim of the head policy loses its head; an object that is only in RAM goes with it.
unfoldable pub evict_object : TierManager → Digest → TierManager
evict_object tm d = record tm {
  object_policy = remove_policy tm.object_policy d;
  index = (erase_key tm.index d).0;
}

unfoldable pub evict_resident : TierManager → Digest → ObjectMeta → TierManager
unfolding evict_object
evict_resident tm d meta =
    let tm' = free_head_region tm meta.head.block meta.head.offset meta.head.len in
    if leb meta.size tm.tiers.ram_head
    then evict_object tm' d
    else record tm' { index = (set_head tm'.index d no_head).0 }

unfoldable pub evict_head : TierManager → Digest → TierManager
unfolding evict_resident
evict_head tm d = elim (lookup tm.index d) [
  | none ↦ tm
  | some meta ↦ if is_resident meta.head then evict_resident tm d meta else tm
]

unfoldable pub try_allocate : TierManager → ℕ → TierManager × Option Region
try_allocate tm len = let (ram, g) = allocate_region tm.ram len in (record tm { ram = ram }, g)

-- `allocate`, and `evict` and `allocate` again while there is no region; on fuel. Each round takes a
-- digest out of the head policy.
unfoldable pub room_loop : ℕ → TierManager → ℕ → TierManager × Option Region
unfolding try_allocate
room_loop zero tm len = (tm, none)
room_loop (suc fuel) tm len =
    let (tm1, region) = try_allocate tm len in
    let (policy, victim) = evict tm1.policy in
    let tm2 : TierManager = record tm1 { policy = policy } in
    elim region [
      | some g ↦ (tm1, some g)
      | none ↦ elim victim [ none ↦ (tm2, none) | some d ↦ room_loop fuel (evict_head tm2 d) len ]
    ]

-- A head of no bytes asks for no region. The length is kept in 32 bits.
unfoldable pub reserve_head : TierManager → ℕ → TierManager × Option Region
unfolding room_loop
reserve_head tm head_len =
    if ltb 0 head_len
    then room_loop (suc (length tm.policy.meta)) tm (head_len % u32)
    else (tm, none)

unfoldable pub handle_of :
    Digest → ObjectLayout → List ℕ → Option (List ℕ) → Bytes → Chunk → Option Region → StoreHandle
handle_of d layout ssd hdd suffix stage head = record {
  digest = d;
  layout = layout;
  ssd = ssd;
  hdd = hdd;
  head = head;
  suffix = suffix;
  stage = some stage;
  staged = [];
  flushed = 0;
  off = 0;
  committed = false;
}

-- With the staging buffer. An object that is only in RAM and has no head has nowhere to live.
unfoldable pub begin_staged :
    TierManager
    → Digest
    → ℕ
    → ObjectLayout
    → List ℕ
    → Option (List ℕ)
    → Bytes
    → Chunk
    → TierManager × Result StoreHandle
unfolding reserve_head handle_of
begin_staged tm d size layout ssd hdd suffix stage =
    let head_len = min size tm.tiers.ram_head in
    let (tm1, head) = reserve_head tm head_len in
    if ltb 0 head_len && (layout.ssd_bytes == 0) && not (is_some head)
    then (
      record tm1 { write_pool = release_chunk tm1.write_pool stage },
      err would_block "no RAM for RAM-only head",
    )
    else (tm1, value (handle_of d layout ssd hdd suffix stage head))

-- From the staging buffer on, with the scratch files open.
unfoldable pub begin_opened :
    TierManager
    → Digest
    → ℕ
    → ObjectLayout
    → List ℕ
    → Option (List ℕ)
    → Bytes
    → TierManager × Result StoreHandle
unfolding begin_staged
begin_opened tm d size layout ssd hdd suffix =
    let (pool, stage) = acquire_chunk tm.write_pool in
    elim stage [
      | none ↦ (unlink_tiers tm d layout suffix, err would_block "write staging buffers exhausted")
      | some c ↦ begin_staged (record tm { write_pool = pool }) d size layout ssd hdd suffix c
    ]

unfoldable pub begin_hdd :
    TierManager → Digest → ℕ → ObjectLayout → List ℕ → Bytes → TierManager × Result StoreHandle
unfolding open_hdd_scratch begin_opened
begin_hdd tm d size layout ssd suffix =
    let (v, hdd) = open_hdd_scratch tm.hdd tm.hdd_volume d layout.hdd_bytes suffix in
    let tm' : TierManager = record tm { hdd_volume = v } in
    elim hdd [
      | value fds ↦ begin_opened tm' d size layout ssd fds suffix
      | error e ↦ (tm', error e)
    ]

unfoldable pub begin_store : TierManager → Digest → ℕ → TierManager × Result StoreHandle
unfolding open_scratch begin_hdd scratch_suffix
begin_store tm d size =
    let layout = compute_layout size tm.tiers (three_layer tm) in
    let suffix = scratch_suffix tm.store_seq in
    let (v, ssd) = open_scratch tm.ssd tm.volume d layout.ssd_bytes suffix in
    let tm' : TierManager = record tm { store_seq = add64 tm.store_seq 1; volume = v } in
    elim ssd [ value fds ↦ begin_hdd tm' d size layout fds suffix | error e ↦ (tm', error e) ]
