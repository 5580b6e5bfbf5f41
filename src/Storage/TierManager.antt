-- ===== src/Storage/TierManager.antt =====
-- src/goblin/storage/tier_manager.hpp and tier_manager.cpp, class TierManager: its state, the pins of
-- resident heads, removal, the bound on the objects, and expiry. Each method that takes the lock is one
-- step from the state to the next; the clock `now` is an argument. `memory` has the bytes of RAM by
-- address; `volume` and `hdd_volume` have the files of the two pools.
pub mod Reads
pub mod Reading
pub mod Snapshots
pub mod Writes
pub mod Handles
pub mod Commit
pub mod Opening
pub mod Pins
pub mod Keeps
pub mod Removal
pub mod Bound
pub mod Reaping
pub mod Manager
use goblin_store.Prelude.{
  ℕ, zero, suc, ◌+◌, ◌-◌, ◌*◌, ◌/◌, ◌%◌, Bool, true, false, not, ◌&&◌, ◌==◌, ltb, leb,
  if◌then◌else◌, Option, none, some, List, [], ◌∷◌, length, ℕ_discrete, is_some,
}
use goblin_store.Prelude.Assoc.{find, insert, erase}
use goblin_store.Common.Config.{
  TierSizes, MemoryConfig, PoolConfig, Doubles, EvictionConfig, is_empty,
}
use goblin_store.Common.Errors.{Result, value, error, ◌>>=◌}
use goblin_store.Common.Types.{u32, device_block}
use goblin_store.Core.BlockPool.{BlockPool, create_blocks}
use goblin_store.Core.BufferPool.{BufferPool, create_pool, deallocate_region, addr}
use goblin_store.Crypto.Digest.{Digest}
use goblin_store.Storage.Eviction.{make_eviction_policy}
use goblin_store.Storage.Index.{
  Index, ObjectMeta, HeadLoc, is_resident, lookup, contains, erase_key, update_expiry, size,
  expired_keys,
}
use goblin_store.Storage.Layout.{ObjectLayout, compute_layout}
use goblin_store.Storage.Pool.{Pool, Volume, open_pool, unlink_object}
use goblin_store.Storage.S3Fifo.{
  S3Fifo, evict, resident, touch as touch_policy, remove as remove_policy,
}

pub record RegionPin : Type 0 where
  pub len : ℕ
  pub refcount : ℕ
  pub orphaned : Bool

-- A valid pin. The source's invalid one is an absent one.
pub record HeadPin : Type 0 where
  pub block : ℕ
  pub offset : ℕ
  pub len : ℕ

pub record TierManager : Type 0 where
  pub tiers : TierSizes
  pub ram : BufferPool
  pub write_pool : BlockPool
  pub policy : S3Fifo
  pub object_policy : S3Fifo
  pub max_objects : ℕ
  pub ssd : Pool
  pub hdd : Option Pool
  pub index : Index
  pub store_seq : ℕ
  pub etag_seq : ℕ
  pub any_ttl : Bool
  pub pins : List (ℕ × RegionPin)
  pub memory : ℕ → ℕ
  pub volume : Volume
  pub hdd_volume : Volume

unfoldable pub three_layer : TierManager → Bool
three_layer tm = is_some tm.hdd

-- `block << 32 | offset`, of an offset of 32 bits.
unfoldable pub region_id : ℕ → ℕ → ℕ
region_id block offset = block * u32 + offset

unfoldable pub free_ram : TierManager → ℕ → ℕ → ℕ → TierManager
free_ram tm block offset len = record tm { ram = deallocate_region tm.ram block offset len }

unfoldable pub orphan : TierManager → ℕ → RegionPin → TierManager
orphan tm id p = record tm { pins = insert ℕ_discrete id (record p { orphaned = true }) tm.pins }

unfoldable pub free_head_region : TierManager → ℕ → ℕ → ℕ → TierManager
unfolding free_ram orphan region_id
free_head_region tm block offset len =
    let id = region_id block offset in
    elim (find ℕ_discrete id tm.pins) [
      | none ↦ free_ram tm block offset len
      | some p ↦ if ltb 0 p.refcount then orphan tm id p else free_ram tm block offset len
    ]

abbrev pub no_pin : RegionPin
no_pin = record { len = 0; refcount = 0; orphaned = false }

-- `pins_[id]` of a head, with one more reader.
unfoldable pub add_pin : TierManager → HeadLoc → TierManager
unfolding region_id
add_pin tm head =
    let id = region_id head.block head.offset in
    let p : RegionPin = elim (find ℕ_discrete id tm.pins) [ some q ↦ q | none ↦ no_pin ] in
    record tm {
      pins =
          insert ℕ_discrete id (record p { len = head.len; refcount = (p.refcount + 1) % u32 })
            tm.pins;
    }

unfoldable pub touch_object : TierManager → Digest → TierManager
touch_object tm d = record tm { object_policy = touch_policy tm.object_policy d }

unfoldable pub touch_head : TierManager → Digest → TierManager
touch_head tm d = record tm { policy = touch_policy tm.policy d }

unfoldable pub touch : TierManager → Digest → TierManager
unfolding touch_object touch_head
touch tm d = touch_object (touch_head tm d) d

unfoldable pub head_resident : TierManager → ℕ
head_resident tm = resident tm.policy

unfoldable pub pin_of : HeadLoc → HeadPin
pin_of head = record { block = head.block; offset = head.offset; len = head.len }

unfoldable pub pin_resident : TierManager → Digest → HeadLoc → TierManager × Option HeadPin
unfolding add_pin touch_head pin_of
pin_resident tm d head =
    if is_resident head then (add_pin (touch_head tm d) head, some (pin_of head)) else (tm, none)

unfoldable pub pin_head : TierManager → Digest → TierManager × Option HeadPin
unfolding pin_resident touch_object
pin_head tm d = elim (lookup tm.index d) [
  | none ↦ (tm, none)
  | some meta ↦ pin_resident (touch_object tm d) d meta.head
]

-- The last reader of a region takes its entry away, and frees it if it was orphaned.
unfoldable pub drop_pin : TierManager → HeadPin → ℕ → RegionPin → TierManager
unfolding free_ram
drop_pin tm pin id p =
    let freed = if p.orphaned then free_ram tm pin.block pin.offset pin.len else tm in
    let count = (p.refcount + u32 - 1) % u32 in
    if count == 0
    then record freed { pins = erase ℕ_discrete id tm.pins }
    else record tm { pins = insert ℕ_discrete id (record p { refcount = count }) tm.pins }

unfoldable pub unpin_head : TierManager → HeadPin → TierManager
unfolding drop_pin region_id
unpin_head tm pin =
    let id = region_id pin.block pin.offset in
    elim (find ℕ_discrete id tm.pins) [ none ↦ tm | some p ↦ drop_pin tm pin id p ]

-- A view of memory: its address and its length.
unfoldable pub pinned_bytes : TierManager → HeadPin → ℕ × ℕ
pinned_bytes tm pin = (addr tm.ram pin.block pin.offset, pin.len)

unfoldable pub head_view : TierManager → Digest → Option (ℕ × ℕ)
head_view tm d = elim (lookup tm.index d) [
  | none ↦ none
  | some meta ↦
      if is_resident meta.head
      then some (addr tm.ram meta.head.block meta.head.offset, meta.head.len)
      else none
]

-- The head of an object that leaves.
unfoldable pub release_head : TierManager → Digest → HeadLoc → TierManager
release_head tm d head =
    if is_resident head
    then record (free_head_region tm head.block head.offset head.len) {
      policy = remove_policy tm.policy d;
    }
    else tm

unfoldable pub unlink_ssd : TierManager → Digest → ℕ → List ℕ → TierManager
unlink_ssd tm d bytes suffix =
    if ltb 0 bytes then record tm { volume = unlink_object tm.ssd tm.volume d bytes suffix } else tm

unfoldable pub unlink_hdd : TierManager → Option Pool → Digest → ℕ → List ℕ → TierManager
unlink_hdd tm none d bytes suffix = tm
unlink_hdd tm (some pool) d bytes suffix =
    if ltb 0 bytes
    then record tm { hdd_volume = unlink_object pool tm.hdd_volume d bytes suffix }
    else tm

unfoldable pub unlink_tiers : TierManager → Digest → ObjectLayout → List ℕ → TierManager
unfolding unlink_ssd unlink_hdd
unlink_tiers tm d layout suffix =
    unlink_hdd (unlink_ssd tm d layout.ssd_bytes suffix) tm.hdd d layout.hdd_bytes suffix

unfoldable pub drop_found : TierManager → Digest → ObjectMeta → TierManager
unfolding release_head unlink_tiers
drop_found tm d meta =
    let tm1 = release_head tm d meta.head in
    let tm2 : TierManager = record tm1 { object_policy = remove_policy tm1.object_policy d } in
    let tm3 = unlink_tiers tm2 d (compute_layout meta.size tm.tiers (three_layer tm)) [] in
    record tm3 { index = (erase_key tm3.index d).0 }

unfoldable pub drop_object : TierManager → Digest → TierManager
drop_object tm d = elim (lookup tm.index d) [ none ↦ tm | some meta ↦ drop_found tm d meta ]

unfoldable pub remove : TierManager → Digest → TierManager × Bool
remove tm d = if contains tm.index d then (drop_object tm d, true) else (tm, false)

unfoldable pub over_bound : TierManager → Bool
over_bound tm = not (tm.max_objects == 0) && ltb tm.max_objects (size tm.index)

-- The loop of `enforce_object_bound`, on fuel. Each round takes a digest out of the object policy.
unfoldable pub bound_loop : ℕ → TierManager → TierManager
bound_loop zero tm = tm
bound_loop (suc fuel) tm =
    let (policy, victim) = evict tm.object_policy in
    let tm' : TierManager = record tm { object_policy = policy } in
    let next : TierManager = elim victim [
      | none ↦ tm'
      | some d ↦ bound_loop fuel (drop_object tm' d)
    ] in
    if over_bound tm then next else tm

unfoldable pub enforce_object_bound : TierManager → TierManager
unfolding bound_loop
enforce_object_bound tm = bound_loop (suc (length tm.object_policy.meta)) tm

unfoldable pub touch_ttl : TierManager → Digest → ℕ → TierManager × Bool
touch_ttl tm d expiry =
    let (index, found) = update_expiry tm.index d expiry in
    if found && not (expiry == 0)
    then (record tm { index = index; any_ttl = true }, found)
    else (record tm { index = index }, found)

-- The loop of `reap_expired`: the state, and how many were removed.
unfoldable pub reap : List Digest → TierManager → ℕ → TierManager × ℕ
reap [] tm n = (tm, n)
reap (d ∷ ds) tm n = reap ds (remove tm d).0 (if (remove tm d).1 then n + 1 else n)

unfoldable pub reap_if : Bool → TierManager → ℕ → TierManager × ℕ
unfolding reap
reap_if false tm now = (tm, 0)
reap_if true tm now = reap (expired_keys tm.index now) tm 0

unfoldable pub reap_expired : TierManager → ℕ → TierManager × ℕ
unfolding reap_if
reap_expired tm now = reap_if tm.any_ttl tm now
