-- ===== src/Storage/TierManager/Opening.antt =====
-- src/goblin/storage/tier_manager.cpp, `TierManager::open`. What the system answers is in `Host`.
use goblin_store.Prelude.{ℕ, ◌/◌, Bool, false, ◌==◌, if◌then◌else◌, Option, none, some, List, []}
use goblin_store.Common.Config.{
  TierSizes, MemoryConfig, PoolConfig, Doubles, EvictionConfig, is_empty,
}
use goblin_store.Common.Errors.{Result, value, ◌>>=◌}
use goblin_store.Common.Types.{device_block}
use goblin_store.Core.BlockPool.{create_blocks}
use goblin_store.Core.BufferPool.{create_pool}
use goblin_store.Storage.Eviction.{make_eviction_policy}
use goblin_store.Storage.Index.{Index}
use goblin_store.Storage.Pool.{Pool, Volume, open_pool}
use goblin_store.Storage.TierManager.{TierManager}

-- What the system answers to `open`: memory for the heads and for the write staging, whether each is
-- locked, whether the directories open, and the volumes.
pub record Host : Type 0 where
  pub ram_memory : Option ℕ
  pub ram_locks : Bool
  pub staging_memory : Option ℕ
  pub staging_locks : Bool
  pub ssd_opened : List Bool
  pub hdd_opened : List Bool
  pub memory : ℕ → ℕ
  pub volume : Volume
  pub hdd_volume : Volume

unfoldable pub open_hdd : PoolConfig → Bool → List Bool → Result (Option Pool)
open_hdd hdd direct_io opened =
    if is_empty hdd.dirs
    then value none
    else open_pool hdd.dirs hdd.stripe_unit direct_io opened >>= λ p. value (some p)

unfoldable pub capacity_hint : TierSizes → MemoryConfig → ℕ
capacity_hint t mem = if t.ram_head == 0 then 1 else mem.total_bytes / t.ram_head

module _ (D : Doubles) where
  unfoldable pub open_manager :
      Host
      → TierSizes
      → MemoryConfig
      → EvictionConfig D
      → PoolConfig
      → PoolConfig
      → Index
      → ℕ
      → ℕ
      → Bool
      → Result TierManager
  unfolding open_hdd
  open_manager os t mem ev ssd hdd index io_chunk write_buffers direct_io =
      create_pool os.ram_memory os.ram_locks mem.total_bytes mem.block_bytes device_block
        mem.lock_memory
      >>= λ ram. open_pool ssd.dirs ssd.stripe_unit direct_io os.ssd_opened >>= λ sp.
          open_hdd hdd direct_io os.hdd_opened >>= λ hp.
          create_blocks os.staging_memory os.staging_locks io_chunk write_buffers mem.lock_memory
          >>= λ wp. value (record {
            tiers = t;
            ram = ram;
            write_pool = wp;
            policy = make_eviction_policy ev.policy (capacity_hint t mem);
            object_policy =
                make_eviction_policy ev.policy
                  (if ev.max_ssd_objects == 0 then capacity_hint t mem else ev.max_ssd_objects);
            max_objects = ev.max_ssd_objects;
            ssd = sp;
            hdd = hp;
            index = index;
            store_seq = 0;
            etag_seq = 0;
            any_ttl = false;
            pins = [];
            memory = os.memory;
            volume = os.volume;
            hdd_volume = os.hdd_volume;
          })
