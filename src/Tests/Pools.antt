-- ===== src/Tests/Pools.antt =====
-- The buffer pool (core/buffer_pool.cpp) at concrete inputs.
use goblin_store.Prelude.{◌==◌, if◌then◌else◌, false, some, none, [], ◌∷◌, arith, replicate}
use goblin_store.Core.Buddy.{Buddy, create, order_for, allocate}
use goblin_store.Core.BlockPool.{new_pool}
use goblin_store.Core.BufferPool.{BufferPool, allocate_region}
use goblin_store.Core.BufferPool.Arenas.{Live}
use goblin_store.Core.BufferPool.Regions.{PoolInv, Allocated, allocate_region-Allocated}
use goblin_store.Core.BufferPool.Returns.{new_buffer_pool-PoolInv}

-- One block of eight parts of four bytes.
abbrev pool : BufferPool
pool = record { blocks = new_pool 4096 32 1 false; min_alloc = 4; arenas = replicate 1 none }

abbrev no_regions : Live
no_regions i = []

pool-PoolInv : PoolInv pool no_regions
pool-PoolInv = new_buffer_pool-PoolInv 4096 2 3 1 false (omega arith) (omega arith)

allocate_region-Allocated_example : Allocated pool no_regions 7 (allocate_region pool 7)
allocate_region-Allocated_example = allocate_region-Allocated pool no_regions 7 pool-PoolInv

-- The pool with a region of seven bytes.
abbrev busy : Buddy
busy = (allocate (create 32 4) 7).0

abbrev busy_pool : BufferPool
busy_pool = record {
  blocks = record { base = 4096; block_bytes = 32; num_blocks = 1; locked = false; free = [] };
  min_alloc = 4;
  arenas = some busy ∷ [];
}

abbrev one_region : Live
one_region i = if i == 0 then (order_for busy 7, 0) ∷ [] else []
