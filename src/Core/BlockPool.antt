-- ===== src/Core/BlockPool.antt =====
-- src/goblin/core/buffer_pool.hpp and buffer_pool.cpp, classes BlockPool and IoBufferPool: equal
-- blocks of one region. An address is a number. What `std::aligned_alloc` and `mlock` answer is an
-- argument of `create`: an address or none, and whether the pages were locked. `free_` is a list in
-- the order of the vector, its back last. The constructors that move and the destructor pass the
-- same fields on and release the memory.
pub mod Blocks
use goblin_store.Prelude.{
  ℕ, zero, suc, ◌+◌, ◌-◌, ◌*◌, ◌/◌, ◌%◌, Bool, true, false, not, ◌||◌, ◌==◌, ltb, if◌then◌else◌,
  Option, none, some, List, [], ◌∷◌, ◌++◌, length,
}
use goblin_store.Common.Types.{u64, add64, sub64, device_block, is_power_of_two}
use goblin_store.Common.Errors.{
  Result, value, error, err, invalid_argument, out_of_memory, ◌>>=◌, ◌>>◌,
}
use goblin_store.Common.Config.{reject}
use goblin_store.Core.Buddy.{pop_back}

pub record BlockPool : Type 0 where
  pub base : ℕ
  pub block_bytes : ℕ
  pub num_blocks : ℕ
  pub locked : Bool
  pub free : List ℕ

-- `for (Size i = num_blocks_; i-- > 0;) free_.push_back(i);`
unfoldable pub count_down : ℕ → List ℕ
count_down zero = []
count_down (suc n) = n ∷ count_down n

unfoldable pub new_pool : ℕ → ℕ → ℕ → Bool → BlockPool
unfolding count_down
new_pool base block_bytes num_blocks locked = record {
  base = base;
  block_bytes = block_bytes;
  num_blocks = num_blocks;
  locked = locked;
  free = count_down num_blocks;
}

-- The memory that the system gives, locked if that is asked for.
unfoldable pub reserve : Option ℕ → Bool → Bool → Result (ℕ × Bool)
reserve none lock_ok lock_memory = err out_of_memory "aligned_alloc failed"
reserve (some p) lock_ok lock_memory =
    if lock_memory
    then if lock_ok
      then value (p, true)
      else err out_of_memory "mlock failed (raise RLIMIT_MEMLOCK or grant CAP_IPC_LOCK)"
    else value (p, false)

unfoldable pub create_blocks : Option ℕ → Bool → ℕ → ℕ → Bool → Result BlockPool
unfolding new_pool reserve
create_blocks memory lock_ok block_bytes num_blocks lock_memory =
    reject (not (is_power_of_two block_bytes) || ltb block_bytes device_block)
      "block_bytes must be a power of two >= 4 KiB"
    >> (reject (num_blocks == 0) "num_blocks must be >= 1"
        >> (reserve memory lock_ok lock_memory >>= λ p.
            value (new_pool p.0 block_bytes num_blocks p.1)))

unfoldable pub acquire : BlockPool → BlockPool × Option ℕ
acquire p = elim (pop_back p.free) [
  | none ↦ (p, none)
  | some q ↦ (record p { free = q.0 }, some q.1)
]

unfoldable pub release : BlockPool → ℕ → BlockPool
release p index = record p { free = p.free ++ index ∷ [] }

unfoldable pub block_data : BlockPool → ℕ → ℕ
block_data p index = add64 p.base (index * p.block_bytes % u64)

unfoldable pub free_blocks : BlockPool → ℕ
free_blocks p = length p.free

-- One chunk: where it starts and how long it is.
pub record Chunk : Type 0 where
  pub start : ℕ
  pub length : ℕ

unfoldable pub chunk_of : BlockPool × Option ℕ → BlockPool × Option Chunk
unfolding block_data
chunk_of (p, none) = (p, none)
chunk_of (p, some index) = (p, some (record { start = block_data p index; length = p.block_bytes }))

unfoldable pub acquire_chunk : BlockPool → BlockPool × Option Chunk
unfolding acquire chunk_of
acquire_chunk p = chunk_of (acquire p)

unfoldable pub release_chunk : BlockPool → Chunk → BlockPool
unfolding release
release_chunk p c = release p (sub64 c.start p.base / p.block_bytes)
