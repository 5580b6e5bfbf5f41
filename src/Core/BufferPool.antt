-- ===== src/Core/BufferPool.antt =====
-- src/goblin/core/buffer_pool.hpp and buffer_pool.cpp, class BufferPool: buddy allocation inside the
-- blocks of a pool. `arenas_` has one entry per block, set while the block is in use. Offsets are
-- kept in 32 bits.
pub mod Arenas
pub mod Search
pub mod Regions
pub mod Returns
use goblin_store.Prelude.{
  ℕ, zero, suc, ◌+◌, ◌/◌, ◌%◌, Bool, true, false, not, ◌||◌, ◌==◌, leb, ltb, if◌then◌else◌, Option,
  none, some, List, [], ◌∷◌, length, get_or, set, replicate,
}
use goblin_store.Common.Types.{u32, add64, device_block, is_power_of_two}
use goblin_store.Common.Errors.{Result, value, error, err, invalid_argument, ◌>>=◌, ◌>>◌}
use goblin_store.Common.Config.{reject}
use goblin_store.Core.Buddy.{Buddy, allocate, deallocate, create}
use goblin_store.Core.BlockPool.{BlockPool, create_blocks, acquire, release, block_data}

pub record BufferPool : Type 0 where
  pub blocks : BlockPool
  pub min_alloc : ℕ
  pub arenas : List (Option Buddy)

pub record Region : Type 0 where
  pub block : ℕ
  pub offset : ℕ
  pub len : ℕ
  pub address : ℕ

unfoldable pub create_pool : Option ℕ → Bool → ℕ → ℕ → ℕ → Bool → Result BufferPool
create_pool memory lock_ok total_bytes block_bytes min_alloc lock_memory =
    reject (not (is_power_of_two min_alloc) || ltb min_alloc device_block)
      "min_alloc must be a power of two >= 4 KiB"
    >> (reject (ltb block_bytes min_alloc) "block_bytes must be >= min_alloc"
        >> (reject (total_bytes / block_bytes == 0) "total_bytes < block_bytes"
            >> (create_blocks memory lock_ok block_bytes (total_bytes / block_bytes) lock_memory
                >>= λ bp. value (record {
                  blocks = bp;
                  min_alloc = min_alloc;
                  arenas = replicate bp.num_blocks none;
                }))))

unfoldable pub addr : BufferPool → ℕ → ℕ → ℕ
unfolding block_data
addr p block offset = add64 (block_data p.blocks block) offset

-- The result for the arenas after an arena that had no room.
unfoldable pub skip_arena :
    Option Buddy → List (Option Buddy) × Option (ℕ × ℕ) → List (Option Buddy) × Option (ℕ × ℕ)
skip_arena a (rest, found) = (a ∷ rest, found)

-- The loop of `allocate`: the block and the offset in the first arena with room.
unfoldable pub try_arenas : ℕ → ℕ → List (Option Buddy) → List (Option Buddy) × Option (ℕ × ℕ)
unfolding skip_arena
try_arenas bytes b [] = ([], none)
try_arenas bytes b (none ∷ rest) = skip_arena none (try_arenas bytes (b + 1) rest)
try_arenas bytes b (some a ∷ rest) =
    let later = try_arenas bytes (b + 1) rest in
    elim (allocate a bytes).1 [
      | some off ↦ (some (allocate a bytes).0 ∷ rest, some (b, off % u32))
      | none ↦ skip_arena (some (allocate a bytes).0) later
    ]

unfoldable pub region : BufferPool → ℕ → ℕ → ℕ → Region
unfolding addr
region p b o bytes = record { block = b; offset = o; len = bytes; address = addr p b o }

-- `allocate` on a block that was just acquired. The offset is read without a test.
unfoldable pub open_arena : BufferPool → ℕ → ℕ → BufferPool × Option Region
unfolding region
open_arena p blk bytes =
    let r = allocate (create p.blocks.block_bytes p.min_alloc) bytes in
    let p' : BufferPool = record p { arenas = set p.arenas blk (some r.0) } in
    elim r.1 [ some off ↦ (p', some (region p' blk (off % u32) bytes)) | none ↦ (p', none) ]

unfoldable pub fresh_region : BufferPool → BlockPool × Option ℕ → ℕ → BufferPool × Option Region
unfolding open_arena
fresh_region p (blocks, none) bytes = (record p { blocks = blocks }, none)
fresh_region p (blocks, some blk) bytes = open_arena (record p { blocks = blocks }) blk bytes

unfoldable pub place_region :
    BufferPool → ℕ → List (Option Buddy) × Option (ℕ × ℕ) → BufferPool × Option Region
unfolding region fresh_region
place_region p bytes (arenas, some (b, o)) =
    let p' : BufferPool = record p { arenas = arenas } in (p', some (region p' b o bytes))
place_region p bytes (arenas, none) =
    fresh_region (record p { arenas = arenas }) (acquire p.blocks) bytes

unfoldable pub allocate_region : BufferPool → ℕ → BufferPool × Option Region
unfolding try_arenas place_region
allocate_region p bytes =
    let r = place_region p bytes (try_arenas bytes 0 p.arenas) in
    if bytes == 0 || ltb p.blocks.block_bytes bytes then (p, none) else r

-- The arena gives the bytes back; an arena with nothing in use gives its block back.
unfoldable pub close_arena : BufferPool → ℕ → Buddy → BufferPool
close_arena p block a =
    if a.used == 0
    then record p { arenas = set p.arenas block none; blocks = release p.blocks block }
    else record p { arenas = set p.arenas block (some a) }

unfoldable pub deallocate_region : BufferPool → ℕ → ℕ → ℕ → BufferPool
unfolding close_arena
deallocate_region p block offset bytes = elim (get_or p.arenas block none) [
  | none ↦ p
  | some a ↦ close_arena p block (deallocate a offset bytes)
]
