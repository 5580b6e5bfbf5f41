-- ===== src/Core/BufferPool/Returns.antt =====
-- What `BufferPool::deallocate` (core/buffer_pool.cpp) takes back, and a new pool.
use goblin_store.Prelude.{
  ℕ, zero, suc, ◌+◌, ◌*◌, ◌^◌, ◌≤◌, ◌<◌, Bool, true, false, ◌==◌, if◌then◌else◌, Option, none, List,
  [], get_or, replicate, ◌≡◌, refl, arith, ℕ_discrete, is_some, length-replicate,
}
use goblin_store.Prelude.Assoc.{member}
use goblin_store.Common.Types.{u32}
use goblin_store.Core.Buddy.{Buddy}
use goblin_store.Core.BlockPool.{new_pool, count_down}
use goblin_store.Core.BlockPool.Blocks.{new_pool-IsBlockPool}
use goblin_store.Core.BufferPool.{BufferPool}
use goblin_store.Core.BufferPool.Arenas.{Live, ArenasInv}
use goblin_store.Core.BufferPool.Regions.{PoolInv}

-- The regions handed out, with others in one block.
abbrev pub give_back : Live → ℕ → List (ℕ × ℕ) → Live
give_back live block l j = if j == block then l else live j

-- A new pool.
empty_arenas : (bs ms b n : ℕ) → ArenasInv bs ms (λ i. []) b (replicate n none)
empty_arenas bs ms b zero = tt
empty_arenas bs ms b (suc n) = (refl, empty_arenas bs ms (b + 1) n)

counted_down : (n i : ℕ) → i < n → member ℕ_discrete i (count_down n) ≡ true
unfolding member count_down
counted_down zero i h = absurd (omega arith)
counted_down (suc n) i h = ground (arith, counted_down n i)

no_arena : (n i : ℕ) → is_some (get_or (replicate {A = Option Buddy} n none) i none) ≡ false
no_arena zero i = refl
no_arena (suc n) zero = refl
no_arena (suc n) (suc i) = no_arena n i

pub new_buffer_pool-PoolInv :
    (base m k n : ℕ) (locked : Bool)
    → k ≤ 64
    → 2 ^ m * 2 ^ k ≤ u32
    → PoolInv
        (record {
          blocks = new_pool base (2 ^ m * 2 ^ k) n locked;
          min_alloc = 2 ^ m;
          arenas = replicate n none;
        })
        (λ i. [])
unfolding new_pool
new_buffer_pool-PoolInv base m k n locked h narrow = record {
  blocks = new_pool-IsBlockPool base (2 ^ m * 2 ^ k) n locked;
  min_bits = m;
  orders = k;
  floor = refl;
  block = refl;
  shifts = h;
  narrow = narrow;
  count = length-replicate n none;
  arenas = empty_arenas (2 ^ m * 2 ^ k) (2 ^ m) 0 n;
  held = λ i small. ground (arith, counted_down n i small, no_arena n i);
}
