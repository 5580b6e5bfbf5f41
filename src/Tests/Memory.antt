-- ===== src/Tests/Memory.antt =====
-- The allocators (core/buffer_pool.cpp) at concrete inputs.
use goblin_store.Prelude.{
  ℕ, ◌%◌, ◌==◌, if◌then◌else◌, ◌+◌, ◌*◌, ◌≤◌, ◌<◌, false, some, none, [], ◌∷◌, ◌≡◌, ◌⊎◌, refl,
  arith, ℕ_discrete,
}
use goblin_store.Prelude.Assoc.{member, drop_member}
use goblin_store.Common.Types.{u64, add64}
use goblin_store.Core.Buddy.{Buddy, create, order_for, allocate, deallocate, pop_back}
use goblin_store.Core.Buddy.Invariant.{Inv}
use goblin_store.Core.Buddy.Creation.{create-Inv}
use goblin_store.Core.Buddy.Allocation.{NoneFree, allocate-Inv, allocate_refused}
use goblin_store.Core.Buddy.Release.{deallocate-Inv}
use goblin_store.Core.Stats.{Counters, no_counts, add_slot, remove_slot, aggregate}
use goblin_store.Core.Stats.Sums.{Counter, read, sum_of, aggregate-add_slot}
use goblin_store.Core.BlockPool.{BlockPool, new_pool, acquire_chunk, release_chunk}
use goblin_store.Core.BlockPool.Blocks.{new_pool-IsBlockPool, release_chunk-acquire_chunk}

-- Eight blocks of four bytes.
abbrev arena : Buddy
arena = create 32 4

arena-Inv : Inv arena []
arena-Inv = create-Inv 2 3 (omega arith) (omega arith)

allocates : (allocate arena 7).1 ≡ some 0
unfolding allocate create
allocates = refl

allocate-Inv_example : Inv (allocate arena 7).0 ((order_for arena 7, 0) ∷ [])
allocate-Inv_example = allocate-Inv arena [] 7 arena-Inv 0 allocates

refuses : (allocate arena 33).1 ≡ none
unfolding allocate create
refuses = refl

allocate_refused_example :
    ((allocate arena 33).0 ≡ arena)
    × (((◌≡◌ {A = ℕ} 33 0)) ⊎ ((arena.arena_size < 33) ⊎ NoneFree arena (order_for arena 33)))
allocate_refused_example = allocate_refused arena [] 33 arena-Inv refuses

-- The order of seven bytes, after an allocation as before.
abbrev busy : Buddy
busy = (allocate arena 7).0

same_order : order_for busy 7 ≡ order_for arena 7
unfolding allocate create order_for
same_order = refl

busy-Inv : Inv busy ((order_for busy 7, 0) ∷ [])
busy-Inv = rw same_order allocate-Inv_example

deallocate-Inv_example : Inv (deallocate busy 0 7) []
deallocate-Inv_example = deallocate-Inv busy [] [] 0 7 busy-Inv

coalesces : deallocate busy 0 7 ≡ arena
unfolding allocate deallocate create member drop_member ℕ_discrete
coalesces = refl

arena_holds : 7 ≤ arena.arena_size
unfolding create
arena_holds = omega arith

abbrev chunks : BlockPool
chunks = new_pool 8192 4096 2 false

first_chunk : (acquire_chunk chunks).1 ≡ some (record { start = 8192; length = 4096 })
unfolding acquire_chunk new_pool pop_back
first_chunk = refl

chunks_fit : chunks.base + chunks.num_blocks * chunks.block_bytes < u64
unfolding new_pool
chunks_fit = omega arith

chunks_sized : 0 < chunks.block_bytes
unfolding new_pool
chunks_sized = omega arith

release_chunk-acquire_chunk_example :
    release_chunk (acquire_chunk chunks).0 (record { start = 8192; length = 4096 }) ≡ chunks
release_chunk-acquire_chunk_example =
    release_chunk-acquire_chunk chunks (record { start = 8192; length = 4096 })
      (new_pool-IsBlockPool 8192 4096 2 false) chunks_sized chunks_fit first_chunk

-- A worker with one connection, and every other with none.
abbrev counts : Counters
counts s = record no_counts { conns = if s == 1 then 1 else 0 }

aggregate-add_slot_example :
    (read Counter.conns (aggregate counts (2 ∷ [])) ≡ sum_of counts Counter.conns (2 ∷ []) % u64)
    × (read Counter.conns (aggregate counts (add_slot (2 ∷ []) 1))
        ≡ add64 (read Counter.conns (aggregate counts (2 ∷ []))) (read Counter.conns (counts 1)))
    × (member ℕ_discrete 1 (2 ∷ []) ≡ false
        → aggregate counts (remove_slot (add_slot (2 ∷ []) 1) 1) ≡ aggregate counts (2 ∷ []))
aggregate-add_slot_example = aggregate-add_slot counts Counter.conns (2 ∷ []) 1
