-- ===== src/Core/BufferPool/Regions.antt =====
-- What `BufferPool::allocate` (core/buffer_pool.cpp) hands out.
use goblin_store.Prelude.{
  ℕ, zero, suc, ◌+◌, ◌*◌, ◌^◌, ◌≤◌, ◌<◌, true, false, not, ◌||◌, ◌==◌, ltb, Option, none, some,
  List, [], ◌∷◌, ◌++◌, length, get_or, set, ◌≡◌, ◌≢◌, ◌⊎◌, sym, ap, subst, ◌∙◌, arith, ite,
  ℕ_discrete, Option-cases, inl, inr, is_some, length-set, get_or-set, dec_lt,
}
use goblin_store.Prelude.Assoc.{member, IsDistinct, member-append}
use goblin_store.Common.Types.{u64, u32}
use goblin_store.Core.Buddy.{Buddy, order_for, allocate, create}
use goblin_store.Core.Buddy.Creation.{create-Inv, create-hands_out, create_sizes}
use goblin_store.Core.BlockPool.{acquire}
use goblin_store.Core.BlockPool.Blocks.{IsBlockPool, acquire-cases, init-IsDistinct}
use goblin_store.Core.BufferPool.{
  BufferPool, Region, try_arenas, addr, region, open_arena, fresh_region, place_region,
  allocate_region,
}
use goblin_store.Core.BufferPool.Arenas.{
  Live, hand_out, hand_out-later, ArenaInv, ArenasInv, Searched, found, missing,
}
use goblin_store.Core.BufferPool.Search.{try_arenas-Searched, handed_out}

-- The pool with the regions that are handed out.
pub record PoolInv (p : BufferPool) (live : Live) : Type 0 where
  pub blocks : IsBlockPool p.blocks
  pub min_bits : ℕ
  pub orders : ℕ
  pub floor : p.min_alloc ≡ 2 ^ min_bits
  pub block : p.blocks.block_bytes ≡ 2 ^ min_bits * 2 ^ orders
  pub shifts : orders ≤ 64
  pub narrow : p.blocks.block_bytes ≤ u32
  pub count : length p.arenas ≡ p.blocks.num_blocks
  pub arenas : ArenasInv p.blocks.block_bytes p.min_alloc live 0 p.arenas
  -- A block is free exactly if it carries no arena.
  pub held :
      (i : ℕ)
      → i < p.blocks.num_blocks
      → member ℕ_discrete i p.blocks.free ≡ not (is_some (get_or p.arenas i none))

-- What `allocate` gives: a region of the requested length in a block of the pool whose arena has room for it,
-- or nothing, with the pool as it was and the reason.
pub data Allocated (p : BufferPool) (live : Live) (bytes : ℕ)
    : BufferPool × Option Region → Type 0 where
  handed :
      (q : BufferPool) (block off order : ℕ)
      → block < p.blocks.num_blocks
      → bytes ≤ p.min_alloc * 2 ^ order
      → PoolInv q (hand_out live block (order, off))
      → Allocated p live bytes (
        q,
        some (record { block = block; offset = off; len = bytes; address = addr p block off }),
      )
  refused :
      (bytes ≡ 0) ⊎ ((p.blocks.block_bytes < bytes) ⊎ (p.blocks.free ≡ []))
      → Allocated p live bytes (p, none)

set-ArenasInv :
    (bs ms : ℕ) (live : Live) (b : ℕ) (es : List (Option Buddy)) (i j : ℕ) (a : Buddy) (x : ℕ × ℕ)
    → j ≡ b + i
    → i < length es
    → is_some (get_or es i none) ≡ false
    → ArenasInv bs ms live b es
    → ArenaInv bs ms (x ∷ []) a
    → ArenasInv bs ms (hand_out live j x) b (set es i (some a))
set-ArenasInv bs ms live b [] i j a x e lt empty v fresh = absurd (omega arith)
set-ArenasInv bs ms live b (some c ∷ es) zero j a x e lt empty v fresh = cc
set-ArenasInv bs ms live b (none ∷ es) zero j a x e lt empty v fresh =
    let here : (b == j) ≡ true = ground arith in
    (rw (here, v.0) fresh, hand_out-later bs ms live j (b + 1) x es (omega arith) v.1)
set-ArenasInv bs ms live b (c ∷ es) (suc i) j a x e lt empty v fresh =
    let other : (b == j) ≡ false = ground arith in
    (
      rw other v.0,
      set-ArenasInv bs ms live (b + 1) es i j a x (omega arith) (omega arith) empty v.1 fresh,
    )

module _ (p : BufferPool) (live : Live) (bytes : ℕ) (v : PoolInv p live) where
  fresh_arena :
      ArenaInv p.blocks.block_bytes p.min_alloc [] (create p.blocks.block_bytes p.min_alloc)
  fresh_arena =
      let small = v.narrow in
      let fits : 2 ^ v.min_bits * 2 ^ v.orders < u64 = omega (arith, v.block) in
      let sizes = create_sizes v.min_bits v.orders v.shifts fits in
      rw (v.block, v.floor)
        (record {
          inv = create-Inv v.min_bits v.orders v.shifts fits;
          arena = sizes.0;
          floor = sizes.1;
        })

  module _ (some_bytes : 0 < bytes) (small : bytes ≤ p.blocks.block_bytes) where
    gives : (allocate (create p.blocks.block_bytes p.min_alloc) bytes).1 ≢ none
    gives =
        let fits : 2 ^ v.min_bits * 2 ^ v.orders < u64 = omega (arith, v.block, v.narrow) in
        rw (v.block, v.floor)
          (create-hands_out v.min_bits v.orders bytes v.shifts fits some_bytes
            (omega (arith, v.block)))

    module _ (rest : List ℕ) (i : ℕ) (parts : p.blocks.free ≡ rest ++ i ∷ []) where
      abbrev acquired : BufferPool
      acquired = record p { blocks = record p.blocks { free = rest } }

      opened-PoolInv :
          (a : Buddy) (x : ℕ × ℕ)
          → ArenaInv p.blocks.block_bytes p.min_alloc (x ∷ []) a
          → PoolInv (record acquired { arenas = set p.arenas i (some a) }) (hand_out live i x)
      opened-PoolInv a x fresh =
          let parted : (j : ℕ)
              → member ℕ_discrete j p.blocks.free
                ≡ ite (ℕ_discrete i j) true (member ℕ_discrete j rest) =
            λ j. ap (member ℕ_discrete j) parts ∙ member-append ℕ_discrete j rest i in
          let last : member ℕ_discrete i p.blocks.free ≡ true = ground (arith, parted i) in
          let lt = v.blocks.below i last in
          let (others, gone) =
            init-IsDistinct rest i (subst (IsDistinct ℕ_discrete) parts v.blocks.distinct) in
          record {
            blocks = record {
              distinct = others;
              below = λ j m. v.blocks.below j (ground (arith, parted j));
            };
            min_bits = v.min_bits;
            orders = v.orders;
            floor = v.floor;
            block = v.block;
            shifts = v.shifts;
            narrow = v.narrow;
            count = length-set p.arenas i (some a) ∙ v.count;
            arenas =
                set-ArenasInv p.blocks.block_bytes p.min_alloc live 0 p.arenas i i a x (omega arith)
                  (omega (arith, v.count)) (ground (arith, v.held i lt)) v.arenas fresh;
            held = λ j small_j. ground (
              arith,
              v.held j small_j,
              parted j,
              get_or-set p.arenas i j (some a) none (omega (arith, v.count)),
            );
          }

      new_arena : Allocated p live bytes (open_arena acquired i bytes)
      unfolding open_arena region addr
      new_arena = elim (Option-cases (allocate (create p.blocks.block_bytes p.min_alloc) bytes).1) [
        | inl nothing ↦ absurd (gives nothing)
        | inr (off, told) ↦
            let a = create p.blocks.block_bytes p.min_alloc in
            let (kept, room, after) =
              handed_out p.blocks.block_bytes p.min_alloc bytes v.narrow small live a [] off
                fresh_arena told in
            rw (told, open_arena, kept)
              (handed _ i off (order_for a bytes)
                (v.blocks.below i (
                  ground
                    (arith, ap (member ℕ_discrete i) parts ∙ member-append ℕ_discrete i rest i)))
                room (opened-PoolInv (allocate a bytes).0 (order_for a bytes, off) after))
      ]

    fresh_region-Allocated : Allocated p live bytes (fresh_region p (acquire p.blocks) bytes)
    unfolding fresh_region
    fresh_region-Allocated = elim (acquire-cases p.blocks) [
      | inl (empty, e) ↦ rw e (refused (inr (inr empty)))
      | inr (rest, i, parts, e) ↦ rw e (new_arena rest i parts)
    ]

    place_region-Allocated :
        (r : List (Option Buddy) × Option (ℕ × ℕ))
        → Searched p.blocks.block_bytes p.min_alloc bytes 0 live p.arenas r
        → Allocated p live bytes (place_region p bytes r)
    unfolding place_region region addr
    place_region-Allocated r missing = fresh_region-Allocated
    place_region-Allocated r (found es block off order low high room after alike) =
        handed _ block off order (omega (arith, high, v.count)) room (record {
          blocks = v.blocks;
          min_bits = v.min_bits;
          orders = v.orders;
          floor = v.floor;
          block = v.block;
          shifts = v.shifts;
          narrow = v.narrow;
          count = alike.size ∙ v.count;
          arenas = after;
          held = λ j small_j. v.held j small_j ∙ ap not (sym (alike.held j));
        })

  -- `allocate` either hands out a region of the requested length, in a block of the pool, by an order
  -- that is not smaller, and keeps the invariant: the arena of every block covers each of its bytes exactly once
  -- by free blocks and regions handed out, and a block is free exactly if it has no arena. Or it
  -- changes nothing, because the request is empty or larger than a block, or no block is free. The
  -- offset that a new arena answers is read without a test, and is always there. A block must have
  -- at most 2 ^ 32 bytes.
  pub allocate_region-Allocated : Allocated p live bytes (allocate_region p bytes)
  unfolding allocate_region
  allocate_region-Allocated = elim (dec_lt 0 bytes) [
    | no empty ↦
        let none_asked : bytes ≡ 0 = omega arith in
        let t : (bytes == 0 || ltb p.blocks.block_bytes bytes) ≡ true = ground arith in
        rw t (refused (inl none_asked))
    | yes some_bytes ↦ elim (dec_lt p.blocks.block_bytes bytes) [
      | yes large ↦
          let t : (bytes == 0 || ltb p.blocks.block_bytes bytes) ≡ true = ground arith in
          rw t (refused (inr (inl large)))
      | no fits ↦
          let t : (bytes == 0 || ltb p.blocks.block_bytes bytes) ≡ false = ground arith in
          rw t (
            place_region-Allocated some_bytes (omega arith) (try_arenas bytes 0 p.arenas) (
              try_arenas-Searched p.blocks.block_bytes p.min_alloc bytes v.narrow (omega arith) live
                0 p.arenas v.arenas))
    ]
  ]
