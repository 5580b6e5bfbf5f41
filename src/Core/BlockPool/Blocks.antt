-- ===== src/Core/BlockPool/Blocks.antt =====
-- The blocks of a pool (core/buffer_pool.cpp) are handed out once and come back.
use native.Mathlib.Nat.{mod-eq_of_lt, mul-div_cancel, mul-le-mul_right}
use goblin_store.Prelude.{
  ℕ, zero, suc, ◌+◌, ◌*◌, ◌/◌, ◌%◌, ◌≤◌, ◌<◌, Bool, true, false, none, some, List, [], ◌∷◌, ◌++◌,
  ◌≡◌, refl, sym, ap, arith, ◌⊎◌, ℕ_discrete, Option-cases, inl, inr,
}
use goblin_store.Prelude.Assoc.{member, IsDistinct, member-append}
use goblin_store.Common.Types.{u64, sub64}
use goblin_store.Core.Buddy.{pop_back}
use goblin_store.Core.Buddy.Weights.{pop_back-append, pop_back_empty}
use goblin_store.Core.BlockPool.{
  BlockPool, Chunk, count_down, new_pool, acquire, release, block_data, acquire_chunk,
  release_chunk,
}

-- The free blocks are blocks of the pool, none twice.
pub record IsBlockPool (p : BlockPool) : Type 0 where
  pub distinct : IsDistinct ℕ_discrete p.free
  pub below : (i : ℕ) → member ℕ_discrete i p.free ≡ true → i < p.num_blocks

pub append-IsDistinct :
    (xs : List ℕ) (x : ℕ)
    → IsDistinct ℕ_discrete xs
    → member ℕ_discrete x xs ≡ false
    → IsDistinct ℕ_discrete (xs ++ x ∷ [])
unfolding member
append-IsDistinct [] x h new = (refl, tt)
append-IsDistinct (y ∷ ys) x h new = (
  ground (arith, member-append ℕ_discrete y ys x, h.0),
  append-IsDistinct ys x h.1 (ground arith),
)

pub init-IsDistinct :
    (xs : List ℕ) (x : ℕ)
    → IsDistinct ℕ_discrete (xs ++ x ∷ [])
    → IsDistinct ℕ_discrete xs × (member ℕ_discrete x xs ≡ false)
unfolding member
init-IsDistinct [] x h = (tt, refl)
init-IsDistinct (y ∷ ys) x h =
    let ih = init-IsDistinct ys x h.1 in
    let e = member-append ℕ_discrete y ys x in
    ((ground (arith, e, h.0), ih.0), ground (arith, e, h.0, ih.1))

member-count_down : (n i : ℕ) → member ℕ_discrete i (count_down n) ≡ true → i < n
unfolding member count_down
member-count_down zero i h = cc
member-count_down (suc n) i h = ground (arith, member-count_down n i)

absent-count_down : (n i : ℕ) → n ≤ i → member ℕ_discrete i (count_down n) ≡ false
unfolding member count_down
absent-count_down zero i h = refl
absent-count_down (suc n) i h = ground (arith, absent-count_down n i (omega arith))

count_down-IsDistinct : (n : ℕ) → IsDistinct ℕ_discrete (count_down n)
unfolding count_down
count_down-IsDistinct zero = tt
count_down-IsDistinct (suc n) = (absent-count_down n n (omega arith), count_down-IsDistinct n)

pub new_pool-IsBlockPool :
    (base block_bytes num_blocks : ℕ) (locked : Bool)
    → IsBlockPool (new_pool base block_bytes num_blocks locked)
unfolding new_pool
new_pool-IsBlockPool base block_bytes n locked = record {
  distinct = count_down-IsDistinct n;
  below = member-count_down n;
}

-- What `acquire` does: nothing, if no block is free; else the last free block leaves the list.
pub acquire-cases :
    (p : BlockPool)
    → ((p.free ≡ []) × (acquire p ≡ (p, none)))
      ⊎ ((rest : List ℕ) × (i : ℕ) × (p.free ≡ rest ++ i ∷ [])
          × (acquire p ≡ (record p { free = rest }, some i)))
unfolding acquire
acquire-cases p = elim (Option-cases (pop_back p.free)) [
  | inl e ↦ inl (pop_back_empty p.free e, rw (e, acquire) refl)
  | inr (q, e) ↦ inr (q.0, q.1, pop_back-append p.free q e, rw (e, acquire) refl)
]

chunk_index :
    (p : BlockPool) (i : ℕ)
    → 0 < p.block_bytes
    → i < p.num_blocks
    → p.base + p.num_blocks * p.block_bytes < u64
    → sub64 (block_data p i) p.base / p.block_bytes ≡ i
unfolding block_data
chunk_index p i pos lt fits =
    let s = p.block_bytes in
    let small : i * s ≤ p.num_blocks * s = mul-le-mul_right s (omega arith) in
    let e : i * s % u64 ≡ i * s = mod-eq_of_lt (omega arith) in
    let f : (p.base + i * s) % u64 ≡ p.base + i * s = mod-eq_of_lt (omega arith) in
    let g : sub64 (p.base + i * s) p.base ≡ i * s = omega arith in
    rw (e, f, g) (mul-div_cancel i pos)

release_index :
    (p : BlockPool) (rest : List ℕ) (i : ℕ)
    → p.free ≡ rest ++ i ∷ []
    → release (record p { free = rest }) i ≡ p
unfolding release
release_index p rest i parts = ap (λ l. record p { free = l }) (sym parts)

acquire_chunk-some :
    (p q : BlockPool) (i : ℕ)
    → acquire p ≡ (q, some i)
    → acquire_chunk p ≡ (q, some (record { start = block_data q i; length = q.block_bytes }))
unfolding acquire_chunk
acquire_chunk-some p q i e = rw e refl

acquire_chunk-none : (p q : BlockPool) → acquire p ≡ (q, none) → acquire_chunk p ≡ (q, none)
unfolding acquire_chunk
acquire_chunk-none p q e = rw e refl

-- Acquiring a chunk and releasing it gives the pool back as it was, where its region lies below
-- 2 ^ 64.
pub release_chunk-acquire_chunk :
    (p : BlockPool) (c : Chunk)
    → IsBlockPool p
    → 0 < p.block_bytes
    → p.base + p.num_blocks * p.block_bytes < u64
    → (acquire_chunk p).1 ≡ some c
    → release_chunk (acquire_chunk p).0 c ≡ p
unfolding release_chunk member
release_chunk-acquire_chunk p c v pos fits told = elim (acquire-cases p) [
  | inl (empty, e) ↦ let f = acquire_chunk-none p p e in absurd (ground arith)
  | inr (rest, i, parts, e) ↦
      let q : BlockPool = record p { free = rest } in
      let f = acquire_chunk-some p q i e in
      let last : member ℕ_discrete i p.free ≡ true =
        rw parts (ground (arith, member-append ℕ_discrete i rest i)) in
      let start : c.start ≡ block_data q i = ground arith in
      rw (f, start, chunk_index q i pos (v.below i last) fits) (release_index p rest i parts)
]
