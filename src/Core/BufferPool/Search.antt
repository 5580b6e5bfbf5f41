-- ===== src/Core/BufferPool/Search.antt =====
-- The search of the arenas in `BufferPool::allocate` (core/buffer_pool.cpp).
use native.Mathlib.Nat.{mod-eq_of_lt}
use goblin_store.Prelude.{
  ℕ, ◌+◌, ◌*◌, ◌%◌, ◌^◌, ◌≤◌, true, false, ◌==◌, Option, none, some, List, [], ◌∷◌, ◌≡◌, refl, ap,
  ◌∙◌, arith, Option-cases, inl, inr,
}
use goblin_store.Common.Types.{u32}
use goblin_store.Core.Buddy.{Buddy, order_for, allocate}
use goblin_store.Core.Buddy.Blocks.{bytes_at, bytes_at-pos}
use goblin_store.Core.Buddy.Orders.{order_for-fits}
use goblin_store.Core.Buddy.Allocation.{allocate-Inv, allocate_refused, allocate_keeps}
use goblin_store.Core.BufferPool.{skip_arena, try_arenas}
use goblin_store.Core.BufferPool.Arenas.{
  Live, hand_out-later, ArenaInv, EntryInv, ArenasInv, Alike-cons, Alike-refl, Searched, found,
  missing,
}

module _ (bs ms bytes : ℕ) (narrow : bs ≤ u32) (fits : bytes ≤ bs) (live : Live) where
  skip-Searched :
      (b : ℕ) (e : Option Buddy) (rest : List (Option Buddy))
      (r : List (Option Buddy) × Option (ℕ × ℕ))
      → EntryInv bs ms (live b) e
      → Searched bs ms bytes (b + 1) live rest r
      → Searched bs ms bytes b live (e ∷ rest) (skip_arena e r)
  unfolding skip_arena
  skip-Searched b e rest r v (found es' block off order low high room after alike) =
      let other : (b == block) ≡ false = ground arith in
      found (e ∷ es') block off order (omega arith) (omega arith) room (rw other v, after)
        (Alike-cons e e rest es' refl alike)
  skip-Searched b e rest r v missing = missing

  -- An offset that an arena hands out, in the 32 bits that are kept of it.
  pub handed_out :
      (a : Buddy) (l : List (ℕ × ℕ)) (off : ℕ)
      → ArenaInv bs ms l a
      → (allocate a bytes).1 ≡ some off
      → (off % u32 ≡ off)
        × (bytes ≤ ms * 2 ^ order_for a bytes)
        × ArenaInv bs ms ((order_for a bytes, off) ∷ l) (allocate a bytes).0
  handed_out a l off v told =
      let after = allocate-Inv a l bytes v.inv off told in
      let kept = allocate_keeps a l bytes v.inv in
      let order = order_for-fits a bytes v.inv.shape (omega (arith, v.arena)) in
      let pos = bytes_at-pos a v.inv.shape (order_for a bytes) in
      let inside = after.live_in.0.2 in
      let same : bytes_at (allocate a bytes).0 (order_for a bytes)
          ≡ bytes_at a (order_for a bytes) =
        ap (λ t. t * 2 ^ order_for a bytes) kept.1 in
      let holds : bytes ≤ ms * 2 ^ order_for a bytes = let h = order.1 in rw (← v.floor) h in
      (
        mod-eq_of_lt (omega (arith, inside, same, pos, kept.0, v.arena)),
        holds,
        record { inv = after; arena = kept.0 ∙ v.arena; floor = kept.1 ∙ v.floor },
      )

  pub try_arenas-Searched :
      (b : ℕ) (es : List (Option Buddy))
      → ArenasInv bs ms live b es
      → Searched bs ms bytes b live es (try_arenas bytes b es)
  unfolding try_arenas
  try_arenas-Searched b [] v = missing
  try_arenas-Searched b (none ∷ rest) v =
      skip-Searched b none rest (try_arenas bytes (b + 1) rest) v.0
        (try_arenas-Searched (b + 1) rest v.1)
  try_arenas-Searched b (some a ∷ rest) v = elim (Option-cases (allocate a bytes).1) [
    | inl full ↦
        let same = (allocate_refused a (live b) bytes v.0.inv full).0 in
        rw (full, try_arenas, same)
          (skip-Searched b (some a) rest (try_arenas bytes (b + 1) rest) v.0
            (try_arenas-Searched (b + 1) rest v.1))
    | inr (off, told) ↦
        let (kept, room, after) = handed_out a (live b) off v.0 told in
        let here : (b == b) ≡ true = ground arith in
        rw (told, try_arenas, kept)
          (found (some (allocate a bytes).0 ∷ rest) b off (order_for a bytes) (omega arith)
            (omega arith) room
            (
              rw here after,
              hand_out-later bs ms live b (b + 1) (order_for a bytes, off) rest (omega arith) v.1,
            )
            (Alike-cons (some a) (some (allocate a bytes).0) rest rest refl (Alike-refl rest)))
  ]
