-- ===== src/Core/Buddy/Splitting.antt =====
-- Splitting and coalescing (core/buffer_pool.cpp): both keep the free blocks aligned inside the
-- arena, and conserve every weight that a block shares out to its two halves.
use native.Mathlib.Nat.{mod-eq_of_lt}
use goblin_store.Prelude.{
  ℕ, zero, suc, ◌+◌, ◌*◌, ◌≤◌, true, ◌==◌, List, [], ◌∷◌, ◌++◌, get_or, set, ◌≡◌, refl, ◌∙◌, arith,
  ℕ_discrete, length-set, get_or-set, Bool-cases, inl, inr,
}
use goblin_store.Prelude.Assoc.{member, drop_member, member-append}
use goblin_store.Common.Types.{add64}
use goblin_store.Core.Buddy.{Buddy, block_size, push_back, split_down}
use goblin_store.Core.Buddy.Weights.{Weight, weigh, weigh-push_back}
use goblin_store.Core.Buddy.Blocks.{
  bytes_at, Shape, InArena, Lists, Halves, bytes_at-suc, block_size-lem, bytes_at-pos,
}

pub member_dropped :
    (x y : ℕ) (xs : List ℕ)
    → member ℕ_discrete x (drop_member ℕ_discrete y xs) ≡ true
    → member ℕ_discrete x xs ≡ true
unfolding member drop_member
member_dropped x y [] h = h
member_dropped x y (z ∷ zs) h = ground (arith, member_dropped x y zs)

module _ (b : Buddy) where
  pub set-Lists :
      (free : List (List ℕ)) (order : ℕ) (l : List ℕ)
      → Lists b free
      → order ≤ b.max_order
      → ((off : ℕ) → member ℕ_discrete off l ≡ true → InArena b order off)
      → Lists b (set free order l)
  set-Lists free order l v h placed = record {
    orders = length-set free order l ∙ v.orders;
    placed = λ i off m. elim (Bool-cases (order == i)) [
      | inl same ↦
          let e : order ≡ i = ground arith in
          let g = get_or-set free order i l [] (omega (arith, v.orders)) in
          let m' = rw (g, same) at m in rw (← e) (placed off m')
      | inr other ↦
          let g = get_or-set free order i l [] (omega (arith, v.orders)) in
          v.placed i off (rw (g, other) at m)
    ];
  }

  pub push_back-Lists :
      (free : List (List ℕ)) (order off : ℕ)
      → Lists b free
      → InArena b order off
      → Lists b (push_back free order off)
  unfolding push_back
  push_back-Lists free order off v h =
      set-Lists free order (get_or free order [] ++ off ∷ []) v h.0 λ x m. elim (ℕ_discrete off x) [
        | yes e ↦ rw (← e) h
        | no ne ↦
            v.placed order x (ground (arith, member-append ℕ_discrete x (get_or free order []) off))
      ]

module _ (b : Buddy) (v : Shape b) where
  -- The upper half of a block.
  upper-InArena :
      (order off : ℕ)
      → InArena b (order + 1) off
      → (add64 off (block_size b order) ≡ off + bytes_at b order)
        × InArena b order off
        × InArena b order (off + bytes_at b order)
  upper-InArena order off (le, (q, e), fits) =
      let s = bytes_at b order in
      let twice = bytes_at-suc b order in
      let small : order ≤ b.max_order = omega arith in
      let e' = rw twice at e in
      let low : off ≡ q * 2 * s = omega arith in
      let high : off + s ≡ (q * 2 + 1) * s = omega (arith, low) in
      let room : off + s + s ≤ b.arena_size = omega (arith, twice) in
      (
        rw (block_size-lem b v order small)
            (mod-eq_of_lt (omega (arith, v.fits, bytes_at-pos b v order))),
        (small, (q * 2, low), omega arith),
        (small, (q * 2 + 1, high), room),
      )

  -- A block begins with the blocks of the lower orders.
  pub lower-InArena : (order off levels : ℕ) → InArena b (order + levels) off → InArena b order off
  lower-InArena order off zero h = let e : order + 0 ≡ order = omega arith in rw e at h
  lower-InArena order off (suc levels) h =
      let e : order + suc levels ≡ order + levels + 1 = omega arith in
      let h' = rw e at h in lower-InArena order off levels (upper-InArena (order + levels) off h').1

  pub record Split (w : Weight) (free left : List (List ℕ)) (target off before : ℕ) : Type 0 where
    pub lists : Lists b left
    pub weight : weigh w 0 left + w target off ≡ weigh w 0 free + before

  pub split_down-Split :
      (w : Weight) (free : List (List ℕ)) (off target levels : ℕ)
      → Halves b w
      → Lists b free
      → InArena b (target + levels) off
      → Split w free (split_down b free off target levels) target off (w (target + levels) off)
  unfolding split_down
  split_down-Split w free off target zero halves l h =
      let e : target + 0 ≡ target = omega arith in rw e (record { lists = l; weight = refl })
  split_down-Split w free off target (suc levels) halves l h =
      let o = target + levels in
      let e : target + suc levels ≡ o + 1 = omega arith in
      let h' = rw e at h in
      let (sum, low, high) = upper-InArena o off h' in
      let up = off + bytes_at b o in
      let ih =
        split_down-Split w (push_back free o up) off target levels halves
          (push_back-Lists b free o up l high) low in
      rw (e, sum)
        (record {
          lists = ih.lists;
          weight = omega (
            arith,
            ih.weight,
            halves o off,
            weigh-push_back w free o up (omega (arith, l.orders)),
          );
        })
