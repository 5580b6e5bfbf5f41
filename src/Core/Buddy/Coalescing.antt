-- ===== src/Core/Buddy/Coalescing.antt =====
-- Coalescing (core/buffer_pool.cpp) keeps the free blocks aligned inside the arena, and conserves
-- every weight that a block shares out to its two halves.
use goblin_store.Prelude.{
  ℕ, zero, suc, ◌+◌, ◌/◌, ◌≤◌, ◌<◌, bit_xor, true, false, ltb, if◌then◌else◌, List, [], get_or, set,
  ◌≡◌, ap, ◌∙◌, arith, ℕ_discrete, Bool-cases, inl, inr,
}
use goblin_store.Prelude.Assoc.{member, drop_member}
use goblin_store.Core.Buddy.{Buddy, push_back, coalesce}
use goblin_store.Core.Buddy.Weights.{
  Weight, weigh, weigh-set, weigh-push_back, weigh_list-drop_member,
}
use goblin_store.Core.Buddy.Blocks.{
  bytes_at, Shape, InArena, Lists, Halves, bytes_at-suc, block_size-lem, bytes_at-pos, buddy-cases,
}
use goblin_store.Core.Buddy.Splitting.{set-Lists, push_back-Lists, member_dropped}

module _ (b : Buddy) (v : Shape b) where
  -- A block and its buddy make a block of the next order.
  merged-InArena :
      (w : Weight) (order cur : ℕ)
      → Halves b w
      → InArena b order cur
      → order < b.max_order
      → let buddy = bit_xor cur (bytes_at b order) in
        InArena b order buddy
        → let low = if ltb cur buddy then cur else buddy in
          InArena b (order + 1) low × (w (order + 1) low ≡ w order cur + w order buddy)
  merged-InArena w order cur halves (le, (q, e), fits) lt (other_le, other_q, other_fits) =
      let s = bytes_at b order in
      let twice = bytes_at-suc b order in
      let pos = bytes_at-pos b v order in
      elim (buddy-cases b v order q cur e) [
        | inl (up, even) ↦
            let first : ltb cur (bit_xor cur s) ≡ true = ground (arith, up) in
            rw first (
              (omega arith, (q / 2, even), omega (arith, twice, up, other_fits)),
              rw up (halves order cur),
            )
        | inr (down, even) ↦
            let second : ltb cur (bit_xor cur s) ≡ false = ground (arith, down) in
            rw second (
              (omega arith, (q / 2, even), omega (arith, twice, down)),
              halves order (bit_xor cur s)
                  ∙ ap (λ t. w order (bit_xor cur s) + w order t) down
                  ∙ omega arith,
            )
      ]

  pub record Merged (w : Weight) (free after : List (List ℕ)) (block : ℕ) : Type 0 where
    pub lists : Lists b after
    pub weight : weigh w 0 after ≡ weigh w 0 free + block

  pushed :
      (w : Weight) (free : List (List ℕ)) (cur order : ℕ)
      → Lists b free
      → InArena b order cur
      → Merged w free (push_back free order cur) (w order cur)
  pushed w free cur order l h = record {
    lists = push_back-Lists b free order cur l h;
    weight = weigh-push_back w free order cur (omega (arith, l.orders, h.0));
  }

  dropped-Lists :
      (free : List (List ℕ)) (order x : ℕ)
      → Lists b free
      → order ≤ b.max_order
      → Lists b (set free order (drop_member ℕ_discrete x (get_or free order [])))
  dropped-Lists free order x l h =
      set-Lists b free order (drop_member ℕ_discrete x (get_or free order [])) l h
        λ y m. l.placed order y (member_dropped y x (get_or free order []) m)

  weigh-dropped :
      (w : Weight) (free : List (List ℕ)) (order x : ℕ)
      → Lists b free
      → order ≤ b.max_order
      → member ℕ_discrete x (get_or free order []) ≡ true
      → weigh w 0 (set free order (drop_member ℕ_discrete x (get_or free order []))) + w order x
        ≡ weigh w 0 free
  weigh-dropped w free order x l h m =
      let e : 0 + order ≡ order = omega arith in
      let s =
        weigh-set w 0 free order (drop_member ℕ_discrete x (get_or free order []))
          (omega (arith, l.orders)) in
      let s' = rw e at s in
      omega (arith, s', weigh_list-drop_member (w order) x (get_or free order []) m)

  pub coalesce-Merged :
      (left : ℕ) (w : Weight) (free : List (List ℕ)) (cur order : ℕ)
      → Halves b w
      → Lists b free
      → InArena b order cur
      → order + left ≤ b.max_order
      → Merged w free (coalesce left b free cur order) (w order cur)
  unfolding coalesce
  coalesce-Merged zero w free cur order halves l h fuel = pushed w free cur order l h
  coalesce-Merged (suc left) w free cur order halves l h fuel =
      let buddy = bit_xor cur (bytes_at b order) in
      let fl = get_or free order [] in
      elim (Bool-cases (member ℕ_discrete buddy fl)) [
        | inl free_too ↦
            let m =
              merged-InArena w order cur halves h (omega arith) (l.placed order buddy free_too) in
            let ih =
              coalesce-Merged left w (set free order (drop_member ℕ_discrete buddy fl))
                (if ltb cur buddy then cur else buddy) (order + 1) halves
                (dropped-Lists free order buddy l h.0) m.0 (omega arith) in
            rw (block_size-lem b v order h.0, free_too)
              (record {
                lists = ih.lists;
                weight =
                    omega (arith, ih.weight, m.1, weigh-dropped w free order buddy l h.0 free_too);
              })
        | inr apart ↦ rw (block_size-lem b v order h.0, apart) (pushed w free cur order l h)
      ]
