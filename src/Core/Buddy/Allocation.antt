-- ===== src/Core/Buddy/Allocation.antt =====
-- What `allocate` (core/buffer_pool.cpp) hands out.
use native.Mathlib.Nat.{mod-eq_of_lt}
use goblin_store.Prelude.{
  ℕ, zero, suc, ◌+◌, ◌-◌, ◌≤◌, ◌<◌, true, false, ◌==◌, ltb, ◌||◌, none, some, List, [], ◌∷◌, ◌++◌,
  get_or, set, ◌≡◌, ◌≢◌, refl, ap, ◌∙◌, arith, ℕ_discrete, Bool-cases, Option-cases, inl, inr, ◌⊎◌,
  dec_lt,
}
use goblin_store.Prelude.Assoc.{member-append}
use goblin_store.Common.Types.{add64}
use goblin_store.Common.Config.{is_empty}
use goblin_store.Core.Buddy.{
  Buddy, order_for, block_size, find_order, pop_back, split_down, take_block, allocate_order,
  allocate_at, allocate,
}
use goblin_store.Core.Buddy.Weights.{
  Weight, weigh, weigh-set, weigh_list-append, pop_back-append, pop_back_empty,
}
use goblin_store.Core.Buddy.Blocks.{bytes_at, Shape, InArena, Lists, Halves, block_size-lem}
use goblin_store.Core.Buddy.Splitting.{set-Lists, lower-InArena, Split, split_down-Split}
use goblin_store.Core.Buddy.Invariant.{Inv, covers, bytes_of, covers-Halves, bytes_of-Halves}

pub find_order-range :
    (left : ℕ) (free : List (List ℕ)) (o : ℕ)
    → (o ≤ find_order left free o) × (find_order left free o ≤ o + left)
unfolding find_order
find_order-range zero free o = (omega arith, omega arith)
find_order-range (suc left) free o = ground (arith, find_order-range left free (o + 1))

-- The orders passed over have no free block.
find_order-skips :
    (left : ℕ) (free : List (List ℕ)) (o i : ℕ)
    → o ≤ i
    → i < find_order left free o
    → get_or free i [] ≡ []
unfolding find_order
find_order-skips zero free o i h lt = absurd (omega arith)
find_order-skips (suc left) free o i h lt = elim (ℕ_discrete o i) [
  | yes e ↦ elim (Bool-cases (is_empty (get_or free o []))) [
    | inl empty ↦ rw (← e) (empty_list (get_or free o []) empty)
    | inr busy ↦ absurd (ground arith)
  ]
  | no ne ↦ elim (Bool-cases (is_empty (get_or free o []))) [
    | inl empty ↦ find_order-skips left free (o + 1) i (omega arith) (ground arith)
    | inr busy ↦ absurd (ground arith)
  ]
]
  where
    empty_list : (xs : List ℕ) → is_empty xs ≡ true → xs ≡ []
    empty_list [] h = refl
    empty_list (x ∷ xs) h = cc

-- Where the search stops below its end, there is a free block.
find_order-stops :
    (left : ℕ) (free : List (List ℕ)) (o : ℕ)
    → find_order left free o < o + left
    → get_or free (find_order left free o) [] ≢ []
unfolding find_order
find_order-stops zero free o lt = absurd (omega arith)
find_order-stops (suc left) free o lt = elim (Bool-cases (is_empty (get_or free o []))) [
  | inl empty ↦ rw empty (find_order-stops left free (o + 1) (ground arith))
  | inr busy ↦ rw busy (λ none_there. ground arith)
]

module _ (b : Buddy) (v : Shape b) (l : Lists b b.free) (o : ℕ) (rest : List ℕ) (off : ℕ) where
  module _ (le : o ≤ b.max_order) (top : get_or b.free o [] ≡ rest ++ off ∷ []) where
    popped-Lists : Lists b (set b.free o rest)
    popped-Lists =
        set-Lists b b.free o rest l le
          λ x m. l.placed o x (rw top (ground (arith, member-append ℕ_discrete x rest off)))

    popped-InArena : InArena b o off
    popped-InArena = l.placed o off (rw top (ground (arith, member-append ℕ_discrete off rest off)))

    weigh-popped : (w : Weight) → weigh w 0 (set b.free o rest) + w o off ≡ weigh w 0 b.free
    weigh-popped w =
        let e : 0 + o ≡ o = omega arith in
        let s = weigh-set w 0 b.free o rest (omega (arith, l.orders)) in
        let s' = rw (e, top) at s in omega (arith, s', weigh_list-append (w o) rest off)

    Split-popped :
        (w : Weight) (target : ℕ)
        → Halves b w
        → target ≤ o
        → Split b v w
            (set b.free o rest)
            (split_down b (set b.free o rest) off target (o - target))
            target
            off
            (w o off)
    Split-popped w target halves h =
        let e : target + (o - target) ≡ o = omega arith in
        let s =
          split_down-Split b v w (set b.free o rest) off target (o - target) halves popped-Lists
            (rw e popped-InArena) in
        rw e at s

    -- The weight that leaves the free lists is that of the block handed out.
    weigh-taken :
        (w : Weight) (target : ℕ)
        → Halves b w
        → target ≤ o
        → weigh w 0 (split_down b (set b.free o rest) off target (o - target)) + w target off
          ≡ weigh w 0 b.free
    weigh-taken w target halves h =
        omega (arith, (Split-popped w target halves h).weight, weigh-popped w)

    taken-InArena : (target : ℕ) → target ≤ o → InArena b target off
    taken-InArena target h =
        let e : target + (o - target) ≡ o = omega arith in
        lower-InArena b v target off (o - target) (rw e popped-InArena)

    taken-Inv :
        (live : List (ℕ × ℕ)) (target : ℕ)
        → Inv b live
        → target ≤ o
        → Inv (take_block b target o rest off).0 ((target, off) ∷ live)
    unfolding take_block
    taken-Inv live target inv h =
        let bytes = weigh-taken (bytes_of b) target (bytes_of-Halves b) h in
        let sum : add64 b.used (block_size b target) ≡ b.used + bytes_at b target =
          rw (block_size-lem b v target (omega arith))
            (mod-eq_of_lt (omega (arith, bytes, inv.total, v.fits))) in
        let ls = (Split-popped (bytes_of b) target (bytes_of-Halves b) h).lists in
        record {
          shape = record {
            min_bits = v.min_bits;
            min_power = v.min_power;
            arena = v.arena;
            fits = v.fits;
            shifts = v.shifts;
          };
          lists = record { orders = ls.orders; placed = ls.placed };
          live_in = (taken-InArena target h, inv.live_in);
          cover = λ a.
              omega (arith, inv.cover a, weigh-taken (covers b a) target (covers-Halves b a) h);
          counted = omega (arith, sum, inv.counted);
          total = omega (arith, sum, bytes, inv.total);
        }

-- No block of the order or of a higher one is free.
abbrev pub NoneFree : Buddy → ℕ → Type 0
NoneFree b target = (i : ℕ) → target ≤ i → i ≤ b.max_order → get_or b.free i [] ≡ []

pub record Found (b : Buddy) (target : ℕ) : Type 0 where
  pub order : ℕ
  pub rest : List ℕ
  pub off : ℕ
  pub above : target ≤ order
  pub within : order ≤ b.max_order
  pub top : get_or b.free order [] ≡ rest ++ off ∷ []
  pub taken : allocate_order b target ≡ take_block b target order rest off

allocate_order-cases :
    (b : Buddy) (target : ℕ)
    → target ≤ b.max_order
    → Lists b b.free
    → ((allocate_order b target ≡ (b, none)) × NoneFree b target) ⊎ Found b target
unfolding allocate_order
allocate_order-cases b target h l =
    let left = b.max_order + 1 - target in
    let o = find_order left b.free target in
    let range = find_order-range left b.free target in
    elim (Option-cases (pop_back (get_or b.free o []))) [
      | inl e ↦ inl (
        rw (e, allocate_order) refl,
        λ i low high. elim (dec_lt i o) [
          | yes lt ↦ find_order-skips left b.free target i low lt
          | no ge ↦ elim (dec_lt o (target + left)) [
            | yes stops ↦ absurd (find_order-stops left b.free target stops (pop_back_empty _ e))
            | no ends ↦ absurd (omega arith)
          ]
        ],
      )
      | inr (p, e) ↦ elim (dec_lt b.max_order o) [
        | yes past ↦ inl (
          let t : ltb b.max_order o ≡ true = ground arith in rw (e, allocate_order, t) refl,
          λ i low high. find_order-skips left b.free target i low (omega arith),
        )
        | no within ↦ inr (record {
          order = o;
          rest = p.0;
          off = p.1;
          above = range.0;
          within = omega arith;
          top = pop_back-append _ p e;
          taken =
              let t : ltb b.max_order o ≡ false = ground arith in rw (e, allocate_order, t) refl;
        })
      ]
    ]

allocate_at-cases :
    (b : Buddy) (bytes target : ℕ)
    → Lists b b.free
    → ((allocate_at b bytes target ≡ (b, none))
        × ((bytes ≡ 0) ⊎ ((b.arena_size < bytes) ⊎ NoneFree b target)))
      ⊎ ((allocate_at b bytes target ≡ allocate_order b target) × Found b target)
unfolding allocate_at
allocate_at-cases b bytes target l = elim (ℕ_discrete bytes 0) [
  | yes zero_bytes ↦ inl (rw zero_bytes refl, inl zero_bytes)
  | no some_bytes ↦ elim (dec_lt b.arena_size bytes) [
    | yes large ↦
        let t : (bytes == 0 || ltb b.arena_size bytes) ≡ true = ground arith in
        inl (rw t refl, inr (inl large))
    | no fits ↦
        let good : (bytes == 0 || ltb b.arena_size bytes) ≡ false = ground arith in
        elim (dec_lt b.max_order target) [
          | yes past ↦
              let t : ltb b.max_order target ≡ true = ground arith in
              inl (rw (good, t) refl, inr (inr (λ i low high. absurd (omega arith))))
          | no within ↦
              let t : ltb b.max_order target ≡ false = ground arith in
              elim (allocate_order-cases b target (omega arith) l) [
                | inl (e, none_free) ↦ inl (rw (good, t) e, inr (inr none_free))
                | inr found ↦ inr (rw (good, t) refl, found)
              ]
        ]
  ]
]

module _ (b : Buddy) (live : List (ℕ × ℕ)) (bytes : ℕ) (inv : Inv b live) where
  -- When `allocate` hands out an offset, the block of the requested order there joins the blocks in
  -- use, and the invariant holds: free blocks and blocks in use still cover every byte of the arena
  -- exactly once, so the new block overlaps none of the others, and `used` counts its bytes.
  pub allocate-Inv :
      (off : ℕ)
      → (allocate b bytes).1 ≡ some off
      → Inv (allocate b bytes).0 ((order_for b bytes, off) ∷ live)
  unfolding take_block allocate
  allocate-Inv off told = elim (allocate_at-cases b bytes (order_for b bytes) inv.lists) [
    | inl (e, why) ↦ absurd (ground arith)
    | inr (e, f) ↦
        let whole = e ∙ f.taken in
        let here : f.off ≡ off = ground arith in
        rw (whole, ← here)
          (taken-Inv b inv.shape inv.lists f.order f.rest f.off f.within f.top live
            (order_for b bytes) inv f.above)
  ]

  -- When `allocate` hands out nothing, the allocator is unchanged, and the request was empty, or
  -- larger than the arena, or no block of its order or of a higher one is free.
  pub allocate_refused :
      (allocate b bytes).1 ≡ none
      → ((allocate b bytes).0 ≡ b)
        × ((bytes ≡ 0) ⊎ ((b.arena_size < bytes) ⊎ NoneFree b (order_for b bytes)))
  unfolding take_block allocate
  allocate_refused told = elim (allocate_at-cases b bytes (order_for b bytes) inv.lists) [
    | inl (e, why) ↦ (ap (λ r. r.0) e, why)
    | inr (e, f) ↦ let whole = e ∙ f.taken in absurd (ground arith)
  ]

-- `allocate` changes neither the arena nor the smallest block.
pub allocate_keeps :
    (b : Buddy) (live : List (ℕ × ℕ)) (bytes : ℕ)
    → Inv b live
    → ((allocate b bytes).0.arena_size ≡ b.arena_size)
      × ((allocate b bytes).0.min_block ≡ b.min_block)
unfolding take_block allocate
allocate_keeps b live bytes inv = elim (allocate_at-cases b bytes (order_for b bytes) inv.lists) [
  | inl (e, why) ↦ (ap (λ r. r.0.arena_size) e, ap (λ r. r.0.min_block) e)
  | inr (e, f) ↦
      let whole = e ∙ f.taken in (ap (λ r. r.0.arena_size) whole, ap (λ r. r.0.min_block) whole)
]
