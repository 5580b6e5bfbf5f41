-- ===== src/Core/Buddy/Orders.antt =====
-- The order of a request (core/buffer_pool.cpp), and a new arena.
use native.Mathlib.Nat.{mod-eq_of_lt, le-mul_of_pos_right}
use goblin_store.Prelude.{
  ℕ, zero, suc, ◌+◌, ◌-◌, ◌*◌, ◌%◌, ◌^◌, ◌≤◌, ◌<◌, ltb, if◌then◌else◌, ◌≡◌, refl, ◌∙◌, arith, inl,
  inr, dec_lt, ◌⊎◌,
}
use goblin_store.Prelude.Bits.{pow_pos, mul-pow_suc}
use goblin_store.Common.Types.{u64}
use goblin_store.Core.Buddy.{Buddy, count_order, order_for}
use goblin_store.Core.Buddy.Blocks.{bytes_at, Shape, bytes_at-fits}

-- The loop stops at the first doubling that is not below what is needed, if one is there within
-- the fuel and none before it wraps.
count_order-first :
    (fuel bs need o k : ℕ)
    → k ≤ fuel
    → need ≤ bs * 2 ^ k
    → bs * 2 ^ k < u64
    → (j : ℕ) × (j ≤ k)
      × (count_order fuel bs need o ≡ o + j)
      × (need ≤ bs * 2 ^ j)
      × (0 < j → bs * 2 ^ j < 2 * need)
unfolding count_order
count_order-first zero bs need o k h enough fits =
    let none_left : k ≡ 0 = omega arith in
    (0, omega arith, omega arith, rw none_left at enough, λ p. absurd (omega arith))
count_order-first (suc fuel) bs need o zero h enough fits =
    (0, omega arith, ground arith, enough, λ p. absurd (omega arith))
count_order-first (suc fuel) bs need o (suc k) h enough fits = elim (dec_lt bs need) [
  | yes more ↦
      let step = mul-pow_suc bs k in
      let below = le-mul_of_pos_right bs (pow_pos k) in
      let next : bs * 2 % u64 ≡ bs * 2 = mod-eq_of_lt (omega (arith, step, below)) in
      let again : bs * 2 * 2 ^ k ≡ bs * 2 ^ suc k = omega (arith, step) in
      let (j, few, e, fit, tight) =
        count_order-first fuel (bs * 2) need (o + 1) k (omega arith) (omega (arith, again))
          (omega (arith, again)) in
      let last : bs * 2 * 2 ^ j ≡ bs * 2 ^ suc j = omega (arith, mul-pow_suc bs j) in
      (
        suc j,
        omega arith,
        rw next (ground (arith, e)),
        omega (arith, last, fit),
        λ p. elim (dec_lt 0 j) [
          | yes later ↦ omega (arith, last, tight later)
          | no at_once ↦ let e : j ≡ 0 = omega arith in rw e (omega arith)
        ],
      )
  | no stop ↦ (0, omega arith, ground arith, omega arith, λ p. absurd (omega arith))
]

needed : Buddy → ℕ → ℕ
needed b bytes = if ltb bytes b.min_block then b.min_block else bytes

order_for-lem :
    (b : Buddy) (bytes : ℕ) → order_for b bytes ≡ count_order 64 b.min_block (needed b bytes) 0
unfolding order_for needed
order_for-lem b bytes = refl

needed-cases :
    (b : Buddy) (bytes : ℕ)
    → (bytes ≤ needed b bytes)
      × (b.min_block ≤ needed b bytes)
      × ((needed b bytes ≡ bytes) ⊎ (needed b bytes ≡ b.min_block))
unfolding needed
needed-cases b bytes = ground arith

-- The order of a request that fits the arena is at most the highest one, its block holds the
-- request, and it is the smallest such: twice the request is larger, above the smallest order.
pub order_for-fits :
    (b : Buddy) (bytes : ℕ)
    → Shape b
    → bytes ≤ b.arena_size
    → (order_for b bytes ≤ b.max_order)
      × (bytes ≤ bytes_at b (order_for b bytes))
      × (0 < order_for b bytes → bytes_at b (order_for b bytes) < 2 * bytes)
order_for-fits b bytes v h =
    let (holds, floor, which) = needed-cases b bytes in
    let base : b.min_block ≤ b.arena_size = omega (arith, bytes_at-fits b v 0 (omega arith)) in
    let small : needed b bytes ≤ b.arena_size = ground arith in
    let (j, below, e, fit, tight) =
      count_order-first 64 b.min_block (needed b bytes) 0 b.max_order v.shifts
        (omega (arith, v.arena)) (omega (arith, v.arena, v.fits)) in
    let order : order_for b bytes ≡ j = order_for-lem b bytes ∙ e ∙ omega arith in
    rw order (
      below,
      omega arith,
      λ p.
          let twice : b.min_block * 2 ≤ bytes_at b j =
            let s : suc (j - 1) ≡ j = omega arith in
            let d = mul-pow_suc b.min_block (j - 1) in
            let d' = rw s at d in
            omega (arith, d', le-mul_of_pos_right b.min_block (pow_pos (j - 1))) in
          elim which [
            | inl request ↦ omega (arith, tight p)
            | inr floor_only ↦ absurd (omega (arith, tight p))
          ],
    )

pub create_order :
    (m k : ℕ) → k ≤ 64 → 2 ^ m * 2 ^ k < u64 → count_order 64 (2 ^ m) (2 ^ m * 2 ^ k) 0 ≡ k
create_order m k h fits =
    let (j, below, e, fit, tight) =
      count_order-first 64 (2 ^ m) (2 ^ m * 2 ^ k) 0 k h (omega arith) fits in
    elim (dec_lt j k) [
      | yes less ↦
          let s : j + 1 + (k - (j + 1)) ≡ k = omega arith in
          let more = pow_mono (2 ^ m) (j + 1) (k - (j + 1)) in
          let more' = rw s at more in
          let t : j + 1 ≡ suc j = omega arith in
          let d : 2 ^ m * 2 ^ (j + 1) ≡ 2 ^ m * 2 ^ j * 2 = rw t (mul-pow_suc (2 ^ m) j) in
          let pos = le-mul_of_pos_right (2 ^ m) (pow_pos j) in
          absurd (omega (arith, more', d, fit, pos, pow_pos m))
      | no all ↦ omega arith
    ]
  where
    pow_mono : (c i j : ℕ) → c * 2 ^ i ≤ c * 2 ^ (i + j)
    pow_mono c i zero = let e : i + 0 ≡ i = omega arith in rw e (omega arith)
    pow_mono c i (suc j) =
        let e : i + suc j ≡ suc (i + j) = omega arith in
        rw e (omega (arith, pow_mono c i j, mul-pow_suc c (i + j)))
