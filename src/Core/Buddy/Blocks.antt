-- ===== src/Core/Buddy/Blocks.antt =====
-- Splitting and coalescing (core/buffer_pool.cpp): both keep the free blocks aligned inside the
-- arena, and conserve every weight that a block shares out to its two halves.
use native.Mathlib.Nat.{mul-div_cancel, mod-eq_of_lt}
use goblin_store.Prelude.{
  ℕ, zero, suc, ◌+◌, ◌-◌, ◌*◌, ◌/◌, ◌%◌, ◌^◌, ◌≤◌, ◌<◌, bit_xor, true, ◌==◌, List, [], length,
  get_or, ◌≡◌, ap, ◌∙◌, arith, ℕ_discrete, Bool-cases, inl, inr, ◌⊎◌,
}
use goblin_store.Prelude.Assoc.{member}
use goblin_store.Prelude.Bits.{pow_pos, bit_xor_pow, mul-pow_suc}
use goblin_store.Common.Types.{u64}
use goblin_store.Common.Types.Alignment.{pow_split}
use goblin_store.Core.Buddy.{Buddy, block_size}
use goblin_store.Core.Buddy.Weights.{Weight}

-- The bytes of a block, where the shift does not wrap.
abbrev pub bytes_at : Buddy → ℕ → ℕ
bytes_at b order = b.min_block * 2 ^ order

pub record Shape (b : Buddy) : Type 0 where
  pub min_bits : ℕ
  pub min_power : b.min_block ≡ 2 ^ min_bits
  pub arena : b.arena_size ≡ bytes_at b b.max_order
  pub fits : b.arena_size < u64
  pub shifts : b.max_order ≤ 64

-- A block is aligned to its size and lies in the arena.
abbrev pub InArena : Buddy → ℕ → ℕ → Type 0
InArena b order off =
    (order ≤ b.max_order)
    × ((q : ℕ) × (off ≡ q * bytes_at b order))
    × (off + bytes_at b order ≤ b.arena_size)

pub record Lists (b : Buddy) (free : List (List ℕ)) : Type 0 where
  pub orders : length free ≡ b.max_order + 1
  pub placed :
      (order off : ℕ) → member ℕ_discrete off (get_or free order []) ≡ true → InArena b order off

-- A block weighs what its halves weigh.
abbrev pub Halves : Buddy → Weight → Type 0
Halves b w = (order off : ℕ) → w (order + 1) off ≡ w order off + w order (off + bytes_at b order)

pub bytes_at-suc : (b : Buddy) (order : ℕ) → bytes_at b (order + 1) ≡ bytes_at b order * 2
bytes_at-suc b order =
    let e : order + 1 ≡ suc order = omega arith in rw e (mul-pow_suc b.min_block order)

pub bytes_at_mono : (b : Buddy) (i j : ℕ) → bytes_at b i ≤ bytes_at b (i + j)
bytes_at_mono b i zero = let e : i + 0 ≡ i = omega arith in rw e (omega arith)
bytes_at_mono b i (suc j) =
    let e : i + suc j ≡ i + j + 1 = omega arith in
    rw e (omega (arith, bytes_at_mono b i j, bytes_at-suc b (i + j)))

even_half : (q p : ℕ) → q % 2 ≡ 0 → q * p ≡ q / 2 * (p * 2)
even_half q p h = let e : q ≡ q / 2 * 2 = omega arith in ap (λ t. t * p) e ∙ omega arith

odd_half : (q p : ℕ) → q % 2 ≡ 1 → q * p ≡ q / 2 * (p * 2) + p
odd_half q p h = let e : q ≡ q / 2 * 2 + 1 = omega arith in ap (λ t. t * p) e ∙ omega arith

module _ (b : Buddy) (v : Shape b) where
  pub bytes_at-fits : (order : ℕ) → order ≤ b.max_order → bytes_at b order ≤ b.arena_size
  bytes_at-fits order h =
      let e : order + (b.max_order - order) ≡ b.max_order = omega arith in
      let m = bytes_at_mono b order (b.max_order - order) in
      let m' = rw e at m in omega (arith, m', v.arena)

  pub bytes_at-pos : (order : ℕ) → 0 < bytes_at b order
  bytes_at-pos order = rw (v.min_power, pow_split v.min_bits order) (pow_pos (v.min_bits + order))

  pub block_size-lem : (order : ℕ) → order ≤ b.max_order → block_size b order ≡ bytes_at b order
  unfolding block_size
  block_size-lem order h = mod-eq_of_lt (omega (arith, bytes_at-fits order h, v.fits))

  -- The buddy of an aligned block is the other half of an aligned block twice its size.
  pub buddy-cases :
      (order q cur : ℕ)
      → cur ≡ q * bytes_at b order
      → ((bit_xor cur (bytes_at b order) ≡ cur + bytes_at b order)
          × (cur ≡ q / 2 * bytes_at b (order + 1)))
        ⊎ ((bit_xor cur (bytes_at b order) + bytes_at b order ≡ cur)
            × (bit_xor cur (bytes_at b order) ≡ q / 2 * bytes_at b (order + 1)))
  buddy-cases order q cur e =
      let k = v.min_bits + order in
      let p : bytes_at b order ≡ 2 ^ k = rw v.min_power (pow_split v.min_bits order) in
      let d : cur / 2 ^ k ≡ q = rw (e, p) (mul-div_cancel q (pow_pos k)) in
      let c : cur ≡ q * 2 ^ k = rw (← p) e in
      let x = bit_xor_pow k cur in
      let x' = rw d at x in
      rw (bytes_at-suc b order, p)
        (elim (Bool-cases (q % 2 == 0)) [
          | inl even ↦ inl (ground arith, c ∙ even_half q (2 ^ k) (ground arith))
          | inr odd ↦
              let half = odd_half q (2 ^ k) (ground arith) in
              inr (ground (arith, x', c, half), ground (arith, x', c, half))
        ])
