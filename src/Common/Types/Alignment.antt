-- ===== src/Common/Types/Alignment.antt =====
-- The bit helpers of common/types.hpp against arithmetic.
use native.Mathlib.Nat.{
  pow-suc, add-suc, mul_assoc, mul-sub, mul_comm, mod-eq_of_lt, mod-lt, div-add-mod', mul-mod_left,
  div-lt_iff_lt-mul, le-mul_of_pos_right,
}
use goblin_store.Prelude.{
  ℕ, zero, suc, ◌+◌, ◌-◌, ◌*◌, ◌/◌, ◌%◌, ◌^◌, ◌≤◌, ◌<◌, true, ◌==◌, ◌≡◌, ◌∙◌, ap, ◌↔◌, arith,
}
use goblin_store.Prelude.Bits.{pow_pos, bit_and-low, bit_and-high, pow_of_bit_and, bit_and_of_pow}
use goblin_store.Common.Types.{
  u64, sub64, add64, complement, is_power_of_two, align_up, align_down, is_aligned,
}

-- `is_power_of_two` accepts exactly the powers of two.
pub is_power_of_two_iff : (v : ℕ) → (is_power_of_two v ≡ true) ↔ ((k : ℕ) × (v ≡ 2 ^ k))
unfolding is_power_of_two
is_power_of_two_iff v = (
  λ h. pow_of_bit_and v v (omega arith) (ground arith) (ground arith),
  λ (k, e). rw e (ground (arith, pow_pos k, bit_and_of_pow k)),
)

pub pow_split : (m k : ℕ) → 2 ^ m * 2 ^ k ≡ 2 ^ (m + k)
pow_split m zero = let e : m + 0 ≡ m = omega arith in rw e (omega arith)
pow_split m (suc k) =
    rw (add-suc m k, pow-suc 2 k, pow-suc 2 (m + k), ← mul_assoc (2 ^ m) (2 ^ k) 2, pow_split m k)

module _ (k m v : ℕ) (bits : m + k ≡ 64) where
  whole : 2 ^ m * 2 ^ k ≡ u64
  whole = pow_split m k ∙ ap (λ n. 2 ^ n) bits

  low_mask : sub64 (2 ^ k) 1 ≡ 2 ^ k - 1
  low_mask =
      let p = 2 ^ k in
      let below : p ≤ u64 = rw (← whole, mul_comm (2 ^ m) p) (le-mul_of_pos_right p (pow_pos m)) in
      omega (arith, pow_pos k)

  high_mask : complement (sub64 (2 ^ k) 1) ≡ (2 ^ m - 1) * 2 ^ k
  high_mask =
      rw
        (
          low_mask,
          mul_comm (2 ^ m - 1) (2 ^ k),
          mul-sub (2 ^ k) (2 ^ m) 1,
          mul_comm (2 ^ k) (2 ^ m),
        )
        (omega (arith, whole, pow_pos k))

  -- Rounding down to a power of two.
  pub align_down_lem : v < u64 → align_down v (2 ^ k) ≡ v / 2 ^ k * 2 ^ k
  unfolding align_down
  align_down_lem fits =
      let small : v / 2 ^ k < 2 ^ m = (div-lt_iff_lt-mul (pow_pos k)).1 (rw whole fits) in
      rw (high_mask, bit_and-high m k v, mod-eq_of_lt small)

  -- The alignment test reads the remainder.
  pub is_aligned_lem : is_aligned v (2 ^ k) ≡ (v % 2 ^ k == 0)
  unfolding is_aligned
  is_aligned_lem = rw (low_mask, bit_and-low k v)

module _ (k m v : ℕ) (bits : m + k ≡ 64) (fits : v + 2 ^ k ≤ u64) where
  rounded : align_up v (2 ^ k) ≡ (v + 2 ^ k - 1) / 2 ^ k * 2 ^ k
  unfolding align_up align_down
  rounded =
      let p = 2 ^ k in
      let e : sub64 (add64 v p) 1 ≡ v + p - 1 = omega (arith, pow_pos k) in
      rw e (align_down_lem k m (v + p - 1) bits (omega (arith, pow_pos k)))

  -- `align_up` to a power of two gives the least multiple that is not below the value, where value
  -- and power together do not pass 2 ^ 64.
  pub align_up_bounds :
      (v ≤ align_up v (2 ^ k)) × (align_up v (2 ^ k) < v + 2 ^ k) × (align_up v (2 ^ k) % 2 ^ k ≡ 0)
  align_up_bounds =
      let p = 2 ^ k in
      let x = v + p - 1 in
      let parts = div-add-mod' x p in
      let rest = mod-lt x (pow_pos k) in
      (
        rw rounded (omega (arith, parts, rest, pow_pos k)),
        rw rounded (omega (arith, parts, pow_pos k)),
        rw rounded (mul-mod_left (x / p) p),
      )
