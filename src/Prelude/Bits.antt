-- ===== src/Prelude/Bits.antt =====
-- Laws of the bit operations at variables: the masks and single bits that the source uses.
use Prim.Native.Nat.{
  ℕ, zero, suc, ◌+◌, ◌-◌, ◌*◌, ◌/◌, ◌%◌, ◌^◌, ◌≤◌, ◌<◌, min, differ, bit_and, bit_xor, digits,
  bit_and-bitwise, bit_xor-bitwise,
}
use mathlib.Core.Path.{◌≡◌, refl, sym, ap, ◌∙◌}
use mathlib.Core.Logic.{◌≢◌}
use native.Mathlib.Nat.{
  div-div-eq-div-mul, pow-suc, pow-succ', mul_assoc, mul-add-mod_self_right, mod-eq_of_lt,
  div-add-mod', mod-lt, div-one, div-eq_of_lt,
}
use native.Mathlib.Omega.{arith}
use native.Mathlib.Decide.{ℕ_discrete, dec_lt}
use goblin_store.Prelude.Tests.{◌==◌, if◌then◌else◌}

-- The native operations stand for a recursion on binary digits, with a count of rounds. Rounds that
-- find the first number at 0 change nothing.
module _ (rest : ℕ → ℕ) (digit : ℕ → ℕ → ℕ) where
  no_digit : (rounds y : ℕ) → digits rest digit rounds 0 y ≡ rest y
  no_digit zero y = refl
  no_digit (suc rounds) y = refl

  enough_rounds :
      (x y few many : ℕ)
      → (x ≤ few) × (x ≤ many)
      → digits rest digit few x y ≡ digits rest digit many x y
  enough_rounds zero y few many covers = no_digit few y ∙ sym (no_digit many y)
  enough_rounds (suc x) y zero many (covers, also) = absurd (omega arith)
  enough_rounds (suc x) y (suc few) zero (covers, also) = absurd (omega arith)
  enough_rounds (suc x) y (suc few) (suc many) (covers, also) =
      let half = suc x / 2 in
      ap (λ higher. higher * 2 + digit (suc x % 2) (y % 2))
        (enough_rounds half (y / 2) few many (omega arith, omega arith))

zero-bit_and : (y : ℕ) → bit_and 0 y ≡ 0
zero-bit_and y = bit_and-bitwise 0 y

zero-bit_xor : (y : ℕ) → bit_xor 0 y ≡ y
zero-bit_xor y = bit_xor-bitwise 0 y

-- Both operations, one digit at a time.
bit_and_step : (x y : ℕ) → bit_and x y ≡ bit_and (x / 2) (y / 2) * 2 + min (x % 2) (y % 2)
bit_and_step zero y = let high = zero-bit_and (y / 2) in omega (arith, high, zero-bit_and y)
bit_and_step (suc x) y =
    let half = suc x / 2 in
    let higher = enough_rounds (λ _. 0) min half (y / 2) x half (omega arith, omega arith) in
    omega (arith, higher, bit_and-bitwise half (y / 2), bit_and-bitwise (suc x) y)

bit_xor_step : (x y : ℕ) → bit_xor x y ≡ bit_xor (x / 2) (y / 2) * 2 + differ (x % 2) (y % 2)
bit_xor_step zero y = let high = zero-bit_xor (y / 2) in omega (arith, high, zero-bit_xor y)
bit_xor_step (suc x) y =
    let half = suc x / 2 in
    let higher = enough_rounds (λ y. y) differ half (y / 2) x half (omega arith, omega arith) in
    omega (arith, higher, bit_xor-bitwise half (y / 2), bit_xor-bitwise (suc x) y)

pub pow_pos : (k : ℕ) → 0 < 2 ^ k
pow_pos zero = omega arith
pow_pos (suc k) = omega (arith, pow_pos k, pow-suc 2 k)

div_twice : (a p : ℕ) → a / 2 / p ≡ a / (2 * p)
div_twice a p = div-div-eq-div-mul a 2 p

pub mul-pow_suc : (c k : ℕ) → c * 2 ^ suc k ≡ c * 2 ^ k * 2
mul-pow_suc c k = rw (pow-suc 2 k) (sym (mul_assoc c (2 ^ k) 2))

-- Splitting off the lowest digit of a remainder.
mod_twice : (a p : ℕ) → 0 < p → a % (p * 2) ≡ a / 2 % p * 2 + a % 2
mod_twice a p h =
    let r = a / 2 % p * 2 + a % 2 in
    let small : r < p * 2 = omega (arith, mod-lt (a / 2) h) in
    let whole : a ≡ a / 2 / p * (p * 2) + r = omega (arith, div-add-mod' (a / 2) p) in
    ap (λ t. t % (p * 2)) whole ∙ mul-add-mod_self_right (a / 2 / p) (p * 2) r ∙ mod-eq_of_lt small

-- With `x` rounds or more.
bit_and-zero : (rounds x : ℕ) → x ≤ rounds → bit_and x 0 ≡ 0
bit_and-zero rounds zero covers = zero-bit_and 0
bit_and-zero zero (suc x) covers = absurd (omega arith)
bit_and-zero (suc rounds) (suc x) covers =
    let higher = bit_and-zero rounds (suc x / 2) (omega arith) in
    omega (arith, higher, bit_and_step (suc x) 0)

bit_and_self : (n a : ℕ) → a ≤ n → bit_and a a ≡ a
bit_and_self n zero h = zero-bit_and 0
bit_and_self zero (suc a) h = absurd (omega arith)
bit_and_self (suc n) (suc a) h =
    omega (arith, bit_and_step (suc a) (suc a), bit_and_self n (suc a / 2) (omega arith))

differ-zero : (x : ℕ) → differ x 0 ≡ x
differ-zero zero = refl
differ-zero (suc x) = refl

differ-one : (x : ℕ) → x < 2 → differ x 1 ≡ 1 - x
differ-one zero h = refl
differ-one (suc zero) h = refl
differ-one (suc (suc x)) h = absurd (omega arith)

bit_xor-zero : (n a : ℕ) → a ≤ n → bit_xor a 0 ≡ a
bit_xor-zero n zero h = zero-bit_xor 0
bit_xor-zero zero (suc a) h = absurd (omega arith)
bit_xor-zero (suc n) (suc a) h = omega (
  arith,
  bit_xor_step (suc a) 0,
  bit_xor-zero n (suc a / 2) (omega arith),
  differ-zero (suc a % 2),
)

-- A mask of `k` ones is the remainder by `2 ^ k`.
pub bit_and-low : (k a : ℕ) → bit_and a (2 ^ k - 1) ≡ a % 2 ^ k
bit_and-low zero a = omega (arith, bit_and-zero a a)
bit_and-low (suc k) a =
    let p = 2 ^ k in
    let e : (2 ^ suc k - 1) / 2 ≡ p - 1 = omega (arith, pow-suc 2 k, pow_pos k) in
    let o : (2 ^ suc k - 1) % 2 ≡ 1 = omega (arith, pow-suc 2 k, pow_pos k) in
    bit_and_step a (2 ^ suc k - 1)
    ∙ rw (e, o, bit_and-low k (a / 2), pow-suc 2 k, mod_twice a p (pow_pos k)) (omega arith)

-- A mask of `m` ones above `k` zeros clears the lowest `k` digits.
pub bit_and-high : (m k a : ℕ) → bit_and a ((2 ^ m - 1) * 2 ^ k) ≡ a / 2 ^ k % 2 ^ m * 2 ^ k
bit_and-high m zero a =
    let e : (2 ^ m - 1) * 2 ^ 0 ≡ 2 ^ m - 1 = omega arith in
    let z : a / 2 ^ 0 ≡ a = div-one a in rw (e, bit_and-low m a, z) (omega arith)
bit_and-high m (suc k) a =
    let mask = (2 ^ m - 1) * 2 ^ suc k in
    let e : mask / 2 ≡ (2 ^ m - 1) * 2 ^ k = omega (arith, mul-pow_suc (2 ^ m - 1) k) in
    let o : mask % 2 ≡ 0 = omega (arith, mul-pow_suc (2 ^ m - 1) k) in
    let d : a / 2 ^ suc k ≡ a / 2 / 2 ^ k = rw (pow-succ' 2 k) (sym (div_twice a (2 ^ k))) in
    bit_and_step a mask
    ∙ rw (e, o, bit_and-high m k (a / 2), d) (omega (arith, mul-pow_suc (a / 2 / 2 ^ k % 2 ^ m) k))

le_of_quotient : (x p : ℕ) → 0 < x / p → p ≤ x
le_of_quotient x p h = elim (dec_lt x p) [
  | yes small ↦ absurd (omega (arith, div-eq_of_lt small))
  | no large ↦ omega arith
]

-- One bit flipped.
pub bit_xor_pow :
    (k a : ℕ) → bit_xor a (2 ^ k) ≡ (if a / 2 ^ k % 2 == 0 then a + 2 ^ k else a - 2 ^ k)
bit_xor_pow zero a = ground (
  arith,
  bit_xor_step a 1,
  bit_xor-zero (a / 2) (a / 2) (omega arith),
  differ-one (a % 2) (omega arith),
)
bit_xor_pow (suc k) a =
    let e : 2 ^ suc k / 2 ≡ 2 ^ k = omega (arith, pow-suc 2 k) in
    let o : 2 ^ suc k % 2 ≡ 0 = omega (arith, pow-suc 2 k) in
    let d : a / 2 ^ suc k ≡ a / 2 / 2 ^ k = rw (pow-succ' 2 k) (sym (div_twice a (2 ^ k))) in
    bit_xor_step a (2 ^ suc k)
    ∙ rw (e, o, d, bit_xor_pow k (a / 2), differ-zero (a % 2))
        (ground (arith, pow-suc 2 k, le_of_quotient (a / 2) (2 ^ k)))

-- `v & (v - 1)` is 0 exactly at the powers of two.
pub pow_of_bit_and : (n v : ℕ) → v ≤ n → 0 < v → bit_and v (v - 1) ≡ 0 → (k : ℕ) × (v ≡ 2 ^ k)
pow_of_bit_and zero v h p e = absurd (omega arith)
pow_of_bit_and (suc n) v h p e = elim (ℕ_discrete (v % 2) 1) [
  | yes odd ↦ (0, omega (arith, low_odd odd))
  | no even ↦
      let (k, half) = pow_of_bit_and n (v / 2) (omega arith) (omega arith) (low_even even) in
      (suc k, omega (arith, pow-suc 2 k))
]
  where
    low_odd : v % 2 ≡ 1 → bit_and v (v - 1) ≡ v / 2 * 2
    low_odd o =
        let same : (v - 1) / 2 ≡ v / 2 = omega arith in
        bit_and_step v (v - 1) ∙ rw (same, bit_and_self (v / 2) (v / 2) (omega arith)) (omega arith)

    low_even : v % 2 ≢ 1 → bit_and (v / 2) (v / 2 - 1) ≡ 0
    low_even o =
        let less : (v - 1) / 2 ≡ v / 2 - 1 = omega arith in
        rw (← less) (omega (arith, bit_and_step v (v - 1)))

pub bit_and_of_pow : (k : ℕ) → bit_and (2 ^ k) (2 ^ k - 1) ≡ 0
bit_and_of_pow zero = refl
bit_and_of_pow (suc k) =
    let e : 2 ^ suc k / 2 ≡ 2 ^ k = omega (arith, pow-suc 2 k) in
    let o : (2 ^ suc k - 1) / 2 ≡ 2 ^ k - 1 = omega (arith, pow-suc 2 k, pow_pos k) in
    bit_and_step (2 ^ suc k) (2 ^ suc k - 1)
    ∙ rw (e, o, bit_and_of_pow k) (omega (arith, pow-suc 2 k))
