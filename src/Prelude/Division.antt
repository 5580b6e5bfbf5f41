-- ===== src/Prelude/Division.antt =====
-- Quotients and remainders by a variable.
use Prim.Native.Nat.{ℕ, ◌+◌, ◌*◌, ◌/◌, ◌%◌, ◌≤◌, ◌<◌}
use mathlib.Core.Path.{◌≡◌, sym, ap, ◌∙◌}
use native.Mathlib.Decide.{dec_lt}
use native.Mathlib.Omega.{arith}
use native.Mathlib.Nat.{
  div-add-mod', mod-eq_of_lt, mul-add-div_right, mul-add-mod_self_right, div-eq_of_lt,
  mul-le-mul_right, le-div_iff_mul-le, div-mul-le_self,
}

-- A quotient and a remainder are determined by the number.
pub div_unique : (q r s : ℕ) → r < s → (q * s + r) / s ≡ q
div_unique q r s h =
    let pos : 0 < s = omega arith in omega (arith, mul-add-div_right pos q r, div-eq_of_lt h)

pub mod_unique : (q r s : ℕ) → r < s → (q * s + r) % s ≡ r
mod_unique q r s h = mul-add-mod_self_right q s r ∙ mod-eq_of_lt h

pub parts_unique :
    (q q' r r' s : ℕ) → r < s → r' < s → q * s + r ≡ q' * s + r' → (q ≡ q') × (r ≡ r')
parts_unique q q' r r' s h h' e = (
  sym (div_unique q r s h) ∙ ap (λ t. t / s) e ∙ div_unique q' r' s h',
  sym (mod_unique q r s h) ∙ ap (λ t. t % s) e ∙ mod_unique q' r' s h',
)

-- Congruent numbers less than the modulus apart are equal.
pub mod_close : (x y n : ℕ) → x ≤ y → y < x + n → x % n ≡ y % n → x ≡ y
mod_close x y n le near e = elim (dec_lt (x / n) (y / n)) [
  | yes less ↦ absurd (
      omega (
        arith,
        div-add-mod' x n,
        div-add-mod' y n,
        mul-le-mul_right {m = x / n + 1} {n = y / n} n (omega arith),
      ))
  | no same ↦ omega (
    arith,
    div-add-mod' x n,
    div-add-mod' y n,
    mul-le-mul_right {m = y / n} {n = x / n} n (omega arith),
  )
]

pub div_mono : (a b s : ℕ) → 0 < s → a ≤ b → a / s ≤ b / s
div_mono a b s pos le = (le-div_iff_mul-le pos).1 (omega (arith, div-mul-le_self a s))
