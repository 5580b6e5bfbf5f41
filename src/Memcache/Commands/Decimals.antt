-- ===== src/Memcache/Commands/Decimals.antt =====
-- Decimal numerals, read (protocol/memcache/protocol.cpp, `std::from_chars`) and printed (`std::format`).
use goblin_store.Prelude.{
  ℕ, zero, suc, ◌+◌, ◌-◌, ◌*◌, ◌/◌, ◌%◌, ◌≤◌, ◌<◌, false, ◌&&◌, leb, ltb, some, [], ◌∷◌, ◌++◌, ◌≡◌,
  refl, arith, Bool-cases, Option-cases, inl, inr,
}
use goblin_store.Prelude.Bytes.{Bytes, decimal, below, to_unsigned}
use goblin_store.Common.Config.{is_empty}
use goblin_store.Memcache.Commands.{decimal_digits, print_decimal}

-- The number that digits write after those of `a`.
unfoldable pub number_of : ℕ → Bytes → ℕ
number_of a [] = a
number_of a (b ∷ bs) = number_of (10 * a + (b - 48)) bs

unfoldable pub Digits : Bytes → Type 0
Digits [] = Unit
Digits (b ∷ bs) = (48 ≤ b) × (b ≤ 57) × Digits bs

-- A numeral is digits, one at least, which write the number.
pub record IsNumeral (s : Bytes) (n : ℕ) : Type 0 where
  pub filled : is_empty s ≡ false
  pub digits : Digits s
  pub number : number_of 0 s ≡ n

decimal-number_of :
    (a : ℕ) (s : Bytes) (n : ℕ) → decimal a s ≡ some n → Digits s × (number_of a s ≡ n)
unfolding decimal Digits number_of
decimal-number_of a [] n h = (tt, cc)
decimal-number_of a (b ∷ bs) n h = elim (Bool-cases (leb 48 b && leb b 57)) [
  | inr other ↦ let h' = rw other at h in absurd (cc)
  | inl digit ↦
      let (ds, e) = decimal-number_of (10 * a + (b - 48)) bs n (rw digit at h) in
      ((ground (arith, digit), ground (arith, digit), ds), e)
]

pub to_unsigned-IsNumeral :
    (bits : ℕ) (s : Bytes) (n : ℕ) → to_unsigned bits s ≡ some n → IsNumeral s n
unfolding to_unsigned below
to_unsigned-IsNumeral bits [] n h = absurd (cc)
to_unsigned-IsNumeral bits (b ∷ bs) n h = elim (Option-cases (decimal 0 (b ∷ bs))) [
  | inl bad ↦ let h' = rw bad at h in absurd (cc)
  | inr (m, e) ↦
      let same : m ≡ n = (let h' = rw e at h in ground (arith, h')) in
      let (ds, v) = decimal-number_of 0 (b ∷ bs) m e in
      record { filled = refl; digits = ds; number = cc }
]

number_of-append :
    (a : ℕ) (s : Bytes) (b : ℕ) → number_of a (s ++ b ∷ []) ≡ 10 * number_of a s + (b - 48)
unfolding number_of
number_of-append a [] b = refl
number_of-append a (c ∷ s) b = number_of-append (10 * a + (c - 48)) s b

Digits-append : (s : Bytes) (b : ℕ) → Digits s → 48 ≤ b → b ≤ 57 → Digits (s ++ b ∷ [])
unfolding Digits
Digits-append [] b ds lo hi = (lo, hi, tt)
Digits-append (c ∷ s) b ds lo hi = (ds.0, ds.1, Digits-append s b ds.2 lo hi)

filled-append : (s : Bytes) (b : ℕ) → is_empty (s ++ b ∷ []) ≡ false
filled-append [] b = refl
filled-append (c ∷ s) b = refl

decimal_digits-IsNumeral : (fuel n : ℕ) → n < fuel → IsNumeral (decimal_digits fuel n) n
unfolding decimal_digits number_of Digits
decimal_digits-IsNumeral zero n h = absurd (omega arith)
decimal_digits-IsNumeral (suc fuel) n h = elim (Bool-cases (ltb n 10)) [
  | inl small ↦ rw small (record {
    filled = refl;
    digits = (omega arith, ground (arith, small), tt);
    number = omega arith;
  })
  | inr large ↦
      let ten : 10 ≤ n = ground (arith, large) in
      let r = decimal_digits-IsNumeral fuel (n / 10) (omega (arith, ten)) in
      let s = decimal_digits fuel (n / 10) in
      rw large (record {
        filled = filled-append s (48 + n % 10);
        digits = Digits-append s (48 + n % 10) r.digits (omega arith) (omega arith);
        number = omega (arith, number_of-append 0 s (48 + n % 10), r.number);
      })
]

pub print_decimal-IsNumeral : (n : ℕ) → IsNumeral (print_decimal n) n
unfolding print_decimal
print_decimal-IsNumeral n = decimal_digits-IsNumeral (suc n) n (omega arith)
