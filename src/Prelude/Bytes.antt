-- ===== src/Prelude/Bytes.antt =====
-- Strings of the source as lists of bytes: comparison, search, and the parts around a byte.
use Prim.Native.Nat.{ℕ, ◌+◌, ◌*◌, ◌-◌, ◌^◌, ◌<◌}
use mathlib.Core.Path.{◌≡◌, refl}
use mathlib.Core.Bool.{Bool, true, false, ◌&&◌, ◌||◌}
use mathlib.Core.Option.{Option, none, some}
use mathlib.Core.List.{List, [], ◌∷◌}
use native.Mathlib.Omega.{arith}
use goblin_store.Prelude.Tests.{◌==◌, leb, ltb, if◌then◌else◌}

abbrev pub Bytes : Type 0
Bytes = List ℕ

unfoldable pub same : Bytes → Bytes → Bool
same [] [] = true
same [] (b ∷ bs) = false
same (a ∷ xs) [] = false
same (a ∷ xs) (b ∷ bs) = a == b && same xs bs

unfoldable pub has_byte : ℕ → Bytes → Bool
has_byte c [] = false
has_byte c (b ∷ bs) = b == c || has_byte c bs

-- What stands before the first such byte, and from it on: everything and nothing, if there is none.
unfoldable pub before : ℕ → Bytes → Bytes
before c [] = []
before c (b ∷ bs) = let rest = before c bs in if b == c then [] else b ∷ rest

unfoldable pub from_byte : ℕ → Bytes → Bytes
from_byte c [] = []
from_byte c (b ∷ bs) = let rest = from_byte c bs in if b == c then b ∷ bs else rest

unfoldable pub ends_in : ℕ → Bytes → Bool
ends_in c [] = false
ends_in c (b ∷ []) = b == c
ends_in c (b ∷ d ∷ bs) = ends_in c (d ∷ bs)

-- `remove_suffix(1)` while the last byte is such a byte.
unfoldable pub trim_end : (ℕ → Bool) → Bytes → Bytes
trim_end p [] = []
trim_end p (b ∷ bs) = elim (trim_end p bs) [ [] ↦ if p b then [] else b ∷ [] | c ∷ cs ↦ b ∷ c ∷ cs ]

unfoldable pub trim_front : (ℕ → Bool) → Bytes → Bytes
trim_front p [] = []
trim_front p (b ∷ bs) = let rest = trim_front p bs in if p b then rest else b ∷ bs

unfoldable pub starts_with : Bytes → Bytes → Bool
starts_with [] bs = true
starts_with (a ∷ xs) [] = false
starts_with (a ∷ xs) (b ∷ bs) = a == b && starts_with xs bs

-- `std::from_chars` of an unsigned number, base ten, that must take the whole string.
unfoldable pub decimal : ℕ → Bytes → Option ℕ
decimal n [] = some n
decimal n (b ∷ bs) =
    let rest = decimal (10 * n + (b - 48)) bs in if leb 48 b && leb b 57 then rest else none

unfoldable pub below : ℕ → Option ℕ → Option ℕ
below limit none = none
below limit (some n) = if ltb n limit then some n else none

unfoldable pub to_unsigned : ℕ → Bytes → Option ℕ
unfolding decimal below
to_unsigned bits [] = none
to_unsigned bits (b ∷ bs) = below (2 ^ bits) (decimal 0 (b ∷ bs))

below-lt : (limit n : ℕ) (o : Option ℕ) → below limit o ≡ some n → n < limit
unfolding below
below-lt limit n none e = cc
below-lt limit n (some m) e = ground arith

pub to_unsigned-lt : (bits : ℕ) (s : Bytes) (n : ℕ) → to_unsigned bits s ≡ some n → n < 2 ^ bits
unfolding to_unsigned
to_unsigned-lt bits [] n h = cc
to_unsigned-lt bits (b ∷ bs) n h = below-lt (2 ^ bits) n (decimal 0 (b ∷ bs)) h

pub before_absent : (c : ℕ) (s : Bytes) → has_byte c s ≡ false → before c s ≡ s
unfolding before has_byte
before_absent c [] h = refl
before_absent c (b ∷ bs) h = ground (arith, before_absent c bs)

pub from_byte_absent : (c : ℕ) (s : Bytes) → has_byte c s ≡ false → from_byte c s ≡ []
unfolding from_byte has_byte
from_byte_absent c [] h = refl
from_byte_absent c (b ∷ bs) h = ground (arith, from_byte_absent c bs)
