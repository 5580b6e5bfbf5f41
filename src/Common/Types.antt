-- ===== src/Common/Types.antt =====
-- src/goblin/common/types.hpp: sizes and the bit helpers. `Size` and `Offset` are `std::uint64_t`,
-- numbers below 2 ^ 64 with the wrap-around written out.
pub mod Alignment
use goblin_store.Prelude.{ℕ, ◌+◌, ◌-◌, ◌*◌, ◌%◌, ◌^◌, bit_and, Bool, not, ◌&&◌, ◌==◌}

abbrev pub u64 : ℕ
u64 = 2 ^ 64

abbrev pub u32 : ℕ
u32 = 2 ^ 32

abbrev pub add64 : ℕ → ℕ → ℕ
add64 a b = (a + b) % u64

abbrev pub sub64 : ℕ → ℕ → ℕ
sub64 a b = (a + u64 - b) % u64

-- `~x` on 64 bits
abbrev pub complement : ℕ → ℕ
complement x = u64 - 1 - x

abbrev pub kib : ℕ
kib = 1024

abbrev pub mib : ℕ
mib = 1024 * kib

abbrev pub gib : ℕ
gib = 1024 * mib

abbrev pub max_object_size : ℕ
max_object_size = 1 * gib

abbrev pub device_block : ℕ
device_block = 4 * kib

-- `struct ByteRange` with its `Kind`.
pub data RangeKind : Type 0 where
  closed from suffix : RangeKind

pub record ByteRange : Type 0 where
  pub kind : RangeKind
  pub a : ℕ
  pub b : ℕ

-- The second test is read only where `v` is not 0, so `v - 1` does not wrap.
unfoldable pub is_power_of_two : ℕ → Bool
is_power_of_two v = not (v == 0) && (bit_and v (v - 1) == 0)

unfoldable pub align_up : ℕ → ℕ → ℕ
align_up v a = bit_and (sub64 (add64 v a) 1) (complement (sub64 a 1))

unfoldable pub align_down : ℕ → ℕ → ℕ
align_down v a = bit_and v (complement (sub64 a 1))

unfoldable pub is_aligned : ℕ → ℕ → Bool
is_aligned v a = bit_and v (sub64 a 1) == 0
