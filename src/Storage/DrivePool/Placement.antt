-- ===== src/Storage/DrivePool/Placement.antt =====
-- Where the stripes of drive_pool.cpp put a byte.
use native.Mathlib.Nat.{
  div-add-mod', mod-lt, mod-eq_of_lt, mod-le, zero-div, zero-mod, div-eq_of_lt, mul-div_cancel,
  mul-mod_left,
}
use goblin_store.Prelude.{
  ℕ, ◌+◌, ◌-◌, ◌*◌, ◌/◌, ◌%◌, ◌≤◌, ◌<◌, ◌≡◌, arith, dec_le, sym, ap, ap₂, ◌∙◌, refl,
}
use goblin_store.Prelude.Division.{parts_unique, mod_close, div_unique, mod_unique}
use goblin_store.Common.Types.{add64, u64}
use goblin_store.Storage.DrivePool.{DrivePool, drive_of, file_offset_of}

pub record IsPool (p : DrivePool) : Type 0 where
  pub drives : 0 < p.num_drives
  pub stripe : 0 < p.stripe_unit

-- The key hash and the chunk index of the offset add up below 2 ^ 64.
abbrev pub Fits : DrivePool → ℕ → ℕ → Type 0
Fits p key_hash off = key_hash + off / p.stripe_unit < u64

-- The drive index is in range.
pub drive_of-lt :
    (p : DrivePool) (key_hash off : ℕ) → IsPool p → drive_of p key_hash off < p.num_drives
unfolding drive_of
drive_of-lt p key_hash off v = mod-lt _ v.drives

-- Chunks of one row on one drive are one chunk.
same_chunk :
    (k x y n : ℕ)
    → 0 < n
    → k + x < u64
    → k + y < u64
    → x / n ≡ y / n
    → add64 k x % n ≡ add64 k y % n
    → x ≤ y
    → x ≡ y
same_chunk k x y n pos fx fy row drive le =
    let ex : add64 k x ≡ k + x = mod-eq_of_lt fx in
    let ey : add64 k y ≡ k + y = mod-eq_of_lt fy in
    let close : y < x + n =
      omega (arith, div-add-mod' x n, div-add-mod' y n, mod-lt y pos, ap (λ t. t * n) row) in
    omega (
      arith,
      mod_close (k + x) (k + y) n (omega arith) (omega arith)
          (ap (λ t. t % n) (sym ex) ∙ drive ∙ ap (λ t. t % n) ey),
    )

-- No two bytes of an object share a place: a drive and an offset in its file name one byte, where
-- the sums of the key hash and the chunk indices do not wrap.
pub drive_of-file_offset_of-injective :
    (p : DrivePool) (key_hash a b : ℕ)
    → IsPool p
    → Fits p key_hash a
    → Fits p key_hash b
    → drive_of p key_hash a ≡ drive_of p key_hash b
    → file_offset_of p a ≡ file_offset_of p b
    → a ≡ b
unfolding drive_of file_offset_of
drive_of-file_offset_of-injective p k a b v fa fb drive file =
    let s = p.stripe_unit in
    let n = p.num_drives in
    let parts =
      parts_unique (a / s / n) (b / s / n) (a % s) (b % s) s (mod-lt a v.stripe) (mod-lt b v.stripe)
        file in
    let chunk : a / s ≡ b / s = elim (dec_le (a / s) (b / s)) [
      | yes le ↦ same_chunk k (a / s) (b / s) n v.drives fa fb parts.0 drive le
      | no gt ↦
          sym
            (same_chunk k (b / s) (a / s) n v.drives fb fa (sym parts.0) (sym drive) (omega arith))
    ] in
    sym (div-add-mod' a s) ∙ ap₂ (λ q r. q * s + r) chunk parts.1 ∙ div-add-mod' b s

last_parts : (n : ℕ) → 0 < u64 % n → u64 - 1 ≡ u64 / n * n + (u64 % n - 1)
last_parts n h = omega (arith, div-add-mod' u64 n)

-- Where the sum does wrap, the stripes collide: under the key hash 2 ^ 64 - 1, on a pool whose
-- number of drives does not divide 2 ^ 64, the first chunk and the chunk of index 2 ^ 64 modulo
-- that number are put on the same drive, at the same file offset.
pub drive_of_wraps :
    (p : DrivePool)
    → IsPool p
    → 0 < u64 % p.num_drives
    → let other = u64 % p.num_drives * p.stripe_unit in
      (0 < other)
      × (drive_of p (u64 - 1) 0 ≡ drive_of p (u64 - 1) other)
      × (file_offset_of p 0 ≡ file_offset_of p other)
unfolding drive_of file_offset_of
drive_of_wraps p v h =
    let s = p.stripe_unit in
    let n = p.num_drives in
    let r = u64 % n in
    let below = mod-lt u64 v.drives in
    let chunk : r * s / s ≡ r = mul-div_cancel r v.stripe in
    let intra : r * s % s ≡ 0 = mul-mod_left r s in
    let first : add64 (u64 - 1) (0 / s) ≡ u64 - 1 = rw (zero-div s) refl in
    let other : add64 (u64 - 1) (r * s / s) ≡ r - 1 = rw chunk (omega (arith, mod-le u64 n)) in
    let last : (u64 - 1) % n ≡ r - 1 =
      rw (last_parts n h) (mod_unique (u64 / n) (r - 1) n (omega arith)) in
    (
      grind (arith, v.stripe),
      rw (first, other, last, mod-eq_of_lt {n = r - 1} {m = n} (omega arith)),
      rw (chunk, intra, zero-div s, zero-mod s, zero-div n, div-eq_of_lt below),
    )

module _ (p : DrivePool) (key_hash x j : ℕ) (within : x % p.stripe_unit + j < p.stripe_unit) where
  shifted : x + j ≡ x / p.stripe_unit * p.stripe_unit + (x % p.stripe_unit + j)
  shifted = omega (arith, div-add-mod' x p.stripe_unit)

  chunk_shift : (x + j) / p.stripe_unit ≡ x / p.stripe_unit
  chunk_shift =
      rw shifted (div_unique (x / p.stripe_unit) (x % p.stripe_unit + j) p.stripe_unit within)

  intra_shift : (x + j) % p.stripe_unit ≡ x % p.stripe_unit + j
  intra_shift =
      rw shifted (mod_unique (x / p.stripe_unit) (x % p.stripe_unit + j) p.stripe_unit within)

  -- Inside a chunk, bytes stay on their drive and follow each other in its file.
  pub drive_of_within : drive_of p key_hash (x + j) ≡ drive_of p key_hash x
  unfolding drive_of
  drive_of_within = rw chunk_shift

  pub file_offset_of_within : file_offset_of p (x + j) ≡ file_offset_of p x + j
  unfolding file_offset_of
  file_offset_of_within = rw (chunk_shift, intra_shift) (omega arith)
