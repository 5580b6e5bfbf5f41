-- ===== src/Storage/DrivePool/Plan.antt =====
-- What the read plan of drive_pool.cpp fetches, byte for byte.
use native.Mathlib.Nat.{mod-lt, mod-eq_of_lt}
use goblin_store.Prelude.{
  ℕ, zero, suc, ◌+◌, ◌-◌, ◌%◌, ◌≤◌, ◌<◌, min, ◌==◌, ◌≡◌, refl, arith, ap, ◌∙◌, sym, List, [], ◌∷◌,
  ◌++◌, false,
}
use goblin_store.Common.Types.{add64, u64}
use goblin_store.Storage.DrivePool.{
  DrivePool, ReadSegment, drive_of, file_offset_of, plan_loop, plan_reads,
}
use goblin_store.Storage.DrivePool.Placement.{IsPool, drive_of_within, file_offset_of_within}

-- The places of `n` bytes that follow each other in one file.
abbrev pub run_places : ℕ → ℕ → ℕ → List (ℕ × ℕ)
run_places drive fo zero = []
run_places drive fo (suc n) = (drive, fo) ∷ run_places drive (fo + 1) n

-- The places that a list of segments reads, in order.
abbrev pub segment_places : List ReadSegment → List (ℕ × ℕ)
segment_places [] = []
segment_places (s ∷ ss) = run_places s.drive s.file_offset s.length ++ segment_places ss

-- The places of the `n` bytes from `cur` on, by the striping rule.
unfoldable pub byte_places : DrivePool → ℕ → ℕ → ℕ → List (ℕ × ℕ)
byte_places p k cur zero = []
byte_places p k cur (suc n) = (drive_of p k cur, file_offset_of p cur) ∷ byte_places p k (cur + 1) n

pub byte_places-append :
    (p : DrivePool) (k a b cur : ℕ)
    → byte_places p k cur (a + b) ≡ byte_places p k cur a ++ byte_places p k (cur + a) b
unfolding byte_places
byte_places-append p k zero b cur =
    let e : 0 + b ≡ b = omega arith in let f : cur + 0 ≡ cur = omega arith in rw (e, f)
byte_places-append p k (suc a) b cur =
    let e : suc a + b ≡ suc (a + b) = omega arith in
    let f : cur + suc a ≡ cur + 1 + a = omega arith in
    rw (e, f)
      (ap (◌∷◌ (drive_of p k cur, file_offset_of p cur)) (byte_places-append p k a b (cur + 1)))

run_within :
    (p : DrivePool) (k cur j n : ℕ)
    → cur % p.stripe_unit + (j + n) ≤ p.stripe_unit
    → run_places (drive_of p k cur) (file_offset_of p cur + j) n ≡ byte_places p k (cur + j) n
unfolding byte_places
run_within p k cur j zero h = refl
run_within p k cur j (suc n) h =
    let e : cur + j + 1 ≡ cur + (j + 1) = omega arith in
    let f : file_offset_of p cur + j + 1 ≡ file_offset_of p cur + (j + 1) = omega arith in
    rw
      (drive_of_within p k cur j (omega arith), file_offset_of_within p k cur j (omega arith), e, f)
      (ap (◌∷◌ (drive_of p k cur, file_offset_of p cur + j))
        (run_within p k cur (j + 1) n (omega arith)))

run_first :
    (p : DrivePool) (k cur n : ℕ)
    → cur % p.stripe_unit + n ≤ p.stripe_unit
    → run_places (drive_of p k cur) (file_offset_of p cur) n ≡ byte_places p k cur n
run_first p k cur n h =
    let e : cur + 0 ≡ cur = omega arith in
    let f : file_offset_of p cur + 0 ≡ file_offset_of p cur = omega arith in
    ap (λ t. run_places (drive_of p k cur) t n) (sym f)
    ∙ run_within p k cur 0 n (omega arith)
    ∙ ap (λ t. byte_places p k t n) e

byte_places-zero : (p : DrivePool) (k cur : ℕ) → byte_places p k cur 0 ≡ []
unfolding byte_places
byte_places-zero p k cur = refl

plan_loop-places :
    (fuel : ℕ) (p : DrivePool) (k cur remaining : ℕ)
    → IsPool p
    → remaining ≤ fuel
    → cur + remaining < u64
    → segment_places (plan_loop fuel p k cur remaining) ≡ byte_places p k cur remaining
unfolding plan_loop
plan_loop-places zero p k cur zero v h fits = sym (byte_places-zero p k cur)
plan_loop-places zero p k cur (suc r) v h fits = absurd (omega arith)
plan_loop-places (suc fuel) p k cur zero v h fits = sym (byte_places-zero p k cur)
plan_loop-places (suc fuel) p k cur (suc r) v h fits =
    let n = min (suc r) (p.stripe_unit - cur % p.stripe_unit) in
    let inside = mod-lt cur v.stripe in
    let more : (suc r == 0) ≡ false = ground arith in
    let next : add64 cur n ≡ cur + n = mod-eq_of_lt (omega arith) in
    let split : n + (suc r - n) ≡ suc r = omega arith in
    rw (more, next, run_first p k cur n (omega arith))
      (ap (◌++◌ (byte_places p k cur n))
          (plan_loop-places fuel p k (cur + n) (suc r - n) v (omega arith) (omega arith))
        ∙ sym (byte_places-append p k n (suc r - n) cur)
        ∙ ap (byte_places p k cur) split)

-- The segments of `plan_reads` name the places of the bytes of the range, each once and in order, on
-- a pool with drives and a stripe, where the range ends below 2 ^ 64.
pub plan_reads-places :
    (p : DrivePool) (key_hash off len : ℕ)
    → IsPool p
    → off + len < u64
    → segment_places (plan_reads p key_hash off len) ≡ byte_places p key_hash off len
unfolding plan_reads
plan_reads-places p k off len v fits = plan_loop-places len p k off len v (omega arith) fits
