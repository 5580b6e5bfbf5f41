-- ===== src/Storage/DrivePool.antt =====
-- src/goblin/storage/drive_pool.hpp and drive_pool.cpp: RAID-0 striping of the bytes of one tier of
-- an object over the drives of a pool. Sums and products wrap on 64 bits; `row * s_ + off % s_` is at
-- most `off` and does not.
pub mod Placement
pub mod Plan
use goblin_store.Prelude.{
  ℕ, zero, suc, ◌+◌, ◌-◌, ◌*◌, ◌/◌, ◌%◌, min, Bool, if◌then◌else◌, ltb, ◌==◌, List, [], ◌∷◌,
}
use goblin_store.Common.Types.{u64, add64, sub64}

pub record ReadSegment : Type 0 where
  pub drive : ℕ
  pub file_offset : ℕ
  pub length : ℕ

pub record DrivePool : Type 0 where
  pub num_drives : ℕ
  pub stripe_unit : ℕ

unfoldable pub row_bytes : DrivePool → ℕ
row_bytes p = p.stripe_unit * p.num_drives % u64

unfoldable pub drive_of : DrivePool → ℕ → ℕ → ℕ
drive_of p key_hash off = let c = off / p.stripe_unit in add64 key_hash c % p.num_drives

unfoldable pub file_offset_of : DrivePool → ℕ → ℕ
file_offset_of p off =
    let c = off / p.stripe_unit in
    let row = c / p.num_drives in row * p.stripe_unit + off % p.stripe_unit

unfoldable pub files_used : DrivePool → ℕ → ℕ
files_used p tier_bytes =
    if tier_bytes == 0
    then 0
    else let chunks = sub64 (add64 tier_bytes p.stripe_unit) 1 / p.stripe_unit in
      if ltb chunks p.num_drives then chunks else p.num_drives

-- The loop of `plan_reads`. Each round takes a byte at least, so `remaining` rounds are enough.
unfoldable pub plan_loop : ℕ → DrivePool → ℕ → ℕ → ℕ → List ReadSegment
plan_loop zero p key_hash cur remaining = []
plan_loop (suc fuel) p key_hash cur remaining =
    let intra = cur % p.stripe_unit in
    let seg_len = min remaining (p.stripe_unit - intra) in
    let seg : ReadSegment = record {
      drive = drive_of p key_hash cur;
      file_offset = file_offset_of p cur;
      length = seg_len;
    } in
    let rest = plan_loop fuel p key_hash (add64 cur seg_len) (remaining - seg_len) in
    if remaining == 0 then [] else seg ∷ rest

unfoldable pub plan_reads : DrivePool → ℕ → ℕ → ℕ → List ReadSegment
unfolding plan_loop
plan_reads p key_hash off len = plan_loop len p key_hash off len
