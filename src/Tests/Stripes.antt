-- ===== src/Tests/Stripes.antt =====
-- Layouts, stripes and striped transfers (storage/layout.cpp, drive_pool.cpp, striped_io.cpp) at
-- concrete inputs.
use goblin_store.Prelude.{
  ℕ, zero, suc, ◌+◌, ◌-◌, ◌≤◌, ◌<◌, true, List, [], ◌∷◌, get_or, ◌≡◌, ◌⊎◌, ◌↔◌, refl, arith,
}
use goblin_store.Common.Types.{u64}
use goblin_store.Common.Errors.{done}
use goblin_store.Common.Config.{TierSizes}
use goblin_store.Storage.Layout.{ObjectLayout, compute_layout}
use goblin_store.Storage.Layout.Extents.{compute_layout_extents}
use goblin_store.Storage.DrivePool.{DrivePool, drive_of, file_offset_of, plan_reads}
use goblin_store.Storage.DrivePool.Placement.{IsPool, drive_of_wraps}
use goblin_store.Storage.DrivePool.Plan.{segment_places, byte_places, plan_reads-places}
use goblin_store.Storage.StripedIo.{Disk, striped_pwrite, striped_read}
use goblin_store.Storage.StripedIo.Progress.{striped_pwrite-done}
use goblin_store.Storage.StripedIo.RoundTrip.{OwnFiles, striped_read-striped_pwrite}

abbrev tiers : TierSizes
tiers = record { ram_head = 4; ssd_prefix = 10 }

abbrev large : ObjectLayout
large = compute_layout 25 tiers true

large_test : large ≡ record { size = 25; ram_head_bytes = 4; ssd_bytes = 10; hdd_bytes = 15 }
unfolding compute_layout
large_test = refl

compute_layout_extents_example :
    ((25 ≤ 4) × ((large.ssd_bytes ≡ 0) × (large.hdd_bytes ≡ 0) × (large.ram_head_bytes ≡ 25)))
    ⊎ ((4 < 25)
        × ((large.ssd_bytes + large.hdd_bytes ≡ 25)
            × (large.ram_head_bytes ≡ 4)
            × (4 ≤ large.ssd_bytes)
            × ((0 < large.hdd_bytes) ↔ ((true ≡ true) × (10 < 25)))
            × (0 < large.hdd_bytes → large.ssd_bytes ≡ 10)))
compute_layout_extents_example = compute_layout_extents 25 tiers true (omega arith)

abbrev split : ObjectLayout
split = record { size = 25; ram_head_bytes = 4; ssd_bytes = 10; hdd_bytes = 15 }

abbrev drives : DrivePool
drives = record { num_drives = 3; stripe_unit = 2 }

drives-IsPool : IsPool drives
drives-IsPool = record { drives = omega arith; stripe = omega arith }

plan_test :
    plan_reads drives 7 3 4
    ≡ record { drive = 2; file_offset = 1; length = 1 }
      ∷ record { drive = 0; file_offset = 0; length = 2 }
      ∷ record { drive = 1; file_offset = 2; length = 1 }
      ∷ []
unfolding plan_reads drive_of file_offset_of
plan_test = refl

drive_of_wraps_example :
    (0 < 2)
    × (drive_of drives (u64 - 1) 0 ≡ drive_of drives (u64 - 1) 2)
    × (file_offset_of drives 0 ≡ file_offset_of drives 2)
drive_of_wraps_example = drive_of_wraps drives drives-IsPool (omega arith)

plan_reads-places_example : segment_places (plan_reads drives 7 3 4) ≡ byte_places drives 7 3 4
plan_reads-places_example = plan_reads-places drives 7 3 4 drives-IsPool (omega arith)

abbrev blank : Disk
blank fd off = 0

abbrev files : List ℕ
files = 10 ∷ 11 ∷ 12 ∷ []

abbrev payload : List ℕ
payload = 1 ∷ 2 ∷ 3 ∷ 4 ∷ []

abbrev answers : List ℕ
answers = 1 ∷ 1 ∷ 9 ∷ 9 ∷ []

striped_pwrite-done_example : (striped_pwrite answers drives 7 blank files 3 payload).status ≡ done
striped_pwrite-done_example =
    striped_pwrite-done answers drives 7 blank files 3 payload
      (omega arith, (omega arith, (omega arith, (omega arith, tt)))) (omega arith)

files-OwnFiles : OwnFiles drives files
unfolding OwnFiles
files-OwnFiles i j p q e = own i j p q e
  where
    own : (i j : ℕ) → i < 3 → j < 3 → get_or files i 0 ≡ get_or files j 0 → i ≡ j
    own zero zero p q e = refl
    own zero (suc zero) p q e = absurd (omega arith)
    own zero (suc (suc zero)) p q e = absurd (omega arith)
    own zero (suc (suc (suc j))) p q e = absurd (omega arith)
    own (suc zero) zero p q e = absurd (omega arith)
    own (suc zero) (suc zero) p q e = refl
    own (suc zero) (suc (suc zero)) p q e = absurd (omega arith)
    own (suc zero) (suc (suc (suc j))) p q e = absurd (omega arith)
    own (suc (suc zero)) zero p q e = absurd (omega arith)
    own (suc (suc zero)) (suc zero) p q e = absurd (omega arith)
    own (suc (suc zero)) (suc (suc zero)) p q e = refl
    own (suc (suc zero)) (suc (suc (suc j))) p q e = absurd (omega arith)
    own (suc (suc (suc i))) j p q e = absurd (omega arith)

striped_read-striped_pwrite_example :
    striped_read drives 7 (striped_pwrite answers drives 7 blank files 3 payload).disk files 3 4
    ≡ payload
striped_read-striped_pwrite_example =
    striped_read-striped_pwrite answers drives 7 blank files 3 payload drives-IsPool files-OwnFiles
      (omega arith) (omega arith) striped_pwrite-done_example
