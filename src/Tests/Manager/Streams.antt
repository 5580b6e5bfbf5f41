-- ===== src/Tests/Manager/Streams.antt =====
-- Reads and writes of the tier manager (storage/tier_manager.cpp) at concrete states.
use goblin_store.Prelude.{
  zero, suc, ◌++◌, ◌-◌, min, true, false, none, some, [], ◌∷◌, ◌≡◌, refl, arith, ℕ_discrete, inr,
}
use goblin_store.Common.Errors.{value}
use goblin_store.Core.BlockPool.{new_pool}
use goblin_store.Crypto.Digest.{hex, hex_bytes, bucket}
use goblin_store.Storage.Index.{Index, ObjectMeta, is_resident, create, lookup, no_head}
use goblin_store.Storage.Index.View.{create-IsIndex}
use goblin_store.Prelude.Assoc.{find}
use goblin_store.Storage.Index.Operations.{sets, run_op, act, run_op-Acts}
use goblin_store.Storage.Pool.{Volume}
use goblin_store.Storage.S3Fifo.{create as new_policy}
use goblin_store.Storage.S3Fifo.Admission.{create-Inv as new_policy-Inv}
use goblin_store.Storage.TierManager.{TierManager, three_layer}
use goblin_store.Storage.TierManager.Writes.{StoreHandle}
use goblin_store.Storage.TierManager.Reads.{ReadStream, plan, ram_end}
use goblin_store.Storage.TierManager.Reads.Serves.{Serves}
use goblin_store.Storage.TierManager.Snapshots.{open_read, open_stream, with_hdd, open_hdd_files}
use goblin_store.Storage.TierManager.Snapshots.Streams.{open_read-Serves}
use goblin_store.Storage.TierManager.Reading.{open_tier}
use goblin_store.Storage.DrivePool.{files_used, drive_of, plan_reads, plan_loop}
use goblin_store.Common.Types.{add64, align_up}
use goblin_store.Storage.Pool.{
  open_object, open_chunks, open_chunk, openat, grant, open_name, add_fd, chunk_drive,
  FileName-discrete,
}
use goblin_store.Storage.Layout.{compute_layout}
use goblin_store.Core.BlockPool.{Chunk}
use goblin_store.Storage.TierManager.Handles.{write, stage_size, ssd_extent}
use goblin_store.Storage.TierManager.Handles.Contents.{
  IsOpen, HasTail, stored, tier_bytes, hdd_part,
}
use goblin_store.Storage.StripedIo.{striped_read, read_segments}
use goblin_store.Storage.StripedIo.RoundTrip.{OwnFiles}
use goblin_store.Storage.TierManager.Handles.Staging.{Writes, write-Writes}
use goblin_store.Storage.TierManager.Writes.{reserve_head}
use goblin_store.Storage.TierManager.Writes.Evicting.{Evicted}
use goblin_store.Storage.TierManager.Writes.Room.{Settles, reserve_head-Settles}
use goblin_store.Tests.Manager.{first_key, volume, ssd, policy, manager, manager-IsManager}

-- An object whose head was evicted, with a file on each of two drives.
abbrev large : ObjectMeta
large = record { size = 9000; flags = 0; expiry = 0; etag = 3; head = no_head }

large_object : Index
large_object = (run_op (create 0) first_key (sets large)).0

large_found : lookup large_object first_key ≡ some large
unfolding large_object act
large_found =
    ground
      (arith, (run_op-Acts (create 0) (create-IsIndex 0) first_key (sets large)).entries first_key)

abbrev files : Volume
files = record {
  names =
      (record { drive = 0; name = hex first_key }, 5)
      ∷ (record { drive = 1; name = hex first_key }, 6)
      ∷ [];
  next = 7;
  grants = true ∷ true ∷ [];
  answers = [];
  disk = λ fd off. 0;
}

abbrev reader : TierManager
reader = record {
  tiers = record { ram_head = 4096; ssd_prefix = 8192 };
  ram = record { blocks = new_pool 0 4096 1 false; min_alloc = 4096; arenas = none ∷ [] };
  write_pool = new_pool 0 4096 1 false;
  policy = new_policy 4;
  object_policy = policy;
  max_objects = 1;
  ssd = ssd;
  hdd = none;
  index = large_object;
  store_seq = 0;
  etag_seq = 3;
  any_ttl = true;
  pins = [];
  memory = λ a. 0;
  volume = files;
  hdd_volume = volume;
}

abbrev stream : ReadStream
stream = record {
  digest = first_key;
  size = 9000;
  layout = record { size = 9000; ram_head_bytes = 4096; ssd_bytes = 9000; hdd_bytes = 0 };
  ssd = 5 ∷ 6 ∷ [];
  hdd = none;
}

stream_opens : (open_read reader first_key).1 ≡ value stream
unfolding open_read open_stream compute_layout three_layer open_tier open_object open_chunks
    open_chunk openat grant open_name add_fd chunk_drive with_hdd open_hdd_files hex hex_bytes
    ℕ_discrete find files_used bucket drive_of add64 FileName-discrete
stream_opens = rw (large_found, open_read) refl

open_read-Serves_example :
    Serves reader stream large 4000
      (min 4096 (9000 - 4000))
      (plan (open_read reader first_key).0 stream 4000 4096)
open_read-Serves_example =
    open_read-Serves reader first_key large stream 4000 4096
      (record { drives = omega arith; stripe = omega arith }) (λ pool e. ground (arith, e))
      (omega arith) (omega arith) large_found
      (unfold ram_end is_resident in inr (refl, omega arith)) stream_opens

abbrev stage : Chunk
stage = record { start = 0; length = 2 }

-- A write of three bytes into a buffer of two.
abbrev writer : StoreHandle
writer = record {
  digest = first_key;
  layout = record { size = 9000; ram_head_bytes = 4096; ssd_bytes = 9000; hdd_bytes = 0 };
  ssd = 5 ∷ 6 ∷ [];
  hdd = none;
  head = none;
  suffix = [];
  stage = some stage;
  staged = [];
  flushed = 0;
  off = 0;
  committed = false;
}

-- Its writes succeed.
abbrev written_to : TierManager
written_to = record reader { volume = record files { answers = 9 ∷ 9 ∷ 9 ∷ [] } }

own_files : OwnFiles ssd.drives (5 ∷ 6 ∷ [])
unfolding OwnFiles
own_files zero zero h k e = refl
own_files zero (suc zero) h k e = absurd (omega (arith, e))
own_files (suc zero) zero h k e = absurd (omega (arith, e))
own_files (suc zero) (suc zero) h k e = refl
own_files zero (suc (suc j)) h k e = absurd (omega (arith, k))
own_files (suc zero) (suc (suc j)) h k e = absurd (omega (arith, k))
own_files (suc (suc i)) j h k e = absurd (omega (arith, h))

writer-IsOpen : IsOpen written_to writer
unfolding HasTail ssd_extent align_up bucket
writer-IsOpen = record {
  ssd = record {
    pool = record { drives = omega arith; stripe = omega arith };
    own = own_files;
    fits = omega arith;
  };
  tail = omega arith;
  range = omega arith;
}

write-Writes_example :
    Writes writer ([] ++ (1 ∷ 2 ∷ 3 ∷ [])) (write written_to writer (1 ∷ 2 ∷ 3 ∷ []))
write-Writes_example =
    write-Writes written_to writer [] (1 ∷ 2 ∷ 3 ∷ [])
      (record {
        buffer = unfold stage_size in omega arith;
        fits = omega arith;
        off = refl;
        within = omega arith;
        head = λ g e. absurd (cc);
        files = λ d. writer-IsOpen;
        kept = λ d.
            unfold stored tier_bytes hdd_part ssd_extent align_up striped_read read_segments
              plan_reads plan_loop in
            refl;
        count = λ d. refl;
      })
      (omega arith)

reserve_head-Settles_example :
    Evicted manager (reserve_head manager 100).0 × Settles (reserve_head manager 100)
reserve_head-Settles_example =
    reserve_head-Settles manager 100 manager-IsManager.index (unfold manager in new_policy-Inv 4)
      (omega arith)
