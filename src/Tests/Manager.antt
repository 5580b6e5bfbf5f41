-- ===== src/Tests/Manager.antt =====
-- The tier manager (storage/tier_manager.cpp) at concrete states.
mod Streams
use goblin_store.Prelude.{
  ℕ, ◌+◌, ◌-◌, min, ◌≤◌, ◌<◌, ◌&&◌, ◌==◌, if◌then◌else◌, ite, true, false, Option, none, some, List,
  [], ◌∷◌, ◌≡◌, ◌≢◌, ◌⊎◌, refl, arith, ℕ_discrete, length, Option-cases, inl, inr,
}
use goblin_store.Common.Errors.{Error, error, done, value}
use goblin_store.Core.BlockPool.{new_pool}
use goblin_store.Crypto.Digest.{Digest, Digest-discrete, hex, hex_bytes, bucket}
use goblin_store.Storage.Index.{
  Index, ObjectMeta, HeadLoc, is_resident, create, lookup, no_head, set_meta, size, clear,
}
use goblin_store.Storage.Index.View.{dec, IsIndex, create-IsIndex}
use goblin_store.Storage.Index.Counting.{lookup-clear}
use goblin_store.Storage.S3Fifo.Runs.{run_calls, inserts, step, run_calls-Inv}
use goblin_store.Prelude.Assoc.{find, member, insert}
use goblin_store.Storage.Index.Operations.{sets, run_op, act, run_op-Acts}
use goblin_store.Storage.Pool.{Pool, Volume}
use goblin_store.Storage.S3Fifo.{S3Fifo, create as new_policy, insert_item, contains as tracks}
use goblin_store.Storage.S3Fifo.Admission.{create-Inv as new_policy-Inv}
use goblin_store.Storage.S3Fifo.Invariant.{Inv}
use goblin_store.Storage.S3Fifo.Admission.{insert_item-Inv}
use goblin_store.Storage.S3Fifo.Residents.{contains_after}
use goblin_store.Storage.TierManager.{
  TierManager, HeadPin, region_id, enforce_object_bound, reap_expired, three_layer,
}
use goblin_store.Storage.TierManager.Bound.{IsTracked, Bounded, enforce_object_bound-Bounded}
use goblin_store.Storage.TierManager.Commit.{commit}
use goblin_store.Storage.TierManager.Commit.Cas.{Commits, commit-Commits}
use goblin_store.Storage.TierManager.Commit.Install.{HasRoom}
use goblin_store.Storage.TierManager.Manager.{IsManager}
use goblin_store.Storage.TierManager.Pins.{Use, pins, unpins, frees, run_uses, log, give_back}
use goblin_store.Storage.TierManager.Pins.Protocol.{
  Protocol, count_of, AllWhole, given_after, readers_after, run_uses-releases,
}
use goblin_store.Storage.TierManager.Reaping.{unexpired, IsArmed, reap_expired-unexpired}
use goblin_store.Storage.TierManager.Writes.{StoreHandle}
use goblin_store.Storage.TierManager.Reads.{ReadStream, plan, ram_end}
use goblin_store.Storage.TierManager.Reads.Plans.{Filled}
use goblin_store.Storage.TierManager.Snapshots.{open_read, open_stream, with_hdd, open_hdd_files}
use goblin_store.Storage.TierManager.Reading.{open_tier}
use goblin_store.Storage.DrivePool.{files_used, drive_of}
use goblin_store.Common.Types.{u64, add64}
use goblin_store.Storage.Pool.{
  open_object, open_chunks, open_chunk, openat, grant, open_name, add_fd, chunk_drive,
  FileName-discrete,
}
use goblin_store.Storage.Layout.{compute_layout}

abbrev pub first_key : Digest
first_key = record { bytes = 1 ∷ [] }

abbrev second_key : Digest
second_key = record { bytes = 2 ∷ [] }

abbrev first : ObjectMeta
first = record { size = 9; flags = 0; expiry = 0; etag = 1; head = no_head }

-- It expires at 500.
abbrev second : ObjectMeta
second = record { size = 7; flags = 0; expiry = 500; etag = 2; head = no_head }

one_object : Index
one_object = (run_op (create 0) first_key (sets first)).0

two_objects : Index
two_objects = (run_op one_object second_key (sets second)).0

abbrev pub volume : Volume
volume = record { names = []; next = 1; grants = []; answers = []; disk = λ fd off. 0 }

abbrev pub ssd : Pool
ssd = record { drives = record { num_drives = 2; stripe_unit = 4096 }; direct_io = false }

pub policy : S3Fifo
policy = run_calls (inserts first_key ∷ inserts second_key ∷ []) (new_policy 4)

pub manager : TierManager
manager = record {
  tiers = record { ram_head = 4096; ssd_prefix = 8192 };
  ram = record { blocks = new_pool 0 4096 1 false; min_alloc = 4096; arenas = none ∷ [] };
  write_pool = new_pool 0 4096 1 false;
  policy = new_policy 4;
  object_policy = policy;
  max_objects = 1;
  ssd = ssd;
  hdd = none;
  index = two_objects;
  store_seq = 0;
  etag_seq = 2;
  any_ttl = true;
  pins = [];
  memory = λ a. 0;
  volume = volume;
  hdd_volume = volume;
}

one_object-IsIndex : IsIndex one_object
unfolding one_object
one_object-IsIndex = (run_op-Acts (create 0) (create-IsIndex 0) first_key (sets first)).inv

two_objects-IsIndex : IsIndex two_objects
unfolding two_objects
two_objects-IsIndex = (run_op-Acts one_object one_object-IsIndex second_key (sets second)).inv

nothing_yet : (d : Digest) → lookup (create 0) d ≡ none
unfolding clear create
nothing_yet d = (lookup-clear (create 0) d).0

two_entries :
    (d : Digest)
    → lookup two_objects d
      ≡ ite (dec second_key d) (some second) (ite (dec first_key d) (some first) none)
unfolding two_objects one_object act
two_entries d = ground (
  arith,
  (run_op-Acts one_object one_object-IsIndex second_key (sets second)).entries d,
  (run_op-Acts (create 0) (create-IsIndex 0) first_key (sets first)).entries d,
  nothing_yet d,
)

policy-Inv : Inv policy
unfolding policy new_policy
policy-Inv =
    run_calls-Inv (inserts first_key ∷ inserts second_key ∷ []) (new_policy 4) (new_policy-Inv 4)
      (omega arith)

policy_tracks :
    (d : Digest) → tracks policy d ≡ ite (dec second_key d) true (ite (dec first_key d) true false)
unfolding policy run_calls step new_policy
policy_tracks d =
    let one = contains_after (new_policy 4) first_key d (new_policy-Inv 4) in
    let one-Inv = insert_item-Inv (new_policy 4) first_key (new_policy-Inv 4) (omega arith) in
    let two = contains_after (insert_item (new_policy 4) first_key) second_key d one-Inv in
    let start : tracks (new_policy 4) d ≡ false = unfold new_policy tracks find in refl in
    ground (arith, one, two, start)

manager-IsTracked : IsTracked manager
unfolding IsTracked manager
manager-IsTracked d h = ground (arith, two_entries d, policy_tracks d)

manager-IsArmed : IsArmed manager
unfolding IsArmed manager
manager-IsArmed d m here late = refl

pub manager-IsManager : IsManager manager
unfolding manager
manager-IsManager = record {
  index = two_objects-IsIndex;
  policy = policy-Inv;
  tracked = manager-IsTracked;
  etags = λ d m here. ground (arith, two_entries d);
  armed = manager-IsArmed;
}

enforce_object_bound-Bounded_example : Bounded manager (enforce_object_bound manager)
enforce_object_bound-Bounded_example =
    enforce_object_bound-Bounded manager manager-IsManager.index manager-IsManager.policy
      manager-IsManager.tracked

reap_expired-unexpired_example :
    ((j : Digest)
      → lookup (reap_expired manager 600).0.index j ≡ unexpired 600 (lookup manager.index j))
    × (size (reap_expired manager 600).0.index + (reap_expired manager 600).1 ≡ size manager.index)
reap_expired-unexpired_example =
    reap_expired-unexpired manager 600 manager-IsManager.index manager-IsManager.armed

-- An overwrite of the first object, whose version is expected.
handle : StoreHandle
handle = record {
  digest = first_key;
  layout = record { size = 3; ram_head_bytes = 3; ssd_bytes = 0; hdd_bytes = 0 };
  ssd = [];
  hdd = none;
  head = some (record { block = 0; offset = 0; len = 3; address = 0 });
  suffix = [];
  stage = none;
  staged = [];
  flushed = 0;
  off = 3;
  committed = false;
}

manager-HasRoom : HasRoom manager
unfolding manager policy run_calls insert_item find new_policy member insert Digest-discrete
    ℕ_discrete
manager-HasRoom = (omega arith, omega arith)

commit-Commits_example : Commits manager handle 5 0 1 100 (commit manager handle 5 0 1 100)
commit-Commits_example = commit-Commits manager handle 5 0 1 100 manager-IsManager manager-HasRoom

-- A reader has the head while the owner gives it back.
abbrev head_loc : HeadLoc
head_loc = record { block = 0; offset = 4096; len = 100 }

abbrev head_pin : HeadPin
head_pin = record { block = 0; offset = 4096; len = 100 }

abbrev reading : List Use
reading = pins head_loc ∷ frees head_pin ∷ unpins head_pin ∷ []

reading-Protocol : Protocol head_pin reading 0 false
unfolding region_id
reading-Protocol = (λ _. (refl, omega arith), (λ _. (refl, refl), (λ _. (omega arith, refl), tt)))

run_uses-releases_example :
    ((run_uses reading manager).ram ≡ give_back (log reading manager) manager.ram)
    × (count_of head_pin (log reading manager) ≡ (
        if given_after head_pin reading false && readers_after head_pin reading 0 == 0
        then 1
        else 0))
    × AllWhole head_pin (log reading manager)
run_uses-releases_example =
    run_uses-releases head_pin reading manager (unfold manager in refl) reading-Protocol
