-- ===== src/Storage/S3Fifo/Invariant.antt =====
-- The invariant of the S3-FIFO policy (s3fifo.cpp), kept by every operation.
use goblin_store.Prelude.{◌≤◌, ◌<◌, true, false, none, length, ◌≡◌}
use goblin_store.Prelude.Assoc.{member, find, IsMap, IsDistinct}
use goblin_store.Common.Types.{u64}
use goblin_store.Crypto.Digest.{Digest}
use goblin_store.Storage.S3Fifo.{Q, small, main, S3Fifo, resident_in}
use goblin_store.Storage.S3Fifo.View.{dec, Meta, count_in}

pub record Inv (s : S3Fifo) : Type 0 where
  pub map : IsMap dec s.meta
  pub set : IsDistinct dec s.ghost_set
  -- The counters count.
  pub small_count : s.small_n ≡ count_in small s.meta
  pub main_count : s.main_n ≡ count_in main s.meta
  pub fits : length s.meta < u64
  -- A resident digest stands in its queue.
  pub small_queued :
      (d : Digest) → resident_in s.meta small d ≡ true → member dec d s.small_q ≡ true
  pub main_queued : (d : Digest) → resident_in s.meta main d ≡ true → member dec d s.main_q ≡ true
  -- A ghost is not resident, and the ghosts are bounded.
  pub apart : (d : Digest) → member dec d s.ghost_set ≡ true → find dec d s.meta ≡ none
  pub ghosts : (d : Digest) → member dec d s.ghost_set ≡ true → member dec d s.ghost ≡ true
  pub bounded : length s.ghost ≤ s.cap

pub resident_in-none :
    (m : Meta) (which : Q) (d : Digest) → find dec d m ≡ none → resident_in m which d ≡ false
unfolding resident_in
resident_in-none m which d h = rw (h, resident_in)
