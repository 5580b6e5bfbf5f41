-- ===== src/Storage/StripedIo.antt =====
-- src/goblin/storage/striped_io.cpp: scatter and gather over a pool. A disk is a function from an
-- open file and an offset to a byte. What each `pwrite` call returns is chosen by the environment:
-- a list of answers, 0 for a return value that is not positive; a call that finds none fails.
-- A file offset is at most the offset in the tier, so it does not wrap.
pub mod Places
pub mod Progress
pub mod RoundTrip
pub mod Appending
use goblin_store.Prelude.{
  ℕ, zero, suc, ◌+◌, min, Bool, ◌&&◌, ◌==◌, if◌then◌else◌, List, [], ◌∷◌, ◌++◌, length, get_or,
  take, drop,
}
use goblin_store.Common.Errors.{Status, value, error, done, err, io_error}
use goblin_store.Storage.DrivePool.{DrivePool, ReadSegment, plan_reads}

abbrev pub Disk : Type 0
Disk = ℕ → ℕ → ℕ

unfoldable pub poke : Disk → ℕ → ℕ → ℕ → Disk
poke disk fd off byte f o = if f == fd && o == off then byte else disk f o

unfoldable pub store_bytes : Disk → ℕ → ℕ → List ℕ → Disk
store_bytes disk fd off [] = disk
store_bytes disk fd off (b ∷ bs) = store_bytes (poke disk fd off b) fd (off + 1) bs

pub record Written : Type 0 where
  pub disk : Disk
  pub answers : List ℕ
  pub status : Status

-- The inner loop: write what is left, as far as each call gets.
unfoldable pub pwrite_loop : List ℕ → Disk → ℕ → List ℕ → ℕ → Written
pwrite_loop [] disk fd [] fo = record { disk = disk; answers = []; status = done }
pwrite_loop [] disk fd (b ∷ bs) fo = record {
  disk = disk;
  answers = [];
  status = err io_error "pwrite failed";
}
pwrite_loop (w ∷ ws) disk fd [] fo = record { disk = disk; answers = w ∷ ws; status = done }
pwrite_loop (w ∷ ws) disk fd (b ∷ bs) fo =
    let src = b ∷ bs in
    let rest =
      pwrite_loop ws (store_bytes disk fd fo (take w src)) fd (drop w src)
        (fo + min w (length src)) in
    if w == 0
    then record { disk = disk; answers = ws; status = err io_error "pwrite failed" }
    else rest

unfoldable pub write_segments : List ℕ → Disk → List ℕ → List ReadSegment → List ℕ → Written
write_segments answers disk fds [] bytes = record { disk = disk; answers = answers; status = done }
write_segments answers disk fds (s ∷ ss) bytes =
    let r = pwrite_loop answers disk (get_or fds s.drive 0) (take s.length bytes) s.file_offset in
    elim (r.status) [
      | value _ ↦ write_segments r.answers r.disk fds ss (drop s.length bytes)
      | error _ ↦ r
    ]

unfoldable pub striped_pwrite : List ℕ → DrivePool → ℕ → Disk → List ℕ → ℕ → List ℕ → Written
striped_pwrite answers pool key_hash disk fds offset bytes =
    write_segments answers disk fds (plan_reads pool key_hash offset (length bytes)) bytes

-- The bytes that one read brings.
unfoldable pub read_bytes : Disk → ℕ → ℕ → ℕ → List ℕ
read_bytes disk fd off zero = []
read_bytes disk fd off (suc n) = disk fd off ∷ read_bytes disk fd (off + 1) n

unfoldable pub read_segments : Disk → List ℕ → List ReadSegment → List ℕ
read_segments disk fds [] = []
read_segments disk fds (s ∷ ss) =
    read_bytes disk (get_or fds s.drive 0) s.file_offset s.length ++ read_segments disk fds ss

-- One read per segment, each into its slice of the buffer: what the buffer holds when every read
-- has delivered its length.
unfoldable pub striped_read : DrivePool → ℕ → Disk → List ℕ → ℕ → ℕ → List ℕ
striped_read pool key_hash disk fds offset len =
    read_segments disk fds (plan_reads pool key_hash offset len)
