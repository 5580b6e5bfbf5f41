-- ===== src/Storage/StripedIo/Progress.antt =====
-- The scatter of striped_io.cpp ends well where every `pwrite` makes progress.
use goblin_store.Prelude.{
  ℕ, ◌+◌, ◌≤◌, ◌<◌, min, List, [], ◌∷◌, length, get_or, take, drop, ◌≡◌, refl, arith, length-take,
  length-drop, ◌==◌, false,
}
use goblin_store.Common.Errors.{done}
use goblin_store.Storage.DrivePool.{DrivePool, ReadSegment, plan_reads}
use goblin_store.Storage.StripedIo.{
  Disk, Written, store_bytes, pwrite_loop, write_segments, striped_pwrite,
}

-- Every call writes a byte at least.
abbrev pub Progress : List ℕ → Type 0
Progress [] = Unit
Progress (w ∷ ws) = (0 < w) × Progress ws

record Ends (calls bytes : ℕ) (r : Written) : Type 0 where
  done : r.status ≡ done
  left : Progress r.answers
  cost : calls ≤ length r.answers + bytes

pwrite_loop-Ends :
    (ws : List ℕ) (d : Disk) (fd : ℕ) (bs : List ℕ) (fo : ℕ)
    → Progress ws
    → length bs ≤ length ws
    → Ends (length ws) (length bs) (pwrite_loop ws d fd bs fo)
unfolding pwrite_loop
pwrite_loop-Ends [] d fd [] fo p h = record { done = refl; left = tt; cost = omega arith }
pwrite_loop-Ends [] d fd (b ∷ bs) fo p h = absurd (omega arith)
pwrite_loop-Ends (w ∷ ws) d fd [] fo p h = record { done = refl; left = p; cost = omega arith }
pwrite_loop-Ends (w ∷ ws) d fd (b ∷ bs) fo p h =
    let src = b ∷ bs in
    let more : (w == 0) ≡ false = ground arith in
    let ih =
      pwrite_loop-Ends ws (store_bytes d fd fo (take w src)) fd (drop w src)
        (fo + min w (length src)) p.1 (omega (arith, length-drop w src)) in
    rw more (record {
      done = ih.done;
      left = ih.left;
      cost = omega (arith, ih.cost, length-drop w src, p.0);
    })

write_segments-done :
    (ws : List ℕ) (d : Disk) (fds : List ℕ) (ss : List ReadSegment) (bs : List ℕ)
    → Progress ws
    → length bs ≤ length ws
    → (write_segments ws d fds ss bs).status ≡ done
unfolding write_segments
write_segments-done ws d fds [] bs p h = refl
write_segments-done ws d fds (s ∷ ss) bs p h =
    let n = s.length in
    let ih =
      pwrite_loop-Ends ws d (get_or fds s.drive 0) (take n bs) s.file_offset p
        (omega (arith, length-take n bs)) in
    let r = pwrite_loop ws d (get_or fds s.drive 0) (take n bs) s.file_offset in
    rw (ih.done, write_segments)
      (write_segments-done r.answers r.disk fds ss (drop n bs) ih.left
        (omega (arith, ih.cost, length-take n bs, length-drop n bs)))

-- If every `pwrite` call writes a byte at least and there are as many calls as bytes, the scatter
-- succeeds.
pub striped_pwrite-done :
    (answers : List ℕ) (p : DrivePool) (key_hash : ℕ) (disk : Disk) (fds : List ℕ) (off : ℕ)
    (bytes : List ℕ)
    → Progress answers
    → length bytes ≤ length answers
    → (striped_pwrite answers p key_hash disk fds off bytes).status ≡ done
unfolding striped_pwrite
striped_pwrite-done answers p k disk fds off bytes progress enough =
    write_segments-done answers disk fds (plan_reads p k off (length bytes)) bytes progress enough
