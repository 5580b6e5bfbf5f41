-- ===== src/Storage/TierManager/Handles/Staging.antt =====
-- The staging of a write (tier_manager.cpp, StoreHandle::write): what was given is on the disks and in
-- the buffer.
use goblin_store.Prelude.{
  suc, ◌+◌, ◌≤◌, ◌<◌, Bool, true, not, ◌&&◌, ◌==◌, ltb, [], ◌∷◌, ◌++◌, length, drop, take, subst,
  length-append, length-drop, length-take, append-nil, ◌≡◌, refl, arith, inl, inr, Bool-cases,
}
use goblin_store.Prelude.Bytes.{Bytes}
use goblin_store.Common.Errors.{value, error}
use goblin_store.Common.Types.{add64, u64}
use goblin_store.Storage.TierManager.{TierManager}
use goblin_store.Storage.TierManager.Handles.{
  Outcome, stage_size, write_loop, advance, write, fill_head,
}
use goblin_store.Storage.TierManager.Handles.Contents.{IsOpen, stored, tier_bytes, hdd_part}
use goblin_store.Storage.TierManager.Handles.Heads.{HasHead, fill_head-HasHead}
use goblin_store.Storage.TierManager.Writes.{StoreHandle}
use goblin_store.Storage.TierManager.Handles.Rounds.{Stages, write_rounds-Stages, write_loop-Stages}

-- Whether an object has bytes on a disk.
unfoldable pub on_disk : StoreHandle → Bool
on_disk h = not (h.layout.ssd_bytes == 0 && (h.layout.hdd_bytes == 0))

-- A handle that was given these bytes so far: the head in RAM, if it has one, holds the first; and of an
-- object with bytes on a disk, the files hold the flushed ones and the buffer holds the others.
pub record IsStaged (tm : TierManager) (h : StoreHandle) (given : Bytes) : Type 0 where
  pub buffer : 0 < stage_size h.stage
  pub fits : length h.staged ≤ stage_size h.stage
  pub off : h.off ≡ length given
  pub within : h.off ≤ h.layout.size
  pub head : HasHead tm.memory h.head h.off given
  pub files : on_disk h ≡ true → IsOpen tm h
  pub kept : on_disk h ≡ true → stored tm h h.flushed ++ h.staged ≡ given
  pub count : on_disk h ≡ true → h.flushed + length h.staged ≡ length given

-- The same, but for the head.
record Given (tm : TierManager) (h : StoreHandle) (given : Bytes) : Type 0 where
  buffer : 0 < stage_size h.stage
  fits : length h.staged ≤ stage_size h.stage
  off : h.off ≡ length given
  files : on_disk h ≡ true → IsOpen tm h
  kept : on_disk h ≡ true → stored tm h h.flushed ++ h.staged ≡ given
  count : on_disk h ≡ true → h.flushed + length h.staged ≡ length given

-- What a write leaves: the handle was given these bytes, or the write failed and the offset stayed.
unfoldable pub Writes : StoreHandle → Bytes → Outcome → Type 0
Writes h given (tm, h', error e) = h'.off ≡ h.off
Writes h given (tm, h', value _) = IsStaged tm h' given

advance-Writes :
    (tm : TierManager) (h : StoreHandle) (given chunk : Bytes) (r : Outcome)
    → Given tm h given
    → IsOpen tm h
    → HasHead tm.memory h.head (h.off + length chunk) (given ++ chunk)
    → h.off + length chunk ≤ h.layout.size
    → Stages tm h (given ++ chunk) r
    → Writes h (given ++ chunk) (advance (length chunk) r)
unfolding Stages advance Writes on_disk stored tier_bytes hdd_part
advance-Writes tm h given chunk (tm', h', error e) v o hd le s = s
advance-Writes tm h given chunk (tm', h', value _) v o hd le (w, hw, fl, st, e, f, k, left) =
    rw (e, f)
      (record {
        buffer = v.buffer;
        fits = omega (arith, left);
        off = omega (arith, v.off, length-append given chunk);
        within = le;
        head = hd;
        files = λ d. record { ssd = o.ssd; tail = o.tail; range = o.range };
        kept = λ d. k.kept;
        count = λ d. k.count;
      })

-- The loop of a write into a staged handle.
write_loop-Writes :
    (tm : TierManager) (h : StoreHandle) (given chunk : Bytes)
    → Given tm h given
    → on_disk h ≡ true
    → HasHead tm.memory h.head (h.off + length chunk) (given ++ chunk)
    → h.off + length chunk ≤ h.layout.size
    → Writes h
        (given ++ chunk)
        (advance (length chunk) (write_loop (suc (length chunk)) tm h chunk))
unfolding write_loop advance Writes stored tier_bytes hdd_part
write_loop-Writes tm h given [] v disk hd le = rw (append-nil given) (record {
  buffer = v.buffer;
  fits = v.fits;
  off = omega (arith, v.off);
  within = le;
  head = subst (HasHead tm.memory h.head (h.off + 0)) (append-nil given) hd;
  files = λ d. let o = v.files disk in record { ssd = o.ssd; tail = o.tail; range = o.range };
  kept = λ d. v.kept disk;
  count = λ d. v.count disk;
})
write_loop-Writes tm h given (b ∷ bs) v disk hd le =
    let o = v.files disk in
    let all = length-append given (b ∷ bs) in
    advance-Writes tm h given (b ∷ bs) (write_loop (suc (length (b ∷ bs))) tm h (b ∷ bs)) v o hd le
      (write_rounds-Stages tm h o v.buffer (length (b ∷ bs)) tm.volume tm.hdd_volume h.flushed
        h.staged (b ∷ bs) given
        (λ n w hw fl st e q left.
          write_loop-Stages tm h o v.buffer (length (b ∷ bs)) w hw fl st (drop n (b ∷ bs))
            (given ++ take n (b ∷ bs)) (omega (arith, length-drop n (b ∷ bs)))
            (omega (
              arith,
              le,
              v.off,
              length-append (given ++ take n (b ∷ bs)) (drop n (b ∷ bs)),
              length-append given (take n (b ∷ bs)),
              length-take n (b ∷ bs),
              length-drop n (b ∷ bs),
            ))
            left q)
        (omega (arith, all, v.off, le)) v.fits (omega arith)
        (record { kept = v.kept disk; count = v.count disk }))

-- A write that ends below 2 ^ 64, into a handle that was given bytes that the head, the files and the
-- buffer hold, either leaves a handle that was given the bytes of the write behind those, or fails and
-- leaves the offset, however often the loop flushes. That says: the head in RAM, if the handle has one,
-- holds the first of all the bytes given so far, up to its length; of an object with bytes on a disk, on
-- pools with a file of its own for every drive, the files, read back from their start, SSD before HDD,
-- and then the buffer, hold all of those bytes, in order; and the offset is their number and within the
-- object.
pub write-Writes :
    (tm : TierManager) (h : StoreHandle) (given chunk : Bytes)
    → IsStaged tm h given
    → h.off + length chunk < u64
    → Writes h (given ++ chunk) (write tm h chunk)
unfolding write add64 Writes on_disk advance stored tier_bytes hdd_part
write-Writes tm h given chunk v small =
    let n = length chunk in
    let tm' : TierManager = record tm { memory = fill_head tm.memory h.head h.off chunk } in
    let hd : HasHead tm'.memory h.head (h.off + n) (given ++ chunk) =
      fill_head-HasHead tm.memory h.head h.off given chunk v.off v.head in
    let v' : Given tm' h given = record {
      buffer = v.buffer;
      fits = v.fits;
      off = v.off;
      files = λ d. let o = v.files d in record { ssd = o.ssd; tail = o.tail; range = o.range };
      kept = v.kept;
      count = v.count;
    } in
    elim (Bool-cases (ltb h.layout.size (add64 h.off n))) [
      | inl past ↦ rw (past, write) refl
      | inr within ↦
          let le : h.off + n ≤ h.layout.size = ground (arith, within) in
          rw (within, write)
            (elim (Bool-cases (h.layout.ssd_bytes == 0 && (h.layout.hdd_bytes == 0))) [
              | inl ram_only ↦ rw ram_only (record {
                buffer = v.buffer;
                fits = v.fits;
                off = omega (arith, v.off, length-append given chunk);
                within = le;
                head = hd;
                files = λ d. absurd (ground (arith, d, ram_only));
                kept = λ d. absurd (ground (arith, d, ram_only));
                count = λ d. absurd (ground (arith, d, ram_only));
              })
              | inr disk ↦
                  rw disk (write_loop-Writes tm' h given chunk v' (ground (arith, disk)) hd le)
            ])
    ]
