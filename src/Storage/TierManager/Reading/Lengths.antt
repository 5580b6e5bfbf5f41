-- ===== src/Storage/TierManager/Reading/Lengths.antt =====
-- A read (tier_manager.cpp, `TierManager::read`) leaves a buffer of the length that it was given.
use goblin_store.Prelude.{
  ℕ, zero, suc, ◌+◌, ◌-◌, ◌≤◌, min, max, leb, Option, none, some, List, [], ◌∷◌, ◌++◌, length,
  get_or, take, drop, length-append, length-take, length-drop, ◌≡◌, refl, arith, ap, ◌∙◌,
  Bool-cases, Option-cases, inl, inr,
}
use goblin_store.Prelude.Bytes.{Bytes}
use goblin_store.Common.Errors.{Result, Result-cases, value, error}
use goblin_store.Common.Types.{align_up, device_block}
use goblin_store.Crypto.Digest.{Digest, bucket}
use goblin_store.Storage.DrivePool.{ReadSegment, plan_reads}
use goblin_store.Storage.DrivePool.Placement.{IsPool}
use goblin_store.Storage.Index.{ObjectMeta, lookup}
use goblin_store.Storage.Layout.{ObjectLayout, compute_layout}
use goblin_store.Storage.Pool.{Pool, Volume}
use goblin_store.Storage.StripedIo.{Disk, read_bytes, read_segments, striped_read}
use goblin_store.Storage.TierManager.{TierManager, three_layer}
use goblin_store.Storage.TierManager.Reads.{ram_end, copy_head, seg_bytes}
use goblin_store.Storage.TierManager.Reads.Plans.{plan_reads-bytes, length-copy_head}
use goblin_store.Storage.TierManager.Reads.Complete.{HddPool}
use goblin_store.Storage.TierManager.Reading.{
  open_tier, paste, gather, needs_ssd, needs_hdd, gather_ssd, gather_hdd, read_hdd, counted,
  read_found, read,
}

length-paste :
    (out : Bytes) (pos : ℕ) (bytes : Bytes)
    → length bytes ≤ length out - pos
    → length (paste out pos bytes) ≡ length out
unfolding paste
length-paste out pos bytes fits =
    let after = drop (pos + length bytes) out in
    let e : length (take pos out ++ bytes ++ after) ≡ length out = omega (
      arith,
      length-append (take pos out) (bytes ++ after),
      length-append bytes after,
      length-append (take pos out ++ bytes) after,
      length-append (take pos out) bytes,
      length-take pos out,
      length-drop (pos + length bytes) out,
    ) in
    e

length-read_bytes : (disk : Disk) (fd off n : ℕ) → length (read_bytes disk fd off n) ≡ n
unfolding read_bytes
length-read_bytes disk fd off zero = refl
length-read_bytes disk fd off (suc n) = ap suc (length-read_bytes disk fd (off + 1) n)

length-read_segments :
    (disk : Disk) (fds : List ℕ) (ss : List ReadSegment)
    → length (read_segments disk fds ss) ≡ seg_bytes ss
unfolding read_segments seg_bytes
length-read_segments disk fds [] = refl
length-read_segments disk fds (s ∷ ss) = omega (
  arith,
  length-append (read_bytes disk (get_or fds s.drive 0) s.file_offset s.length)
      (read_segments disk fds ss),
  length-read_bytes disk (get_or fds s.drive 0) s.file_offset s.length,
  length-read_segments disk fds ss,
)

length-gather :
    (p : Pool) (v : Volume) (d : Digest) (fds : List ℕ) (off len pos : ℕ) (out : Bytes)
    → IsPool p.drives
    → length (gather p v d fds off len pos out) ≡ length out
unfolding gather striped_read
length-gather p v d fds off len pos out ok =
    let room = min (align_up len device_block) (length out - pos) in
    length-paste out pos (striped_read p.drives (bucket d) v.disk fds off room) (
      omega (
        arith,
        length-read_segments v.disk fds (plan_reads p.drives (bucket d) off room),
        plan_reads-bytes p.drives (bucket d) off room ok,
      ))

-- The pools stay, and a read that succeeds gives back a buffer of this length.
unfoldable pub Reads : TierManager → ℕ → TierManager × Result (ℕ × Bytes) → Type 0
Reads tm n (tm', error e) = (tm'.ssd ≡ tm.ssd) × (tm'.hdd ≡ tm.hdd)
Reads tm n (tm', value x) = (tm'.ssd ≡ tm.ssd) × (tm'.hdd ≡ tm.hdd) × (length x.1 ≡ n)

length-gather_ssd :
    (tm : TierManager) (d : Digest) (l : ObjectLayout) (fds : List ℕ) (off want head_end : ℕ)
    (out : Bytes)
    → IsPool tm.ssd.drives
    → length (gather_ssd tm d l fds off want head_end out) ≡ length out
unfolding gather_ssd
length-gather_ssd tm d l fds off want head_end out v =
    let begin = max off head_end in
    let stop = min (off + want) l.ssd_bytes in
    elim (Bool-cases (needs_ssd l off want head_end)) [
      | inr no_need ↦ rw (no_need, gather_ssd) refl
      | inl needed ↦
          rw (needed, gather_ssd)
            (length-gather tm.ssd tm.volume d fds begin (stop - begin) (begin - off) out v)
    ]

length-gather_hdd :
    (tm : TierManager) (pool : Pool) (d : Digest) (l : ObjectLayout) (fds : List ℕ) (off want : ℕ)
    (out : Bytes)
    → IsPool pool.drives
    → length (gather_hdd tm pool d l fds off want out) ≡ length out
unfolding gather_hdd
length-gather_hdd tm pool d l fds off want out v =
    let begin = max off l.ssd_bytes in
    elim (Bool-cases (needs_hdd l off want)) [
      | inr no_need ↦ rw (no_need, gather_hdd) refl
      | inl needed ↦
          rw (needed, gather_hdd)
            (length-gather pool tm.hdd_volume d fds (begin - l.ssd_bytes) (off + want - begin)
              (begin - off) out v)
    ]

counted-Reads :
    (tm : TierManager) (n want : ℕ) (tm' : TierManager) (hdd : Option Pool) (d : Digest)
    (l : ObjectLayout) (off w : ℕ) (out : Bytes)
    → HddPool hdd
    → tm'.ssd ≡ tm.ssd
    → tm'.hdd ≡ tm.hdd
    → length out ≡ n
    → Reads tm n (counted want (read_hdd tm' hdd d l off w out))
unfolding counted read_hdd Reads
counted-Reads tm n want tm' none d l off w out v e f h = (e, f, h)
counted-Reads tm n want tm' (some pool) d l off w out v e f h =
    let opened = open_tier (needs_hdd l off w) pool tm'.hdd_volume d l.hdd_bytes in
    elim (Result-cases opened.1) [
      | inl (x, failed) ↦ rw (failed, read_hdd) (e, f)
      | inr (fds, ok) ↦
          let tm2 : TierManager = record tm' { hdd_volume = opened.0 } in
          rw (ok, read_hdd) (e, f, length-gather_hdd tm2 pool d l fds off w out (v pool refl) ∙ h)
    ]

read_found-Reads :
    (tm : TierManager) (d : Digest) (m : ObjectMeta) (off want : ℕ) (out : Bytes)
    → IsPool tm.ssd.drives
    → HddPool tm.hdd
    → want ≤ length out
    → Reads tm (length out) (read_found tm d m off want out)
unfolding read_found Reads
read_found-Reads tm d m off want out v hv fits =
    let l = compute_layout m.size tm.tiers (three_layer tm) in
    let head_end = ram_end (some m) in
    let copied = copy_head tm (some m) off want in
    let out1 = paste out 0 copied in
    let e = length-paste out 0 copied (omega (arith, length-copy_head tm (some m) off want)) in
    let opened = open_tier (needs_ssd l off want head_end) tm.ssd tm.volume d l.ssd_bytes in
    let tm' : TierManager = record tm { volume = opened.0 } in
    elim (Result-cases opened.1) [
      | inl (x, failed) ↦ rw (failed, read_found) (refl, refl)
      | inr (fds, ok) ↦
          rw (ok, read_found)
            (counted-Reads tm (length out) want tm' tm'.hdd d l off want
              (gather_ssd tm' d l fds off want head_end out1) hv refl refl
              (length-gather_ssd tm' d l fds off want head_end out1 v ∙ e))
    ]

pub read-Reads :
    (tm : TierManager) (d : Digest) (off : ℕ) (out : Bytes)
    → IsPool tm.ssd.drives
    → HddPool tm.hdd
    → Reads tm (length out) (read tm d off out)
unfolding read Reads
read-Reads tm d off out v hv = elim (Option-cases (lookup tm.index d)) [
  | inl gone ↦ rw (gone, read) (refl, refl)
  | inr (m, here) ↦
      rw (here, read)
        (elim (Bool-cases (leb m.size off)) [
          | inl past ↦ rw past (refl, refl, refl)
          | inr inside ↦
              rw inside (
                read_found-Reads tm d m off (min (length out) (m.size - off)) out v hv
                  (omega arith))
        ])
]
