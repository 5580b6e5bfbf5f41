-- ===== src/Storage/TierManager/Reads.antt =====
-- src/goblin/storage/tier_manager.hpp and tier_manager.cpp, class ReadStream: the plan of a read. What
-- it copies is the list of the bytes.
pub mod Plans
pub mod Complete
pub mod Origins
pub mod Serves
use goblin_store.Prelude.{
  ℕ, zero, suc, ◌+◌, ◌-◌, min, max, Bool, true, false, not, ◌&&◌, ltb, leb, if◌then◌else◌, Option,
  none, some, List, [], ◌∷◌, ◌++◌, length, get_or, take, drop, is_some,
}
use goblin_store.Prelude.Bytes.{Bytes}
use goblin_store.Common.Errors.{Result, value, error, err, not_found}
use goblin_store.Common.Types.{device_block, align_up}
use goblin_store.Core.BufferPool.{addr}
use goblin_store.Crypto.Digest.{Digest, bucket}
use goblin_store.Storage.DrivePool.{DrivePool, ReadSegment, plan_reads}
use goblin_store.Storage.Index.{ObjectMeta, HeadLoc, is_resident, is_expired, lookup}
use goblin_store.Storage.Layout.{ObjectLayout, compute_layout}
use goblin_store.Storage.Pool.{Pool, Volume, open_object}
use goblin_store.Storage.StripedIo.{striped_read}
use goblin_store.Storage.TierManager.{TierManager, HeadPin, three_layer, touch_object, pin_resident}

pub record Seg : Type 0 where
  pub fd : ℕ
  pub file_off : ℕ
  pub len : ℕ
  pub out_off : ℕ

-- `copied` is what the call puts at the start of the caller's buffer.
pub record ReadPlan : Type 0 where
  pub total : ℕ
  pub segs : List Seg
  pub copied : Bytes

pub record ReadStream : Type 0 where
  pub digest : Digest
  pub size : ℕ
  pub layout : ObjectLayout
  pub ssd : List ℕ
  pub hdd : Option (List ℕ)

unfoldable pub read_memory : (ℕ → ℕ) → ℕ → ℕ → Bytes
read_memory m a zero = []
read_memory m a (suc n) = m a ∷ read_memory m (a + 1) n

-- The end of the head in RAM, 0 where there is none.
unfoldable pub ram_end : Option ObjectMeta → ℕ
ram_end none = 0
ram_end (some m) = if is_resident m.head then m.head.len else 0

-- The bytes of a range that are in the head.
unfoldable pub copy_head : TierManager → Option ObjectMeta → ℕ → ℕ → Bytes
unfolding read_memory ram_end
copy_head tm none off want = []
copy_head tm (some m) off want =
    let n = min (off + want) (ram_end (some m)) - off in
    if ltb off (ram_end (some m))
    then read_memory tm.memory (addr tm.ram m.head.block m.head.offset + off) n
    else []

unfoldable pub segs_from : List ℕ → ℕ → List ReadSegment → List Seg
segs_from fds at [] = []
segs_from fds at (s ∷ ss) =
    let seg : Seg = record {
      fd = get_or fds s.drive 0;
      file_off = s.file_offset;
      len = s.length;
      out_off = at;
    } in
    seg ∷ segs_from fds (at + s.length) ss

unfoldable pub seg_bytes : List ReadSegment → ℕ
seg_bytes [] = 0
seg_bytes (s ∷ ss) = s.length + seg_bytes ss

unfoldable pub add_drive_segs : ReadPlan → DrivePool → ℕ → List ℕ → ℕ → ℕ → ℕ → ReadPlan
unfolding segs_from seg_bytes
add_drive_segs p dp hash fds tier_off len out_base =
    let ss = plan_reads dp hash tier_off len in
    record p { segs = p.segs ++ segs_from fds out_base ss; total = p.total + seg_bytes ss }

unfoldable pub plan_ssd : ReadPlan → TierManager → ReadStream → ℕ → ℕ → ℕ → ReadPlan
plan_ssd p tm rs off want head_end =
    let begin = max off head_end in
    let stop = min (off + want) rs.layout.ssd_bytes in
    if ltb begin stop
    then add_drive_segs p tm.ssd.drives (bucket rs.digest) rs.ssd begin (stop - begin) (begin - off)
    else p

unfoldable pub plan_tail : ReadPlan → Pool → ReadStream → List ℕ → ℕ → ℕ → ReadPlan
plan_tail p pool rs fds off want =
    let begin = max off rs.layout.ssd_bytes in
    if ltb rs.layout.ssd_bytes (off + want)
    then add_drive_segs p pool.drives (bucket rs.digest) fds (begin - rs.layout.ssd_bytes)
        (off + want - begin) (begin - off)
    else p

unfoldable pub plan_hdd : ReadPlan → Option Pool → ReadStream → Option (List ℕ) → ℕ → ℕ → ReadPlan
unfolding plan_tail
plan_hdd p (some pool) rs (some fds) off want = plan_tail p pool rs fds off want
plan_hdd p none rs fds off want = p
plan_hdd p (some pool) rs none off want = p

-- The plan of a range that is not empty, with what the index has for the digest.
unfoldable pub plan_found : TierManager → ReadStream → Option ObjectMeta → ℕ → ℕ → ReadPlan
unfolding plan_ssd plan_hdd
plan_found tm rs m off want =
    let copied = copy_head tm m off want in
    let p : ReadPlan = record { total = length copied; segs = []; copied = copied } in
    plan_hdd (plan_ssd p tm rs off want (ram_end m)) tm.hdd rs rs.hdd off want

abbrev pub no_plan : ReadPlan
no_plan = record { total = 0; segs = []; copied = [] }

-- `room` is the size of the caller's buffer.
unfoldable pub plan : TierManager → ReadStream → ℕ → ℕ → ReadPlan
unfolding plan_found
plan tm rs off room =
    if leb rs.size off
    then no_plan
    else plan_found tm rs (lookup tm.index rs.digest) off (min room (rs.size - off))
