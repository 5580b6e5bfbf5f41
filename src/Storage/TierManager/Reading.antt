-- ===== src/Storage/TierManager/Reading.antt =====
-- src/goblin/storage/tier_manager.cpp, `TierManager::read`. The buffer is the list of its bytes. What
-- holds the shared lock is one step; the disk reads come after it, on the files that it opened.
pub mod Lengths
use goblin_store.Prelude.{
  ℕ, ◌+◌, ◌-◌, min, max, Bool, false, ◌&&◌, ltb, leb, if◌then◌else◌, Option, none, some, List, [],
  ◌++◌, length, take, drop,
}
use goblin_store.Prelude.Bytes.{Bytes}
use goblin_store.Common.Errors.{Result, value, error, err, not_found}
use goblin_store.Common.Types.{device_block, align_up}
use goblin_store.Crypto.Digest.{Digest, bucket}
use goblin_store.Storage.Index.{ObjectMeta, lookup}
use goblin_store.Storage.Layout.{ObjectLayout, compute_layout}
use goblin_store.Storage.Pool.{Pool, Volume, open_object}
use goblin_store.Storage.StripedIo.{striped_read}
use goblin_store.Storage.TierManager.{TierManager, three_layer}
use goblin_store.Storage.TierManager.Reads.{ram_end, copy_head}

-- The files of a tier that a read needs, and the volume after the calls.
unfoldable pub open_tier : Bool → Pool → Volume → Digest → ℕ → Volume × Result (List ℕ)
open_tier needed p v d bytes = if needed then open_object p v d bytes false [] else (v, value [])

-- Bytes at a position of a buffer.
unfoldable pub paste : Bytes → ℕ → Bytes → Bytes
paste out pos bytes = take pos out ++ bytes ++ drop (pos + length bytes) out

-- A gather of `len` bytes at `pos`, rounded up to a device block where the buffer has the room.
unfoldable pub gather : Pool → Volume → Digest → List ℕ → ℕ → ℕ → ℕ → Bytes → Bytes
unfolding paste
gather p v d fds tier_off len pos out =
    let room = min (align_up len device_block) (length out - pos) in
    paste out pos (striped_read p.drives (bucket d) v.disk fds tier_off room)

unfoldable pub needs_ssd : ObjectLayout → ℕ → ℕ → ℕ → Bool
needs_ssd l off want head_end = ltb (max off head_end) (min (off + want) l.ssd_bytes)

unfoldable pub needs_hdd : ObjectLayout → ℕ → ℕ → Bool
needs_hdd l off want = ltb 0 l.hdd_bytes && ltb l.ssd_bytes (off + want)

unfoldable pub gather_ssd : TierManager → Digest → ObjectLayout → List ℕ → ℕ → ℕ → ℕ → Bytes → Bytes
unfolding gather needs_ssd
gather_ssd tm d l fds off want head_end out =
    let begin = max off head_end in
    let stop = min (off + want) l.ssd_bytes in
    if needs_ssd l off want head_end
    then gather tm.ssd tm.volume d fds begin (stop - begin) (begin - off) out
    else out

unfoldable pub gather_hdd :
    TierManager → Pool → Digest → ObjectLayout → List ℕ → ℕ → ℕ → Bytes → Bytes
unfolding gather needs_hdd
gather_hdd tm pool d l fds off want out =
    let begin = max off l.ssd_bytes in
    if needs_hdd l off want
    then gather pool tm.hdd_volume d fds (begin - l.ssd_bytes) (off + want - begin) (begin - off)
        out
    else out

unfoldable pub read_hdd :
    TierManager → Option Pool → Digest → ObjectLayout → ℕ → ℕ → Bytes → TierManager × Result Bytes
unfolding open_tier gather_hdd
read_hdd tm none d l off want out = (tm, value out)
read_hdd tm (some pool) d l off want out =
    let (v, fds) = open_tier (needs_hdd l off want) pool tm.hdd_volume d l.hdd_bytes in
    let tm' : TierManager = record tm { hdd_volume = v } in
    elim fds [
      | error e ↦ (tm', error e)
      | value f ↦ (tm', value (gather_hdd tm' pool d l f off want out))
    ]

-- The number of bytes that are read, and the buffer.
unfoldable pub counted : ℕ → TierManager × Result Bytes → TierManager × Result (ℕ × Bytes)
counted want (tm, error e) = (tm, error e)
counted want (tm, value out) = (tm, value (want, out))

-- The reads of one tier come before the files of the other are opened; both are on files that were
-- opened under the lock, so the order does not show.
unfoldable pub read_found :
    TierManager → Digest → ObjectMeta → ℕ → ℕ → Bytes → TierManager × Result (ℕ × Bytes)
unfolding open_tier gather_ssd read_hdd counted needs_ssd
read_found tm d m off want out =
    let l = compute_layout m.size tm.tiers (three_layer tm) in
    let head_end = ram_end (some m) in
    let out1 = paste out 0 (copy_head tm (some m) off want) in
    let (v, fds) = open_tier (needs_ssd l off want head_end) tm.ssd tm.volume d l.ssd_bytes in
    let tm' : TierManager = record tm { volume = v } in
    elim fds [
      | error e ↦ (tm', error e)
      | value f ↦
          counted want
            (read_hdd tm' tm'.hdd d l off want (gather_ssd tm' d l f off want head_end out1))
    ]

unfoldable pub read : TierManager → Digest → ℕ → Bytes → TierManager × Result (ℕ × Bytes)
unfolding read_found
read tm d off out = elim (lookup tm.index d) [
  | none ↦ (tm, err not_found "object not in index")
  | some m ↦
      if leb m.size off
      then (tm, value (0, out))
      else read_found tm d m off (min (length out) (m.size - off)) out
]
