-- ===== src/Storage/TierManager/Snapshots.antt =====
-- src/goblin/storage/tier_manager.cpp, `open_read` and `open_snapshot`.
pub mod Streams
use goblin_store.Prelude.{ℕ, Bool, true, false, ltb, if◌then◌else◌, Option, none, some, List, []}
use goblin_store.Common.Errors.{Result, value, error, err, not_found}
use goblin_store.Crypto.Digest.{Digest}
use goblin_store.Storage.Index.{ObjectMeta, is_expired, lookup}
use goblin_store.Storage.Layout.{ObjectLayout, compute_layout}
use goblin_store.Storage.Pool.{Pool, Volume, open_object}
use goblin_store.Storage.TierManager.{TierManager, HeadPin, three_layer, touch_object, pin_resident}
use goblin_store.Storage.TierManager.Reads.{ReadStream, ram_end}
use goblin_store.Storage.TierManager.Reading.{open_tier}

pub record Snapshot : Type 0 where
  pub meta : ObjectMeta
  pub pin : Option HeadPin
  pub rs : Option ReadStream

-- The HDD files of an object, if it has any.
unfoldable pub open_hdd_files :
    Option Pool → Volume → Digest → ℕ → Volume × Result (Option (List ℕ))
open_hdd_files none v d bytes = (v, value none)
open_hdd_files (some p) v d bytes =
    let (v', fds) = open_object p v d bytes false [] in
    let opened : Result (Option (List ℕ)) = elim fds [
      | value f ↦ value (some f)
      | error e ↦ error e
    ] in
    if ltb 0 bytes then (v', opened) else (v, value none)

-- The stream of an object whose SSD files are open.
unfoldable pub with_hdd :
    TierManager → Digest → ℕ → ObjectLayout → List ℕ → TierManager × Result ReadStream
unfolding open_hdd_files
with_hdd tm d size l ssd =
    let (v, hdd) = open_hdd_files tm.hdd tm.hdd_volume d l.hdd_bytes in
    let tm' : TierManager = record tm { hdd_volume = v } in
    elim hdd [
      | error e ↦ (tm', error e)
      | value fds ↦
          (tm', value (record { digest = d; size = size; layout = l; ssd = ssd; hdd = fds }))
    ]

unfoldable pub open_stream : TierManager → Digest → ℕ → Bool → TierManager × Result ReadStream
unfolding open_tier with_hdd
open_stream tm d size ssd_needed =
    let l = compute_layout size tm.tiers (three_layer tm) in
    let (v, ssd) = open_tier ssd_needed tm.ssd tm.volume d l.ssd_bytes in
    let tm' : TierManager = record tm { volume = v } in
    elim ssd [ error e ↦ (tm', error e) | value fds ↦ with_hdd tm' d size l fds ]

unfoldable pub open_read : TierManager → Digest → TierManager × Result ReadStream
unfolding open_stream
open_read tm d = elim (lookup tm.index d) [
  | none ↦ (tm, err not_found "object not in index")
  | some m ↦
      open_stream tm d m.size (ltb 0 (compute_layout m.size tm.tiers (three_layer tm)).ssd_bytes)
]

-- The pin comes last, so a failure to open needs no rollback.
unfoldable pub snapshot_with :
    TierManager → Digest → ObjectMeta → Option ReadStream → TierManager × Option Snapshot
snapshot_with tm d m rs =
    let (tm', pin) = pin_resident tm d m.head in
    (tm', some (record { meta = m; pin = pin; rs = rs }))

unfoldable pub snapshot_of : TierManager → Digest → ObjectMeta → TierManager × Option Snapshot
unfolding open_stream snapshot_with
snapshot_of tm d m =
    let (tm', rs) = open_stream tm d m.size true in
    if ltb (ram_end (some m)) m.size
    then elim rs [ error e ↦ (tm', none) | value s ↦ snapshot_with tm' d m (some s) ]
    else snapshot_with tm d m none

unfoldable pub open_snapshot : TierManager → Digest → ℕ → TierManager × Option Snapshot
unfolding snapshot_of
open_snapshot tm d now = elim (lookup tm.index d) [
  | none ↦ (tm, none)
  | some m ↦ if is_expired m now then (tm, none) else snapshot_of (touch_object tm d) d m
]
