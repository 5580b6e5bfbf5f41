-- ===== src/Storage/TierManager/Snapshots/Streams.antt =====
-- Reads through a stream (tier_manager.cpp, `open_read` and ReadStream::plan).
use goblin_store.Prelude.{
  ℕ, ◌-◌, ◌≤◌, ◌<◌, min, Bool, true, false, ltb, Option, none, some, List, [], ◌≡◌, refl, arith,
  sym, ap, subst, ◌∙◌, inl, inr, Bool-cases, is_some,
}
use goblin_store.Common.Config.{TierSizes}
use goblin_store.Common.Errors.{Result-cases, value}
use goblin_store.Crypto.Digest.{Digest}
use goblin_store.Storage.DrivePool.Placement.{IsPool}
use goblin_store.Storage.Index.{ObjectMeta, lookup}
use goblin_store.Storage.Layout.{compute_layout}
use goblin_store.Storage.Pool.{Pool, Volume, open_object}
use goblin_store.Storage.TierManager.{TierManager, three_layer}
use goblin_store.Storage.TierManager.Reading.{open_tier}
use goblin_store.Storage.TierManager.Reads.{ReadStream, ram_end, plan}
use goblin_store.Common.Types.{u64}
use goblin_store.Storage.TierManager.Reads.Serves.{Serves, plan-Serves}
use goblin_store.Storage.TierManager.Reads.Complete.{HeadFits, HddPool, IsStream}
use goblin_store.Storage.TierManager.Snapshots.{open_hdd_files, with_hdd, open_stream, open_read}

-- A stream of an object of this size, and a state in which only files are other than before.
record Opens (tm : TierManager) (d : Digest) (size : ℕ) (tm' : TierManager) (rs : ReadStream)
    : Type 0 where
  digest : rs.digest ≡ d
  bytes : rs.size ≡ size
  stream : IsStream tm rs
  volume : Volume
  hdd_volume : Volume
  state : tm' ≡ record tm { volume = volume; hdd_volume = hdd_volume }

open_hdd_files-some :
    (hdd : Option Pool) (v : Volume) (d : Digest) (bytes : ℕ) (fds : Option (List ℕ))
    → (ltb 0 bytes ≡ true → is_some hdd ≡ true)
    → (open_hdd_files hdd v d bytes).1 ≡ value fds
    → is_some fds ≡ ltb 0 bytes
unfolding open_hdd_files
open_hdd_files-some none v d bytes fds has h =
    let e : none ≡ fds = cc in
    subst (λ o. is_some o ≡ ltb 0 bytes) e
      (elim (Bool-cases (ltb 0 bytes)) [
        | inl more ↦ ground (arith, has more)
        | inr nothing ↦ sym nothing
      ])
open_hdd_files-some (some p) v d bytes fds has h = elim (Bool-cases (ltb 0 bytes)) [
  | inl more ↦ elim (Result-cases (open_object p v d bytes false []).1) [
    | inl (e, failed) ↦ let h' = rw (more, failed) at h in ground (arith, h')
    | inr (f, ok) ↦ let h' = rw (more, ok) at h in ground (arith, h', more)
  ]
  | inr nothing ↦ let h' = rw nothing at h in ground (arith, h', nothing)
]

-- Only a layout of three layers has bytes in the HDD.
hdd_bytes-three :
    (size : ℕ) (t : TierSizes) (three : Bool)
    → ltb 0 (compute_layout size t three).hdd_bytes ≡ true
    → three ≡ true
unfolding compute_layout
hdd_bytes-three size t true h = refl
hdd_bytes-three size t false h = ground (arith, h)

with_hdd-Opens :
    (tm : TierManager) (d : Digest) (size : ℕ) (ssd : List ℕ) (rs : ReadStream)
    → (with_hdd tm d size (compute_layout size tm.tiers (three_layer tm)) ssd).1 ≡ value rs
    → Opens tm d size (with_hdd tm d size (compute_layout size tm.tiers (three_layer tm)) ssd).0 rs
unfolding with_hdd three_layer
with_hdd-Opens tm d size ssd rs h =
    let l = compute_layout size tm.tiers (three_layer tm) in
    let opened = open_hdd_files tm.hdd tm.hdd_volume d l.hdd_bytes in
    elim (Result-cases opened.1) [
      | inl (e, failed) ↦ let h' = rw (failed, with_hdd) at h in ground (arith, h')
      | inr (fds, ok) ↦
          let rs' : ReadStream = record {
            digest = d;
            size = size;
            layout = l;
            ssd = ssd;
            hdd = fds;
          } in
          let h' = rw (ok, with_hdd) at h in
          let e : rs' ≡ rs = cc in
          rw (ok, with_hdd)
            (subst (λ s. Opens tm d size (record tm { hdd_volume = opened.0 }) s) e
              (record {
                digest = refl;
                bytes = refl;
                stream = record {
                  layout = refl;
                  hdd =
                      open_hdd_files-some tm.hdd tm.hdd_volume d l.hdd_bytes fds
                        (hdd_bytes-three size tm.tiers (three_layer tm)) ok;
                };
                volume = tm.volume;
                hdd_volume = opened.0;
                state = refl;
              }))
    ]

open_stream-Opens :
    (tm : TierManager) (d : Digest) (size : ℕ) (needed : Bool) (rs : ReadStream)
    → (open_stream tm d size needed).1 ≡ value rs
    → Opens tm d size (open_stream tm d size needed).0 rs
unfolding open_stream three_layer
open_stream-Opens tm d size needed rs h =
    let l = compute_layout size tm.tiers (three_layer tm) in
    let opened = open_tier needed tm.ssd tm.volume d l.ssd_bytes in
    elim (Result-cases opened.1) [
      | inl (e, failed) ↦ let h' = rw (failed, open_stream) at h in ground (arith, h')
      | inr (fds, ok) ↦
          let tm' : TierManager = record tm { volume = opened.0 } in
          let o = with_hdd-Opens tm' d size fds rs (rw (ok, open_stream) at h) in
          rw (ok, open_stream)
            (record {
              digest = o.digest;
              bytes = o.bytes;
              stream = record { layout = o.stream.layout; hdd = o.stream.hdd };
              volume = o.volume;
              hdd_volume = o.hdd_volume;
              state = o.state;
            })
    ]

open_read-Opens :
    (tm : TierManager) (d : Digest) (m : ObjectMeta) (rs : ReadStream)
    → lookup tm.index d ≡ some m
    → (open_read tm d).1 ≡ value rs
    → Opens tm d m.size (open_read tm d).0 rs
unfolding open_read
open_read-Opens tm d m rs here h =
    let needed = ltb 0 (compute_layout m.size tm.tiers (three_layer tm)).ssd_bytes in
    rw (here, open_read) (open_stream-Opens tm d m.size needed rs (rw (here, open_read) at h))

-- On pools with drives and a stripe, with heads no longer than the SSD prefix and an object below 2 ^ 64
-- bytes: when an object is opened for reading, and its head is whole or else evicted and the object larger
-- than a head, each plan on the stream fills a buffer from its start, up to the end of the buffer or of
-- the object, without a gap: with the bytes of the head in memory from the offset of the read to the end
-- of the head, and with each further byte from its own place, on the SSDs up to the object's bytes there
-- and then on the HDDs, by the striping rule and in the stream's open file of the drive.
pub open_read-Serves :
    (tm : TierManager) (d : Digest) (m : ObjectMeta) (rs : ReadStream) (off room : ℕ)
    → IsPool tm.ssd.drives
    → HddPool tm.hdd
    → tm.tiers.ram_head ≤ tm.tiers.ssd_prefix
    → m.size < u64
    → lookup tm.index d ≡ some m
    → HeadFits m.size tm.tiers.ram_head (ram_end (some m))
    → (open_read tm d).1 ≡ value rs
    → Serves tm rs m off (min room (m.size - off)) (plan (open_read tm d).0 rs off room)
unfolding three_layer
open_read-Serves tm d m rs off room v hv le small here fits h =
    let o = open_read-Opens tm d m rs here h in
    let tm' : TierManager = record tm { volume = o.volume; hdd_volume = o.hdd_volume } in
    let found : lookup tm.index rs.digest ≡ some m = ap (lookup tm.index) o.digest ∙ here in
    let fits' : HeadFits rs.size tm.tiers.ram_head (ram_end (some m)) = rw o.bytes fits in
    let s : IsStream tm' rs = record { layout = o.stream.layout; hdd = o.stream.hdd } in
    let serves : Serves tm rs m off (min room (rs.size - off)) (plan tm' rs off room) =
      (let p = plan-Serves tm' rs m off room v hv s le found fits' (rw o.bytes small) in
        record { filled = p.filled; ends = p.ends; head = p.head; places = p.places }) in
    rw o.state
      (subst (λ n. Serves tm rs m off (min room (n - off)) (plan tm' rs off room)) o.bytes serves)
