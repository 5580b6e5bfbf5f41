-- ===== src/Storage/TierManager/Reads/Origins.antt =====
-- Where the bytes of a read plan come from (tier_manager.cpp, ReadStream::plan).
use goblin_store.Prelude.{
  ℕ, zero, suc, ◌+◌, ◌-◌, ◌≤◌, ◌<◌, true, false, ltb, if◌then◌else◌, Option, none, some, List, [],
  ◌∷◌, ◌++◌, get_or, ◌≡◌, refl, arith, sym, ap, ◌∙◌, append_assoc,
}
use goblin_store.Common.Types.{u64}
use goblin_store.Crypto.Digest.{bucket}
use goblin_store.Storage.DrivePool.{DrivePool, ReadSegment, drive_of, file_offset_of, plan_reads}
use goblin_store.Storage.DrivePool.Placement.{IsPool}
use goblin_store.Storage.DrivePool.Plan.{run_places, segment_places, byte_places, plan_reads-places}
use goblin_store.Storage.Pool.{Pool}
use goblin_store.Storage.StripedIo.Places.{file_places, file_places-append, file_places-run}
use goblin_store.Storage.TierManager.Reads.{Seg, ReadPlan, ReadStream, segs_from, add_drive_segs}

-- The file and the offset of every byte that the segments read, in order.
abbrev pub seg_places : List Seg → List (ℕ × ℕ)
seg_places [] = []
seg_places (s ∷ ss) = run_places s.fd s.file_off s.len ++ seg_places ss

-- Where byte `y` of the HDD's part is.
unfoldable pub tail_place : Option Pool → Option (List ℕ) → ℕ → ℕ → ℕ × ℕ
tail_place (some pool) (some fds) k y =
    (get_or fds (drive_of pool.drives k y) 0, file_offset_of pool.drives y)
tail_place none fds k y = (0, 0)
tail_place (some pool) none k y = (0, 0)

-- Where byte `x` of an object is on the disks: striped over the SSDs up to its bytes there, and from
-- there on, counted anew, over the HDDs.
unfoldable pub byte_origin : DrivePool → Option Pool → ReadStream → ℕ → ℕ × ℕ
byte_origin ssd hdd rs x =
    let k = bucket rs.digest in
    if ltb x rs.layout.ssd_bytes
    then (get_or rs.ssd (drive_of ssd k x) 0, file_offset_of ssd x)
    else tail_place hdd rs.hdd k (x - rs.layout.ssd_bytes)

unfoldable pub origins : DrivePool → Option Pool → ReadStream → ℕ → ℕ → List (ℕ × ℕ)
unfolding byte_origin tail_place
origins ssd hdd rs x zero = []
origins ssd hdd rs x (suc n) = byte_origin ssd hdd rs x ∷ origins ssd hdd rs (x + 1) n

seg_places-append : (xs ys : List Seg) → seg_places (xs ++ ys) ≡ seg_places xs ++ seg_places ys
seg_places-append [] ys = refl
seg_places-append (s ∷ xs) ys =
    ap (λ t. run_places s.fd s.file_off s.len ++ t) (seg_places-append xs ys)
    ∙ sym (append_assoc (run_places s.fd s.file_off s.len) (seg_places xs) (seg_places ys))

segs_from-places :
    (fds : List ℕ) (at : ℕ) (ss : List ReadSegment)
    → seg_places (segs_from fds at ss) ≡ file_places fds (segment_places ss)
unfolding segs_from
segs_from-places fds at [] = refl
segs_from-places fds at (s ∷ ss) =
    rw
      (
        file_places-append fds (run_places s.drive s.file_offset s.length) (segment_places ss),
        file_places-run fds s.drive s.file_offset s.length,
      )
      (ap (λ t. run_places (get_or fds s.drive 0) s.file_offset s.length ++ t)
        (segs_from-places fds (at + s.length) ss))

pub add_drive_segs-places :
    (p : ReadPlan) (dp : DrivePool) (k : ℕ) (fds : List ℕ) (tier_off len at : ℕ)
    → IsPool dp
    → tier_off + len < u64
    → seg_places (add_drive_segs p dp k fds tier_off len at).segs
      ≡ seg_places p.segs ++ file_places fds (byte_places dp k tier_off len)
unfolding add_drive_segs
add_drive_segs-places p dp k fds tier_off len at v fits =
    let ss = plan_reads dp k tier_off len in
    seg_places-append p.segs (segs_from fds at ss)
    ∙ ap (λ t. seg_places p.segs ++ t)
        (segs_from-places fds at ss
          ∙ ap (file_places fds) (plan_reads-places dp k tier_off len v fits))

module _ (ssd : DrivePool) (hdd : Option Pool) (rs : ReadStream) where
  pub origins-append :
      (x a b : ℕ)
      → origins ssd hdd rs x (a + b) ≡ origins ssd hdd rs x a ++ origins ssd hdd rs (x + a) b
  unfolding origins
  origins-append x zero b =
      let e : 0 + b ≡ b = omega arith in let f : x + 0 ≡ x = omega arith in rw (e, f)
  origins-append x (suc a) b =
      let e : suc a + b ≡ suc (a + b) = omega arith in
      let f : x + suc a ≡ x + 1 + a = omega arith in
      rw (e, f) (ap (λ t. byte_origin ssd hdd rs x ∷ t) (origins-append (x + 1) a b))

  -- Bytes of the SSD's part.
  pub origins-ssd :
      (x n : ℕ)
      → x + n ≤ rs.layout.ssd_bytes
      → file_places rs.ssd (byte_places ssd (bucket rs.digest) x n) ≡ origins ssd hdd rs x n
  unfolding origins byte_places byte_origin
  origins-ssd x zero h = refl
  origins-ssd x (suc n) h =
      let here : ltb x rs.layout.ssd_bytes ≡ true = ground arith in
      rw here (
        ap (λ t. (get_or rs.ssd (drive_of ssd (bucket rs.digest) x) 0, file_offset_of ssd x) ∷ t)
          (origins-ssd (x + 1) n (omega arith)))

-- Bytes of the HDD's part.
pub origins-hdd :
    (ssd : DrivePool) (pool : Pool) (rs : ReadStream) (fds : List ℕ) (x n : ℕ)
    → rs.hdd ≡ some fds
    → rs.layout.ssd_bytes ≤ x
    → file_places fds (byte_places pool.drives (bucket rs.digest) (x - rs.layout.ssd_bytes) n)
      ≡ origins ssd (some pool) rs x n
unfolding origins byte_places byte_origin tail_place
origins-hdd ssd pool rs fds x zero e h = refl
origins-hdd ssd pool rs fds x (suc n) e h =
    let past : ltb x rs.layout.ssd_bytes ≡ false = ground arith in
    let next : x - rs.layout.ssd_bytes + 1 ≡ x + 1 - rs.layout.ssd_bytes = omega arith in
    rw (past, e, next)
      (ap
        (λ t.
          (
            get_or fds (drive_of pool.drives (bucket rs.digest) (x - rs.layout.ssd_bytes)) 0,
            file_offset_of pool.drives (x - rs.layout.ssd_bytes),
          )
          ∷ t)
        (origins-hdd ssd pool rs fds (x + 1) n e (omega arith)))
