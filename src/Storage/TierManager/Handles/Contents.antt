-- ===== src/Storage/TierManager/Handles/Contents.antt =====
-- What the disks hold of an object that is written (tier_manager.cpp, StoreHandle::flush_block).
use goblin_store.Prelude.{
  ℕ, zero, suc, ◌+◌, ◌-◌, ◌≤◌, ◌<◌, min, max, ltb, Option, none, some, List, [], ◌∷◌, ◌++◌, length,
  take, drop, append_assoc, append-nil, take-append-drop, length-take, length-drop, ◌≡◌, refl, sym,
  ap, ◌∙◌, arith, inl, inr, Bool-cases,
}
use goblin_store.Prelude.Bytes.{Bytes}
use goblin_store.Common.Errors.{done}
use goblin_store.Common.Types.{u64}
use goblin_store.Crypto.Digest.{Digest, bucket}
use goblin_store.Storage.Layout.{ObjectLayout}
use goblin_store.Storage.DrivePool.{plan_reads, plan_loop}
use goblin_store.Storage.DrivePool.Placement.{IsPool, Fits}
use goblin_store.Storage.Pool.{Pool, Volume}
use goblin_store.Storage.StripedIo.{striped_read, read_segments}
use goblin_store.Storage.StripedIo.RoundTrip.{OwnFiles, Fits-below}
use goblin_store.Storage.StripedIo.Appending.{striped_read-appended}
use goblin_store.Storage.TierManager.{TierManager}
use goblin_store.Storage.TierManager.Handles.{
  ssd_extent, write_volume, flush_ssd, flush_tail, flush_hdd,
}
use goblin_store.Storage.TierManager.Writes.{StoreHandle}

-- The first bytes that the scratch files of a tier hold.
unfoldable pub tier_bytes : Pool → Volume → Digest → List ℕ → ℕ → Bytes
tier_bytes p v d fds n = striped_read p.drives (bucket d) v.disk fds 0 n

-- What the HDD files hold of the first `n` bytes of the object: those past the SSD tier.
unfoldable pub hdd_part : Option Pool → Volume → Digest → ObjectLayout → Option (List ℕ) → ℕ → Bytes
unfolding tier_bytes
hdd_part (some p) v d l (some fds) n = tier_bytes p v d fds (n - l.ssd_bytes)
hdd_part none v d l fds n = []
hdd_part (some p) v d l none n = []

-- What the files hold of the first `n` bytes of the object, read back: first the SSD, then the HDD.
unfoldable pub stored : TierManager → StoreHandle → ℕ → Bytes
unfolding tier_bytes hdd_part
stored tm h n =
    tier_bytes tm.ssd tm.volume h.digest h.ssd (min n (ssd_extent h.layout))
    ++ hdd_part tm.hdd tm.hdd_volume h.digest h.layout h.hdd n

-- A pool with a scratch file of its own on every drive, where the placement of `n` bytes does not wrap.
pub record HasFiles (p : Pool) (d : Digest) (fds : List ℕ) (n : ℕ) : Type 0 where
  pub pool : IsPool p.drives
  pub own : OwnFiles p.drives fds
  pub fits : Fits p.drives (bucket d) n

-- Where the bytes past the SSD tier go: to an HDD pool with files, or there are none.
unfoldable pub HasTail : Digest → ObjectLayout → Option Pool → Option (List ℕ) → Type 0
HasTail d l (some p) (some fds) = HasFiles p d fds l.size × (ssd_extent l ≡ l.ssd_bytes)
HasTail d l none fds = l.size ≤ ssd_extent l
HasTail d l (some p) none = l.size ≤ ssd_extent l

-- A handle of a store that has the files for its object, the size of which is below 2 ^ 64.
pub record IsOpen (tm : TierManager) (h : StoreHandle) : Type 0 where
  pub ssd : HasFiles tm.ssd h.digest h.ssd h.layout.size
  pub tail : HasTail h.digest h.layout tm.hdd h.hdd
  pub range : h.layout.size < u64

pub take-min : (k : ℕ) (xs : Bytes) → take (min (length xs) k) xs ≡ take k xs
take-min zero xs = let e : min (length xs) 0 ≡ 0 = omega arith in rw e refl
take-min (suc k) [] = let e : min 0 (suc k) ≡ 0 = omega arith in rw e refl
take-min (suc k) (x ∷ xs) =
    let e : min (suc (length xs)) (suc k) ≡ suc (min (length xs) k) = omega arith in
    rw e (ap (λ zs. x ∷ zs) (take-min k xs))

-- A write of `bs` to a tier that holds `a` bytes.
write_volume-lem :
    (p : Pool) (v : Volume) (d : Digest) (fds : List ℕ) (a n : ℕ) (bs : Bytes)
    → HasFiles p d fds n
    → a + length bs ≤ n
    → n < u64
    → (write_volume p v d fds a bs).1 ≡ done
    → tier_bytes p (write_volume p v d fds a bs).0 d fds (a + length bs)
      ≡ tier_bytes p v d fds a ++ bs
unfolding write_volume tier_bytes
write_volume-lem p v d fds a n bs f le range ok =
    striped_read-appended p.drives (bucket d) fds f.pool f.own v.answers v.disk a bs (omega arith)
      (Fits-below p.drives (bucket d) fds f.pool f.own (a + length bs) n le f.fits) ok

tier_bytes-zero : (p : Pool) (v : Volume) (d : Digest) (fds : List ℕ) → tier_bytes p v d fds 0 ≡ []
unfolding tier_bytes striped_read read_segments plan_reads plan_loop
tier_bytes-zero p v d fds = refl

take_whole : (xs : Bytes) → take (length xs) xs ≡ xs
take_whole [] = refl
take_whole (x ∷ xs) = ap (λ zs. x ∷ zs) (take_whole xs)

no_bytes : (xs : Bytes) → length xs ≡ 0 → xs ≡ []
no_bytes [] e = refl
no_bytes (x ∷ xs) e = absurd (omega arith)

-- The two halves of a block that begins at `o`, around the end `s` of the SSD tier.
split_block :
    (a b : Bytes) (block : Bytes) (o s : ℕ)
    → (o < s → b ≡ [])
    → (a ++ take (min (o + length block) s - o) block) ++ (b ++ drop (max o s - o) block)
      ≡ (a ++ b) ++ block
split_block a b block o s none_yet = elim (Bool-cases (ltb o s)) [
  | inl before ↦
      let lt : o < s = ground (arith, before) in
      let e : min (o + length block) s - o ≡ min (length block) (s - o) = omega arith in
      let f : max o s - o ≡ s - o = omega arith in
      rw (e, f, none_yet lt, take-min (s - o) block, append-nil a)
        (append_assoc a (take (s - o) block) (drop (s - o) block)
          ∙ ap (λ z. a ++ z) (take-append-drop (s - o) block))
  | inr past ↦
      let ge : s ≤ o = ground (arith, past) in
      let e : min (o + length block) s - o ≡ 0 = omega arith in
      let f : max o s - o ≡ 0 = omega arith in
      rw (e, f, append-nil a) (sym (append_assoc a b block))
]

-- The state of a store of `hb` while it writes: the volumes, the offset and the buffer change.
abbrev pub at_volumes : TierManager → Volume → Volume → TierManager
at_volumes tm v hv = record tm { volume = v; hdd_volume = hv }

abbrev pub at_offset : StoreHandle → ℕ → Bytes → StoreHandle
at_offset h fl st = record h { flushed = fl; staged = st }

module _ (tm : TierManager) (h : StoreHandle) (open_files : IsOpen tm h) where
  flush_ssd-tier_bytes :
      (v hv : Volume) (fl : ℕ) (st block : Bytes)
      → fl + length block ≤ h.layout.size
      → (flush_ssd (at_volumes tm v hv) (at_offset h fl st) block).1 ≡ done
      → (v' : Volume) × ((flush_ssd (at_volumes tm v hv) (at_offset h fl st) block).0
          ≡ at_volumes tm v' hv)
        × (tier_bytes tm.ssd v' h.digest h.ssd (min (fl + length block) (ssd_extent h.layout))
            ≡ tier_bytes tm.ssd v h.digest h.ssd (min fl (ssd_extent h.layout))
              ++ take (min (fl + length block) (ssd_extent h.layout) - fl) block)
  unfolding flush_ssd
  flush_ssd-tier_bytes v hv fl st block le ok =
      let s = ssd_extent h.layout in
      let stop = min (fl + length block) s in
      let bs = take (stop - fl) block in
      let n = length-take (stop - fl) block in
      elim (Bool-cases (ltb fl stop)) [
        | inr past ↦
            let e : min (fl + length block) s ≡ min fl s = ground (arith, past) in
            let f : min (fl + length block) s - fl ≡ 0 = ground (arith, past) in
            rw (past, flush_ssd)
              (
                v,
                refl,
                ap (tier_bytes tm.ssd v h.digest h.ssd) e
                    ∙ sym (append-nil (tier_bytes tm.ssd v h.digest h.ssd (min fl s)))
                    ∙ ap (λ z. tier_bytes tm.ssd v h.digest h.ssd (min fl s) ++ take z block)
                        (sym f),
              )
        | inl some_left ↦
            let lt : fl < stop = ground (arith, some_left) in
            let len : length bs ≡ stop - fl = n ∙ omega arith in
            let e : fl + length bs ≡ min (fl + length block) s = omega (arith, len) in
            let f : fl ≡ min fl s = omega arith in
            let w = write_volume tm.ssd v h.digest h.ssd fl bs in
            rw (some_left, flush_ssd)
              (
                w.0,
                refl,
                ap (tier_bytes tm.ssd w.0 h.digest h.ssd) (sym e)
                    ∙ write_volume-lem tm.ssd v h.digest h.ssd fl h.layout.size bs open_files.ssd
                        (omega (arith, len)) open_files.range (rw (some_left, flush_ssd) at ok)
                    ∙ ap (λ z. tier_bytes tm.ssd v h.digest h.ssd z ++ bs) f,
              )
      ]

  flush_tail-tier_bytes :
      (v hv : Volume) (fl : ℕ) (st block : Bytes) (p : Pool) (fds : List ℕ)
      → HasFiles p h.digest fds h.layout.size
      → fl + length block ≤ h.layout.size
      → (flush_tail (at_volumes tm v hv) (at_offset h fl st) p fds block).1 ≡ done
      → (hv' : Volume) × ((flush_tail (at_volumes tm v hv) (at_offset h fl st) p fds block).0
          ≡ at_volumes tm v hv')
        × (tier_bytes p hv' h.digest fds (fl + length block - h.layout.ssd_bytes)
            ≡ tier_bytes p hv h.digest fds (fl - h.layout.ssd_bytes)
              ++ drop (max fl h.layout.ssd_bytes - fl) block)
  unfolding flush_tail
  flush_tail-tier_bytes v hv fl st block p fds files le ok =
      let s = h.layout.ssd_bytes in
      let begin = max fl s in
      let bs = drop (begin - fl) block in
      let n = length-drop (begin - fl) block in
      elim (Bool-cases (ltb s (fl + length block))) [
        | inr before ↦
            let e : fl + length block - s ≡ fl - s = ground (arith, before) in
            let none_left : length bs ≡ 0 = ground (arith, before, n) in
            rw (before, flush_tail)
              (
                hv,
                refl,
                ap (tier_bytes p hv h.digest fds) e
                    ∙ sym (append-nil (tier_bytes p hv h.digest fds (fl - s)))
                    ∙ ap (λ z. tier_bytes p hv h.digest fds (fl - s) ++ z)
                        (sym (no_bytes bs none_left)),
              )
        | inl some_left ↦
            let lt : s < fl + length block = ground (arith, some_left) in
            let e : begin - s + length bs ≡ fl + length block - s = omega (arith, n) in
            let f : begin - s ≡ fl - s = omega arith in
            let w = write_volume p hv h.digest fds (begin - s) bs in
            rw (some_left, flush_tail)
              (
                w.0,
                refl,
                ap (tier_bytes p w.0 h.digest fds) (sym e)
                    ∙ write_volume-lem p hv h.digest fds (begin - s) h.layout.size bs files
                        (omega (arith, e)) open_files.range (rw (some_left, flush_tail) at ok)
                    ∙ ap (λ z. tier_bytes p hv h.digest fds z ++ bs) f,
              )
      ]

  -- Where no HDD is written, the SSD takes the whole block.
  no_tail :
      (a block : Bytes) (fl : ℕ)
      → fl + length block ≤ ssd_extent h.layout
      → (a ++ take (min (fl + length block) (ssd_extent h.layout) - fl) block) ++ []
        ≡ (a ++ []) ++ block
  no_tail a block fl le =
      let e : min (fl + length block) (ssd_extent h.layout) - fl ≡ length block = omega arith in
      rw (e, take_whole block, append-nil a) (append-nil (a ++ block))

  flush_hdd-hdd_part :
      (hp : Option Pool) (hf : Option (List ℕ)) (v hv : Volume) (fl : ℕ) (st block : Bytes)
      → HasTail h.digest h.layout hp hf
      → fl + length block ≤ h.layout.size
      → (flush_hdd (at_volumes tm v hv) (at_offset h fl st) hp hf block).1 ≡ done
      → (hv' : Volume) × ((flush_hdd (at_volumes tm v hv) (at_offset h fl st) hp hf block).0
          ≡ at_volumes tm v hv')
        × ((a : Bytes)
            → (a ++ take (min (fl + length block) (ssd_extent h.layout) - fl) block)
                ++ hdd_part hp hv' h.digest h.layout hf (fl + length block)
              ≡ (a ++ hdd_part hp hv h.digest h.layout hf fl) ++ block)
  unfolding flush_hdd hdd_part HasTail
  flush_hdd-hdd_part none hf v hv fl st block tail le ok =
      (hv, refl, λ a. no_tail a block fl (omega (arith, tail)))
  flush_hdd-hdd_part (some p) none v hv fl st block tail le ok =
      (hv, refl, λ a. no_tail a block fl (omega (arith, tail)))
  flush_hdd-hdd_part (some p) (some fds) v hv fl st block (files, ext) le ok =
      let s = h.layout.ssd_bytes in
      let old = tier_bytes p hv h.digest fds (fl - s) in
      let (hv', same, more) = flush_tail-tier_bytes v hv fl st block p fds files le ok in
      (
        hv',
        same,
        λ a.
            ap
              (λ x.
                (a ++ take (min (fl + length block) x - fl) block)
                ++ tier_bytes p hv' h.digest fds (fl + length block - s))
              ext
            ∙ ap (λ z. (a ++ take (min (fl + length block) s - fl) block) ++ z) more
            ∙ split_block a old block fl s (λ lt.
              let none_yet : fl - s ≡ 0 = omega arith in
              ap (tier_bytes p hv h.digest fds) none_yet ∙ tier_bytes-zero p hv h.digest fds),
      )

  -- A block that is flushed with success is on the disks behind the bytes before it.
  pub flush_hdd-stored :
      (v hv : Volume) (fl : ℕ) (st block : Bytes)
      → fl + length block ≤ h.layout.size
      → (flush_ssd (at_volumes tm v hv) (at_offset h fl st) block).1 ≡ done
      → (flush_hdd
          (flush_ssd (at_volumes tm v hv) (at_offset h fl st) block).0
          (at_offset h fl st)
          tm.hdd
          h.hdd
          block).1
        ≡ done
      → (v' hv' : Volume) × ((flush_hdd
            (flush_ssd (at_volumes tm v hv) (at_offset h fl st) block).0
            (at_offset h fl st)
            tm.hdd
            h.hdd
            block).0
          ≡ at_volumes tm v' hv')
        × (stored (at_volumes tm v' hv') h (fl + length block)
            ≡ stored (at_volumes tm v hv) h fl ++ block)
  unfolding stored
  flush_hdd-stored v hv fl st block le ok1 ok2 =
      let s = ssd_extent h.layout in
      let h1 = at_offset h fl st in
      let (v', same1, more1) = flush_ssd-tier_bytes v hv fl st block le ok1 in
      let ok2' : (flush_hdd (at_volumes tm v' hv) h1 tm.hdd h.hdd block).1 ≡ done =
        sym (ap (λ t. (flush_hdd t h1 tm.hdd h.hdd block).1) same1) ∙ ok2 in
      let (hv', same2, more2) =
        flush_hdd-hdd_part tm.hdd h.hdd v' hv fl st block open_files.tail le ok2' in
      (
        v',
        hv',
        ap (λ t. (flush_hdd t h1 tm.hdd h.hdd block).0) same1 ∙ same2,
        ap (λ z. z ++ hdd_part tm.hdd hv' h.digest h.layout h.hdd (fl + length block)) more1
            ∙ more2 (tier_bytes tm.ssd v h.digest h.ssd (min fl s)),
      )
