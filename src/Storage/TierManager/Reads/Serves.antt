-- ===== src/Storage/TierManager/Reads/Serves.antt =====
-- The bytes that a read plan serves (tier_manager.cpp, ReadStream::plan): the head's, and each other byte from its place.
use goblin_store.Prelude.{
  ℕ, zero, suc, ◌+◌, ◌-◌, ◌≤◌, ◌<◌, min, max, true, false, ltb, leb, Option, none, some, List, [],
  ◌++◌, length, get_or, ◌≡◌, refl, arith, sym, ap, ap₂, subst, ◌∙◌, ◌⊎◌, inl, inr, Bool-cases,
  is_some,
}
use goblin_store.Common.Types.{u64}
use goblin_store.Core.BufferPool.{addr}
use goblin_store.Crypto.Digest.{bucket}
use goblin_store.Storage.DrivePool.Placement.{IsPool}
use goblin_store.Storage.DrivePool.Plan.{byte_places}
use goblin_store.Storage.Index.{ObjectMeta, lookup}
use goblin_store.Storage.Pool.{Pool}
use goblin_store.Storage.StripedIo.Places.{file_places}
use goblin_store.Storage.TierManager.{TierManager}
use goblin_store.Storage.TierManager.Reads.{
  Seg, ReadPlan, ReadStream, read_memory, ram_end, copy_head, add_drive_segs, plan_ssd, plan_tail,
  plan_hdd, plan_found, plan,
}
use goblin_store.Storage.TierManager.Reads.Complete.{HeadFits, HddPool, IsStream, stream_ends}
use goblin_store.Storage.TierManager.Reads.Complete.{plan-Filled}
use goblin_store.Storage.TierManager.Reads.Plans.{Filled, length-copy_head}
use goblin_store.Storage.TierManager.Reads.Origins.{
  seg_places, origins, add_drive_segs-places, origins-append, origins-ssd, origins-hdd,
}

read_memory-get : (m : ℕ → ℕ) (a n i : ℕ) → i < n → get_or (read_memory m a n) i 0 ≡ m (a + i)
unfolding read_memory
read_memory-get m a zero i h = absurd (omega arith)
read_memory-get m a (suc n) zero h = ap m (omega arith)
read_memory-get m a (suc n) (suc i) h =
    read_memory-get m (a + 1) n i (omega arith) ∙ ap m (omega arith)

-- A part of a plan that has the places of a range of an object.
module _ (tm : TierManager) (rs : ReadStream) (off want head : ℕ) where
  -- The range that starts where the head's bytes end.
  abbrev from : ℕ
  from = max off (min (off + want) head)

  abbrev Located : List Seg → ℕ → Type 0
  Located segs at = seg_places segs ≡ origins tm.ssd.drives tm.hdd rs from (at - from)

  plan_ssd-Located :
      (p : ReadPlan)
      → IsPool tm.ssd.drives
      → off + want < u64
      → p.segs ≡ []
      → Located
          (plan_ssd p tm rs off want head).segs
          (max off (min (off + want) (max head rs.layout.ssd_bytes)))
  unfolding plan_ssd origins
  plan_ssd-Located p v fits none_yet =
      let begin = max off head in
      let stop = min (off + want) rs.layout.ssd_bytes in
      elim (Bool-cases (ltb begin stop)) [
        | inl more ↦
            let lt : begin < stop = ground (arith, more) in
            let same : stop - begin
                ≡ max off (min (off + want) (max head rs.layout.ssd_bytes)) - from =
              omega arith in
            let start : begin ≡ from = omega arith in
            rw more (
              add_drive_segs-places p tm.ssd.drives (bucket rs.digest) rs.ssd begin (stop - begin)
                (begin - off) v (omega arith)
              ∙ ap
                  (λ s.
                    seg_places s
                    ++ file_places rs.ssd
                        (byte_places tm.ssd.drives (bucket rs.digest) begin (stop - begin)))
                  none_yet
              ∙ origins-ssd tm.ssd.drives tm.hdd rs begin (stop - begin) (omega arith)
              ∙ ap₂ (origins tm.ssd.drives tm.hdd rs) start same)
        | inr nothing ↦
            let ge : stop ≤ begin = ground (arith, nothing) in
            let empty : 0 ≡ max off (min (off + want) (max head rs.layout.ssd_bytes)) - from =
              omega arith in
            rw nothing (ap seg_places none_yet ∙ ap (origins tm.ssd.drives tm.hdd rs from) empty)
      ]

plan_tail-Located :
    (tm : TierManager) (rs : ReadStream) (off want head : ℕ) (p : ReadPlan) (pool : Pool)
    (fds : List ℕ)
    → IsPool pool.drives
    → off + want < u64
    → head ≤ rs.layout.ssd_bytes
    → tm.hdd ≡ some pool
    → rs.hdd ≡ some fds
    → Located tm rs off want head p.segs (max off (min (off + want) (max head rs.layout.ssd_bytes)))
    → Located tm rs off want head (plan_tail p pool rs fds off want).segs (off + want)
unfolding plan_tail
plan_tail-Located tm rs off want head p pool fds v fits le has opened l =
    let begin = max off rs.layout.ssd_bytes in
    let n = off + want - begin in
    let start = from tm rs off want head in
    let o = origins tm.ssd.drives tm.hdd rs in
    let before = max off (min (off + want) (max head rs.layout.ssd_bytes)) in
    elim (Bool-cases (ltb rs.layout.ssd_bytes (off + want))) [
      | inl more ↦
          let lt : rs.layout.ssd_bytes < off + want = ground (arith, more) in
          let meets : begin ≡ start + (before - start) = omega arith in
          let whole : before - start + n ≡ off + want - start = omega arith in
          rw more (
            add_drive_segs-places p pool.drives (bucket rs.digest) fds (begin - rs.layout.ssd_bytes)
              n (begin - off) v (omega arith)
            ∙ ap₂ (λ a b. a ++ b) l
                (origins-hdd tm.ssd.drives pool rs fds begin n opened (omega arith)
                  ∙ ap (λ h. origins tm.ssd.drives h rs begin n) (sym has)
                  ∙ ap (λ x. o x n) meets)
            ∙ sym (origins-append tm.ssd.drives tm.hdd rs start (before - start) n)
            ∙ ap (o start) whole)
      | inr nothing ↦
          let ge : off + want ≤ rs.layout.ssd_bytes = ground (arith, nothing) in
          let same : before - start ≡ off + want - start = omega arith in
          rw nothing (l ∙ ap (o start) same)
    ]

-- A range that ends with the SSD's part.
ends :
    (tm : TierManager) (rs : ReadStream) (off want head : ℕ)
    → off + want ≤ max head rs.layout.ssd_bytes
    → origins tm.ssd.drives tm.hdd rs
        (from tm rs off want head)
        (max off (min (off + want) (max head rs.layout.ssd_bytes)) - from tm rs off want head)
      ≡ origins tm.ssd.drives tm.hdd rs
          (from tm rs off want head)
          (off + want - from tm rs off want head)
ends tm rs off want head within =
    let e : max off (min (off + want) (max head rs.layout.ssd_bytes)) - from tm rs off want head
        ≡ off + want - from tm rs off want head =
      omega arith in
    ap (origins tm.ssd.drives tm.hdd rs (from tm rs off want head)) e

plan_hdd-Located :
    (tm : TierManager) (rs : ReadStream) (off want head : ℕ) (p : ReadPlan) (hdd : Option Pool)
    (fds : Option (List ℕ))
    → HddPool hdd
    → off + want < u64
    → tm.hdd ≡ hdd
    → rs.hdd ≡ fds
    → (((off + want ≤ max head rs.layout.ssd_bytes) × (is_some fds ≡ false))
        ⊎ ((is_some hdd ≡ true) × (is_some fds ≡ true) × (head ≤ rs.layout.ssd_bytes)))
    → Located tm rs off want head p.segs (max off (min (off + want) (max head rs.layout.ssd_bytes)))
    → seg_places (plan_hdd p hdd rs fds off want).segs
      ≡ origins tm.ssd.drives tm.hdd rs
          (from tm rs off want head)
          (off + want - from tm rs off want head)
unfolding plan_hdd
plan_hdd-Located tm rs off want head p (some pool) (some fds) v fits e f (inl (within, closed)) l =
    absurd (cc closed)
plan_hdd-Located tm rs off want head p (some pool) none v fits e f (inl (within, closed)) l =
    l ∙ ends tm rs off want head within
plan_hdd-Located tm rs off want head p none fds v fits e f (inl (within, closed)) l =
    l ∙ ends tm rs off want head within
plan_hdd-Located tm rs off want head p (some pool) (some fds) v fits e f (inr (has, opened, le)) l =
    plan_tail-Located tm rs off want head p pool fds (v pool refl) fits le e f l
plan_hdd-Located tm rs off want head p none fds v fits e f (inr (has, opened, le)) l =
    absurd (cc has)
plan_hdd-Located tm rs off want head p (some pool) none v fits e f (inr (has, opened, le)) l =
    absurd (cc opened)

plan_found-places :
    (tm : TierManager) (rs : ReadStream) (m : ObjectMeta) (off want : ℕ)
    → IsPool tm.ssd.drives
    → HddPool tm.hdd
    → IsStream tm rs
    → tm.tiers.ram_head ≤ tm.tiers.ssd_prefix
    → HeadFits rs.size tm.tiers.ram_head (ram_end (some m))
    → off + want ≤ rs.size
    → rs.size < u64
    → seg_places (plan_found tm rs (some m) off want).segs
      ≡ origins tm.ssd.drives tm.hdd rs
          (from tm rs off want (ram_end (some m)))
          (off + want - from tm rs off want (ram_end (some m)))
unfolding plan_found
plan_found-places tm rs m off want v hv s h fits le small =
    let copied = copy_head tm (some m) off want in
    let p : ReadPlan = record { total = length copied; segs = []; copied = copied } in
    plan_hdd-Located tm rs off want (ram_end (some m))
      (plan_ssd p tm rs off want (ram_end (some m))) tm.hdd rs.hdd hv (omega arith) refl refl
      (stream_ends tm rs (ram_end (some m)) off want s h fits le)
      (plan_ssd-Located tm rs off want (ram_end (some m)) p v (omega arith) refl)

-- A plan of `total` bytes from `off` on that serves an object: it fills the buffer, first with the bytes of
-- the head in RAM from `off` to the end of the head, and every byte past the head is read from its place.
pub record Serves (tm : TierManager) (rs : ReadStream) (m : ObjectMeta) (off total : ℕ)
    (p : ReadPlan) : Type 0 where
  pub filled : Filled p total
  pub ends : length p.copied ≡ min (off + total) (ram_end (some m)) - off
  pub head :
      (i : ℕ)
      → i < length p.copied
      → get_or p.copied i 0 ≡ tm.memory (addr tm.ram m.head.block m.head.offset + (off + i))
  pub places :
      seg_places p.segs
      ≡ origins tm.ssd.drives tm.hdd rs (off + length p.copied) (total - length p.copied)

copy_head-get :
    (tm : TierManager) (m : ObjectMeta) (off want i : ℕ)
    → i < length (copy_head tm (some m) off want)
    → get_or (copy_head tm (some m) off want) i 0
      ≡ tm.memory (addr tm.ram m.head.block m.head.offset + (off + i))
unfolding copy_head
copy_head-get tm m off want i h =
    let a = addr tm.ram m.head.block m.head.offset + off in
    let n = min (off + want) (ram_end (some m)) - off in
    elim (Bool-cases (ltb off (ram_end (some m)))) [
      | inl inside ↦
          let lt : i < length (copy_head tm (some m) off want) = h in
          rw inside (
            read_memory-get tm.memory a n i
              (omega (arith, lt, length-copy_head tm (some m) off want))
            ∙ ap tm.memory (omega arith))
      | inr past ↦ absurd (ground (arith, h, past, length-copy_head tm (some m) off want))
    ]

plan_ssd-copied :
    (p : ReadPlan) (tm : TierManager) (rs : ReadStream) (off want head : ℕ)
    → (plan_ssd p tm rs off want head).copied ≡ p.copied
unfolding plan_ssd add_drive_segs
plan_ssd-copied p tm rs off want head =
    elim (Bool-cases (ltb (max off head) (min (off + want) rs.layout.ssd_bytes))) [
      | inl more ↦ rw more refl
      | inr nothing ↦ rw nothing refl
    ]

plan_hdd-copied :
    (p : ReadPlan) (hdd : Option Pool) (rs : ReadStream) (fds : Option (List ℕ)) (off want : ℕ)
    → (plan_hdd p hdd rs fds off want).copied ≡ p.copied
unfolding plan_hdd plan_tail add_drive_segs
plan_hdd-copied p none rs fds off want = refl
plan_hdd-copied p (some pool) rs none off want = refl
plan_hdd-copied p (some pool) rs (some fds) off want =
    elim (Bool-cases (ltb rs.layout.ssd_bytes (off + want))) [
      | inl more ↦ rw more refl
      | inr nothing ↦ rw nothing refl
    ]

plan_found-copied :
    (tm : TierManager) (rs : ReadStream) (m : Option ObjectMeta) (off want : ℕ)
    → (plan_found tm rs m off want).copied ≡ copy_head tm m off want
unfolding plan_found
plan_found-copied tm rs m off want =
    let copied = copy_head tm m off want in
    let p : ReadPlan = record { total = length copied; segs = []; copied = copied } in
    plan_hdd-copied (plan_ssd p tm rs off want (ram_end m)) tm.hdd rs rs.hdd off want
    ∙ plan_ssd-copied p tm rs off want (ram_end m)

pub plan-Serves :
    (tm : TierManager) (rs : ReadStream) (m : ObjectMeta) (off room : ℕ)
    → IsPool tm.ssd.drives
    → HddPool tm.hdd
    → IsStream tm rs
    → tm.tiers.ram_head ≤ tm.tiers.ssd_prefix
    → lookup tm.index rs.digest ≡ some m
    → HeadFits rs.size tm.tiers.ram_head (ram_end (some m))
    → rs.size < u64
    → Serves tm rs m off (min room (rs.size - off)) (plan tm rs off room)
unfolding plan origins
plan-Serves tm rs m off room v hv s h here fits small =
    let filled = plan-Filled tm rs off room v hv s h (rw here fits) in
    let want = min room (rs.size - off) in
    elim (Bool-cases (leb rs.size off)) [
      | inl past ↦
          let none_left : rs.size ≤ off = ground (arith, past) in
          let zero_total : want ≡ 0 = omega arith in
          let none_asked : 0 ≡ want - 0 = omega arith in
          rw past (record {
            filled = rw past at filled;
            ends = omega arith;
            head = λ i h. absurd (omega (arith, h));
            places = ap (origins tm.ssd.drives tm.hdd rs (off + 0)) none_asked;
          })
      | inr inside ↦
          let some_left : off < rs.size = ground (arith, inside) in
          let q = plan_found tm rs (some m) off want in
          let c : q.copied ≡ copy_head tm (some m) off want =
            plan_found-copied tm rs (some m) off want in
          let n : length q.copied ≡ min (off + want) (ram_end (some m)) - off =
            ap (λ (b : List ℕ). length b) c ∙ length-copy_head tm (some m) off want ∙ omega arith in
          let start : from tm rs off want (ram_end (some m)) ≡ off + length q.copied =
            omega (arith, n) in
          let count : off + want - from tm rs off want (ram_end (some m)) ≡ want - length q.copied =
            omega (arith, n) in
          rw (inside, here)
            (record {
              filled = rw (inside, here) at filled;
              ends = n;
              head = λ i h.
                  ap (λ (b : List ℕ). get_or b i 0) c
                  ∙ copy_head-get tm m off want i (subst (λ (b : List ℕ). i < length b) c h);
              places =
                  plan_found-places tm rs m off want v hv s h fits (omega arith) small
                  ∙ ap₂ (origins tm.ssd.drives tm.hdd rs) start count;
            })
    ]
