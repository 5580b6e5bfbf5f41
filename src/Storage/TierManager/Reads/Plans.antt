-- ===== src/Storage/TierManager/Reads/Plans.antt =====
-- The plan of a read (tier_manager.cpp, ReadStream::plan) fills the buffer once, from its start.
use native.Mathlib.Nat.{mod-lt}
use goblin_store.Prelude.{
  ℕ, zero, suc, ◌+◌, ◌-◌, ◌%◌, ◌≤◌, ◌<◌, min, max, ◌==◌, ltb, Option, none, some, List, [], ◌∷◌,
  ◌++◌, length, ◌≡◌, refl, arith, ap, subst, ◌∙◌, inl, inr, Bool-cases,
}
use goblin_store.Common.Types.{add64}
use goblin_store.Core.BufferPool.{addr}
use goblin_store.Crypto.Digest.{bucket}
use goblin_store.Storage.DrivePool.{DrivePool, ReadSegment, plan_reads, plan_loop}
use goblin_store.Storage.DrivePool.Placement.{IsPool}
use goblin_store.Storage.Index.{ObjectMeta}
use goblin_store.Storage.Pool.{Pool}
use goblin_store.Storage.TierManager.{TierManager}
use goblin_store.Storage.TierManager.Reads.{
  Seg, ReadPlan, ReadStream, read_memory, ram_end, copy_head, segs_from, seg_bytes, add_drive_segs,
  plan_ssd, plan_tail,
}

-- The segments fill the part of the buffer from `at` to `to`, one after the other.
unfoldable pub Fills : ℕ → List Seg → ℕ → Type 0
Fills at [] to = at ≡ to
Fills at (s ∷ ss) to = (s.out_off ≡ at) × Fills (at + s.len) ss to

Fills-append : (a m b : ℕ) (xs ys : List Seg) → Fills a xs m → Fills m ys b → Fills a (xs ++ ys) b
unfolding Fills
Fills-append a m b [] ys v w = rw v w
Fills-append a m b (x ∷ xs) ys v w = (v.0, Fills-append (a + x.len) m b xs ys v.1 w)

segs_from-Fills :
    (fds : List ℕ) (at : ℕ) (ss : List ReadSegment)
    → Fills at (segs_from fds at ss) (at + seg_bytes ss)
unfolding Fills segs_from seg_bytes
segs_from-Fills fds at [] = omega arith
segs_from-Fills fds at (s ∷ ss) =
    let e : at + s.length + seg_bytes ss ≡ at + (s.length + seg_bytes ss) = omega arith in
    (
      refl,
      subst (Fills (at + s.length) (segs_from fds (at + s.length) ss)) e
          (segs_from-Fills fds (at + s.length) ss),
    )

plan_loop-bytes :
    (fuel : ℕ) (p : DrivePool) (k cur remaining : ℕ)
    → IsPool p
    → remaining ≤ fuel
    → seg_bytes (plan_loop fuel p k cur remaining) ≡ remaining
unfolding plan_loop seg_bytes
plan_loop-bytes zero p k cur r v h = omega arith
plan_loop-bytes (suc fuel) p k cur r v h = elim (Bool-cases (r == 0)) [
  | inl empty ↦ ground arith
  | inr more ↦
      let inside = mod-lt cur v.stripe in
      ground (
        arith,
        plan_loop-bytes fuel p k (add64 cur (min r (p.stripe_unit - cur % p.stripe_unit)))
            (r - min r (p.stripe_unit - cur % p.stripe_unit)) v (omega arith),
        inside,
      )
]

pub plan_reads-bytes :
    (p : DrivePool) (k off len : ℕ) → IsPool p → seg_bytes (plan_reads p k off len) ≡ len
unfolding plan_reads
plan_reads-bytes p k off len v = plan_loop-bytes len p k off len v (omega arith)

-- A plan that fills the buffer from the end of the copied bytes to its total.
pub record Filled (p : ReadPlan) (total : ℕ) : Type 0 where
  pub sum : p.total ≡ total
  pub fills : Fills (length p.copied) p.segs total

add_drive_segs-Filled :
    (p : ReadPlan) (dp : DrivePool) (hash : ℕ) (fds : List ℕ) (tier_off len at : ℕ)
    → IsPool dp
    → Filled p at
    → Filled (add_drive_segs p dp hash fds tier_off len at) (at + len)
unfolding add_drive_segs
add_drive_segs-Filled p dp hash fds tier_off len at v f =
    let n = plan_reads-bytes dp hash tier_off len v in
    let ss = plan_reads dp hash tier_off len in
    record {
      sum = omega (arith, n, f.sum);
      fills =
          Fills-append (length p.copied) at (at + len) p.segs (segs_from fds at ss) f.fills
            (subst (λ t. Fills at (segs_from fds at ss) (at + t)) n (segs_from-Fills fds at ss));
    }

length-read_memory : (m : ℕ → ℕ) (a n : ℕ) → length (read_memory m a n) ≡ n
unfolding read_memory
length-read_memory m a zero = refl
length-read_memory m a (suc n) = ap suc (length-read_memory m (a + 1) n)

-- The copy stops at the end of the head or of the range.
pub length-copy_head :
    (tm : TierManager) (m : Option ObjectMeta) (off want : ℕ)
    → length (copy_head tm m off want) ≡ max off (min (off + want) (ram_end m)) - off
unfolding copy_head
length-copy_head tm none off want = unfold ram_end in omega arith
length-copy_head tm (some m) off want =
    let a = addr tm.ram m.head.block m.head.offset + off in
    let n = min (off + want) (ram_end (some m)) - off in
    elim (Bool-cases (ltb off (ram_end (some m)))) [
      | inl inside ↦ rw inside (length-read_memory tm.memory a n ∙ ground (arith, inside))
      | inr past ↦ rw past (ground (arith, past))
    ]

-- With the bytes before `at` in place, the SSD adds those up to its end or the range's.
pub plan_ssd-Filled :
    (p : ReadPlan) (tm : TierManager) (rs : ReadStream) (off want head : ℕ)
    → IsPool tm.ssd.drives
    → Filled p (max off (min (off + want) head) - off)
    → Filled
        (plan_ssd p tm rs off want head)
        (max off (min (off + want) (max head rs.layout.ssd_bytes)) - off)
unfolding plan_ssd
plan_ssd-Filled p tm rs off want head v f =
    let begin = max off head in
    let stop = min (off + want) rs.layout.ssd_bytes in
    elim (Bool-cases (ltb begin stop)) [
      | inl more ↦
          let lt : begin < stop = ground (arith, more) in
          rw more (
            subst
              (Filled (
                add_drive_segs p tm.ssd.drives (bucket rs.digest) rs.ssd begin (stop - begin)
                  (begin - off)))
              (omega arith)
              (add_drive_segs-Filled p tm.ssd.drives (bucket rs.digest) rs.ssd begin (stop - begin)
                (begin - off) v (subst (Filled p) (omega arith) f)))
      | inr nothing ↦
          let ge : stop ≤ begin = ground (arith, nothing) in
          rw nothing (subst (Filled p) (omega arith) f)
    ]

pub plan_tail-Filled :
    (p : ReadPlan) (pool : Pool) (rs : ReadStream) (fds : List ℕ) (off want head : ℕ)
    → IsPool pool.drives
    → head ≤ rs.layout.ssd_bytes
    → Filled p (max off (min (off + want) (max head rs.layout.ssd_bytes)) - off)
    → Filled (plan_tail p pool rs fds off want) want
unfolding plan_tail
plan_tail-Filled p pool rs fds off want head v h f =
    let begin = max off rs.layout.ssd_bytes in
    let n = off + want - begin in
    elim (Bool-cases (ltb rs.layout.ssd_bytes (off + want))) [
      | inl more ↦
          let lt : rs.layout.ssd_bytes < off + want = ground (arith, more) in
          rw more (
            subst
              (Filled (
                add_drive_segs p pool.drives (bucket rs.digest) fds (begin - rs.layout.ssd_bytes) n
                  (begin - off)))
              (omega arith)
              (add_drive_segs-Filled p pool.drives (bucket rs.digest) fds
                (begin - rs.layout.ssd_bytes) n (begin - off) v (subst (Filled p) (omega arith) f)))
      | inr nothing ↦
          let ge : off + want ≤ rs.layout.ssd_bytes = ground (arith, nothing) in
          rw nothing (subst (Filled p) (omega arith) f)
    ]
