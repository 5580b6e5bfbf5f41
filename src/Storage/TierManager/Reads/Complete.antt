-- ===== src/Storage/TierManager/Reads/Complete.antt =====
-- The plan of a read (tier_manager.cpp, ReadStream::plan) covers all of the range, whatever tiers have it.
use goblin_store.Prelude.{
  ℕ, ◌+◌, ◌-◌, ◌≤◌, ◌<◌, min, max, Bool, true, false, ltb, leb, Option, none, some, List, [],
  length, ◌≡◌, refl, arith, ap, subst, ◌∙◌, ◌⊎◌, inl, inr, Bool-cases, is_some,
}
use goblin_store.Common.Config.{TierSizes}
use goblin_store.Storage.DrivePool.Placement.{IsPool}
use goblin_store.Storage.Index.{ObjectMeta, lookup}
use goblin_store.Storage.Layout.{ObjectLayout, compute_layout}
use goblin_store.Storage.Pool.{Pool}
use goblin_store.Storage.TierManager.{TierManager, three_layer}
use goblin_store.Storage.TierManager.Reads.{
  ReadPlan, ReadStream, ram_end, copy_head, plan_ssd, plan_hdd, plan_found, plan,
}
use goblin_store.Storage.TierManager.Reads.Plans.{
  Fills, Filled, length-copy_head, plan_ssd-Filled, plan_tail-Filled,
}
use goblin_store.Storage.TierManager.Reads.{no_plan}

-- The head has all of its bytes, or it is not in RAM and the object is larger than a head.
abbrev pub HeadFits : ℕ → ℕ → ℕ → Type 0
HeadFits size ram_head end = (end ≡ min size ram_head) ⊎ ((end ≡ 0) × (ram_head < size))

-- A layout ends with the SSD, or goes on in the HDD past a prefix that is longer than the head.
layout_ends :
    (size end : ℕ) (t : TierSizes) (three : Bool)
    → t.ram_head ≤ t.ssd_prefix
    → HeadFits size t.ram_head end
    → ((size ≤ max end (compute_layout size t three).ssd_bytes)
        × ((compute_layout size t three).hdd_bytes ≡ 0))
      ⊎ ((0 < (compute_layout size t three).hdd_bytes)
          × (three ≡ true)
          × (end ≤ (compute_layout size t three).ssd_bytes))
unfolding compute_layout
layout_ends size end t false h fits = elim (Bool-cases (leb size t.ram_head)) [
  | inl small ↦ rw small (inl (ground (arith, small, fits), refl))
  | inr large ↦ rw large (inl (omega arith, refl))
]
layout_ends size end t true h fits = elim (Bool-cases (leb size t.ram_head)) [
  | inl small ↦ rw small (inl (ground (arith, small, fits), refl))
  | inr large ↦ rw large (elim (Bool-cases (leb size t.ssd_prefix)) [
    | inl short ↦ rw short (inl (omega arith, refl))
    | inr long ↦ rw long (inr (ground (arith, long), refl, ground (arith, fits)))
  ])
]

abbrev pub HddPool : Option Pool → Type 0
HddPool hdd = (pool : Pool) → hdd ≡ some pool → IsPool pool.drives

plan_hdd-Filled :
    (p : ReadPlan) (hdd : Option Pool) (rs : ReadStream) (fds : Option (List ℕ)) (off want end : ℕ)
    → HddPool hdd
    → (((off + want ≤ max end rs.layout.ssd_bytes) × (is_some fds ≡ false))
        ⊎ ((is_some hdd ≡ true) × (is_some fds ≡ true) × (end ≤ rs.layout.ssd_bytes)))
    → Filled p (max off (min (off + want) (max end rs.layout.ssd_bytes)) - off)
    → Filled (plan_hdd p hdd rs fds off want) want
unfolding plan_hdd
plan_hdd-Filled p hdd rs (some fds) off want end v (inl (within, closed)) f = ground (arith, closed)
plan_hdd-Filled p (some pool) rs none off want end v (inl (within, closed)) f =
    subst (Filled p) (omega arith) f
plan_hdd-Filled p none rs none off want end v (inl (within, closed)) f =
    subst (Filled p) (omega arith) f
plan_hdd-Filled p (some pool) rs (some fds) off want end v (inr (has, opened, le)) f =
    plan_tail-Filled p pool rs fds off want end (v pool refl) le f
plan_hdd-Filled p none rs fds off want end v (inr (has, opened, le)) f = ground (arith, has)
plan_hdd-Filled p (some pool) rs none off want end v (inr (has, opened, le)) f =
    ground (arith, opened)

-- A stream whose layout is that of its size, with files of the HDD where the layout has bytes there.
pub record IsStream (tm : TierManager) (rs : ReadStream) : Type 0 where
  pub layout : rs.layout ≡ compute_layout rs.size tm.tiers (three_layer tm)
  pub hdd : is_some rs.hdd ≡ ltb 0 rs.layout.hdd_bytes

-- What the SSD and the HDD have to add past the head.
pub stream_ends :
    (tm : TierManager) (rs : ReadStream) (end off want : ℕ)
    → IsStream tm rs
    → tm.tiers.ram_head ≤ tm.tiers.ssd_prefix
    → HeadFits rs.size tm.tiers.ram_head end
    → off + want ≤ rs.size
    → ((off + want ≤ max end rs.layout.ssd_bytes) × (is_some rs.hdd ≡ false))
      ⊎ ((is_some tm.hdd ≡ true) × (is_some rs.hdd ≡ true) × (end ≤ rs.layout.ssd_bytes))
unfolding three_layer
stream_ends tm rs end off want s h fits le =
    elim (layout_ends rs.size end tm.tiers (three_layer tm) h fits) [
      | inl (covers, empty) ↦ inl (
        rw s.layout (omega (arith, covers)),
        s.hdd ∙ ap (ltb 0) (ap (λ (l : ObjectLayout). l.hdd_bytes) s.layout ∙ empty),
      )
      | inr (more, three, short) ↦
          inr (three, ground (arith, s.hdd, more, s.layout), rw s.layout short)
    ]

plan_found-Filled :
    (tm : TierManager) (rs : ReadStream) (m : Option ObjectMeta) (off want : ℕ)
    → IsPool tm.ssd.drives
    → HddPool tm.hdd
    → IsStream tm rs
    → tm.tiers.ram_head ≤ tm.tiers.ssd_prefix
    → HeadFits rs.size tm.tiers.ram_head (ram_end m)
    → off + want ≤ rs.size
    → Filled (plan_found tm rs m off want) want
unfolding plan_found
plan_found-Filled tm rs m off want v hv s h fits le =
    let copied = copy_head tm m off want in
    let p : ReadPlan = record { total = length copied; segs = []; copied = copied } in
    let start : Filled p (max off (min (off + want) (ram_end m)) - off) = record {
      sum = length-copy_head tm m off want;
      fills = unfold Fills in length-copy_head tm m off want;
    } in
    plan_hdd-Filled (plan_ssd p tm rs off want (ram_end m)) tm.hdd rs rs.hdd off want (ram_end m) hv
      (stream_ends tm rs (ram_end m) off want s h fits le)
      (plan_ssd-Filled p tm rs off want (ram_end m) v start)

-- The plan of a stream, with a head that fits the size of the stream, fills the buffer up to the end of
-- the buffer or of the object.
pub plan-Filled :
    (tm : TierManager) (rs : ReadStream) (off room : ℕ)
    → IsPool tm.ssd.drives
    → HddPool tm.hdd
    → IsStream tm rs
    → tm.tiers.ram_head ≤ tm.tiers.ssd_prefix
    → HeadFits rs.size tm.tiers.ram_head (ram_end (lookup tm.index rs.digest))
    → Filled (plan tm rs off room) (min room (rs.size - off))
unfolding plan
plan-Filled tm rs off room v hv s h fits = elim (Bool-cases (leb rs.size off)) [
  | inl past ↦ rw past (
      subst (Filled no_plan) (ground (arith, past))
        (record { sum = refl; fills = unfold Fills in refl }))
  | inr inside ↦ rw inside (
      plan_found-Filled tm rs (lookup tm.index rs.digest) off (min room (rs.size - off)) v hv s h
        fits (ground (arith, inside)))
]
