-- ===== src/Storage/TierManager/Writes/Evicting.antt =====
-- The eviction of a head (tier_manager.cpp, `begin_store`): what it leaves of the catalog.
use goblin_store.Prelude.{
  ℕ, ◌<◌, true, ltb, leb, some, List, ◌≡◌, refl, arith, sym, ap, ◌∙◌, inl, inr, Bool-cases,
  Option-cases, ℕ_discrete,
}
use goblin_store.Prelude.Assoc.{find}
use goblin_store.Core.BufferPool.{BufferPool}
use goblin_store.Crypto.Digest.{Digest}
use goblin_store.Storage.Index.{
  Index, ObjectMeta, no_head, is_resident, lookup, set_head, erase_key,
}
use goblin_store.Storage.Index.View.{dec, IsIndex}
use goblin_store.Storage.Index.Operations.{erases, sets_head, run_op, act, run_op-Acts}
use goblin_store.Storage.S3Fifo.Invariant.{Inv}
use goblin_store.Storage.TierManager.{
  TierManager, RegionPin, region_id, free_ram, orphan, free_head_region,
}
use goblin_store.Storage.TierManager.Writes.{evict_object, evict_resident, evict_head}

-- An entry but for where its head is.
unfoldable pub without_head : ObjectMeta → ObjectMeta
without_head m = record m { head = no_head }

-- The entry of an object that a head has no room for is as before, but for the head.
unfoldable pub Remains : Index → Digest → ObjectMeta → Type 0
Remains ix' j m = (n : ObjectMeta) × (lookup ix' j ≡ some n) × (without_head n ≡ without_head m)

-- The state after heads were evicted.
pub record Evicted (tm tm' : TierManager) : Type 0 where
  pub inv : IsIndex tm'.index
  pub policy : Inv tm'.policy
  pub tiers : tm'.tiers ≡ tm.tiers
  pub kept :
      (j : Digest) (m : ObjectMeta)
      → lookup tm.index j ≡ some m
      → tm.tiers.ram_head < m.size
      → Remains tm'.index j m

pub Evicted-refl :
    (tm tm' : TierManager)
    → tm'.index ≡ tm.index
    → tm'.tiers ≡ tm.tiers
    → IsIndex tm.index
    → Inv tm'.policy
    → Evicted tm tm'
unfolding Remains
Evicted-refl tm tm' e f v p = record {
  inv = rw e v;
  policy = p;
  tiers = f;
  kept = λ j m here large. (m, rw e here, refl);
}

pub Evicted-trans : (a b c : TierManager) → Evicted a b → Evicted b c → Evicted a c
unfolding Remains without_head
Evicted-trans a b c k l = record {
  inv = l.inv;
  policy = l.policy;
  tiers = l.tiers ∙ k.tiers;
  kept = λ j m here large.
      let (n, there, same) = k.kept j m here large in
      let size : n.size ≡ m.size = ap (λ (x : ObjectMeta). x.size) same in
      let (o, at, same') = l.kept j n there (rw (k.tiers, size) large) in (o, at, same' ∙ same);
}

-- Freeing a region touches memory and pins.
free_head_region-state :
    (tm : TierManager) (block offset len : ℕ)
    → (ram : BufferPool) × (pins : List (ℕ × RegionPin)) × (free_head_region tm block offset len
        ≡ record tm { ram = ram; pins = pins })
unfolding free_head_region free_ram orphan
free_head_region-state tm b o l = elim (Option-cases (find ℕ_discrete (region_id b o) tm.pins)) [
  | inl e ↦ rw (e, free_head_region) (_, _, refl)
  | inr (p, e) ↦
      rw (e, free_head_region)
        (elim (Bool-cases (ltb 0 p.refcount)) [
          | inl busy ↦ rw busy (_, _, refl)
          | inr idle ↦ rw idle (_, _, refl)
        ])
]

-- A state whose index has one entry changed.
erased-Evicted :
    (tm tm' : TierManager) (d : Digest) (m : ObjectMeta)
    → IsIndex tm.index
    → Inv tm'.policy
    → lookup tm.index d ≡ some m
    → leb m.size tm.tiers.ram_head ≡ true
    → tm'.tiers ≡ tm.tiers
    → tm'.index ≡ (erase_key tm.index d).0
    → Evicted tm tm'
unfolding Remains run_op act
erased-Evicted tm tm' d m v p here small f e =
    let a = run_op-Acts tm.index v d erases in
    record {
      inv = rw e a.inv;
      policy = p;
      tiers = f;
      kept = λ j n there large. elim (dec d j) [
        | yes same ↦ absurd (ground (arith, ap (lookup tm.index) same))
        | no other ↦ (n, rw e (ground (arith, a.entries j)), refl)
      ];
    }

headless-Evicted :
    (tm tm' : TierManager) (d : Digest) (m : ObjectMeta)
    → IsIndex tm.index
    → Inv tm'.policy
    → lookup tm.index d ≡ some m
    → tm'.tiers ≡ tm.tiers
    → tm'.index ≡ (set_head tm.index d no_head).0
    → Evicted tm tm'
unfolding Remains run_op act without_head
headless-Evicted tm tm' d m v p here f e =
    let a = run_op-Acts tm.index v d (sets_head no_head) in
    record {
      inv = rw e a.inv;
      policy = p;
      tiers = f;
      kept = λ j n there large. elim (dec d j) [
        | yes same ↦
            let found : some m ≡ some n = sym here ∙ ap (lookup tm.index) same ∙ there in
            let it : m ≡ n = cc in
            (
              record m { head = no_head },
              rw e (ground (arith, a.entries j, here)),
              ap without_head it,
            )
        | no other ↦ (n, rw e (ground (arith, a.entries j)), refl)
      ];
    }

evict_resident-Evicted :
    (tm : TierManager) (d : Digest) (m : ObjectMeta)
    → IsIndex tm.index
    → Inv tm.policy
    → lookup tm.index d ≡ some m
    → Evicted tm (evict_resident tm d m)
unfolding evict_resident evict_object
evict_resident-Evicted tm d m v p here =
    let (ram, pins, s) = free_head_region-state tm m.head.block m.head.offset m.head.len in
    let tm1 : TierManager = record tm { ram = ram; pins = pins } in
    elim (Bool-cases (leb m.size tm.tiers.ram_head)) [
      | inl small ↦
          rw (small, s) (erased-Evicted tm (evict_object tm1 d) d m v p here small refl refl)
      | inr large ↦
          rw (large, s)
            (headless-Evicted tm (record tm1 { index = (set_head tm.index d no_head).0 }) d m v p
              here refl refl)
    ]

pub evict_head-Evicted :
    (tm : TierManager) (d : Digest)
    → IsIndex tm.index
    → Inv tm.policy
    → Evicted tm (evict_head tm d)
unfolding evict_head
evict_head-Evicted tm d v p = elim (Option-cases (lookup tm.index d)) [
  | inl gone ↦ rw (gone, evict_head) (Evicted-refl tm tm refl refl v p)
  | inr (m, here) ↦
      rw (here, evict_head)
        (elim (Bool-cases (is_resident m.head)) [
          | inl head ↦ rw head (evict_resident-Evicted tm d m v p here)
          | inr headless ↦ rw headless (Evicted-refl tm tm refl refl v p)
        ])
]

pub evict_head-policy : (tm : TierManager) (d : Digest) → (evict_head tm d).policy ≡ tm.policy
unfolding evict_head evict_resident evict_object
evict_head-policy tm d = elim (Option-cases (lookup tm.index d)) [
  | inl gone ↦ rw (gone, evict_head) refl
  | inr (m, here) ↦
      rw (here, evict_head)
        (elim (Bool-cases (is_resident m.head)) [
          | inr headless ↦ rw headless refl
          | inl head ↦
              let (ram, pins, s) =
                free_head_region-state tm m.head.block m.head.offset m.head.len in
              rw head (elim (Bool-cases (leb m.size tm.tiers.ram_head)) [
                | inl small ↦ rw (small, s) refl
                | inr large ↦ rw (large, s) refl
              ])
        ])
]
