-- ===== src/Storage/TierManager/Writes/Room.antt =====
-- Room for the head of a new object (tier_manager.cpp, `begin_store`): heads are evicted until there is a
-- region, or no head is left.
use goblin_store.Prelude.{
  ℕ, zero, suc, ◌<◌, ◌%◌, true, ltb, Option, none, some, length, ◌≡◌, refl, arith, sym, ap, subst,
  ◌⊎◌, inl, inr, Option-cases, dec_lt,
}
use goblin_store.Common.Types.{u32}
use goblin_store.Core.BufferPool.{Region, allocate_region}
use goblin_store.Crypto.Digest.{Digest}
use goblin_store.Storage.Index.View.{IsIndex}
use goblin_store.Storage.S3Fifo.{S3Fifo, evict, resident}
use goblin_store.Storage.S3Fifo.Invariant.{Inv}
use goblin_store.Storage.S3Fifo.Eviction.{Evicts, evict-Evicts, evict_empty}
use goblin_store.Storage.TierManager.{TierManager}
use goblin_store.Storage.TierManager.Writes.{evict_head, try_allocate, room_loop, reserve_head}
use goblin_store.Storage.TierManager.Writes.Evicting.{
  Evicted, Evicted-refl, Evicted-trans, evict_head-Evicted, evict_head-policy,
}

-- There is a region, or no head is left to evict.
unfoldable pub Settles : TierManager × Option Region → Type 0
Settles r = ((g : Region) × (r.1 ≡ some g)) ⊎ ((r.1 ≡ none) × (resident r.0.policy ≡ 0))

room_loop-Evicted :
    (fuel : ℕ) (tm : TierManager) (len : ℕ)
    → IsIndex tm.index
    → Inv tm.policy
    → length tm.policy.meta < fuel
    → Evicted tm (room_loop fuel tm len).0 × Settles (room_loop fuel tm len)
unfolding room_loop try_allocate Settles Evicts resident
room_loop-Evicted zero tm len v p enough = absurd (omega arith)
room_loop-Evicted (suc fuel) tm len v p enough =
    let a = allocate_region tm.ram len in
    let tm1 : TierManager = record tm { ram = a.0 } in
    elim (Option-cases a.1) [
      | inr (g, got) ↦ rw (got, room_loop) (Evicted-refl tm tm1 refl refl v p, inl (g, refl))
      | inl full ↦ elim (dec_lt 0 (length tm.policy.meta)) [
        | no none_left ↦
            let e = evict_empty tm.policy p (unfold resident in omega arith) in
            let tm2 : TierManager = record tm1 { policy = (evict tm.policy).0 } in
            let left : (evict tm.policy).0 ≡ tm.policy =
              ap (λ (x : S3Fifo × Option Digest). x.0) e in
            let told : (evict tm.policy).1 ≡ none = ap (λ (x : S3Fifo × Option Digest). x.1) e in
            rw (full, room_loop, told)
              (
                Evicted-refl tm tm2 refl refl v (subst Inv (sym left) p),
                inr (refl, rw left (omega arith)),
              )
        | yes some_left ↦
            let (d, told, lost) = evict-Evicts tm.policy p some_left in
            let tm2 : TierManager = record tm1 { policy = (evict tm.policy).0 } in
            let k = evict_head-Evicted tm2 d v lost.inv in
            let same = evict_head-policy tm2 d in
            let rest =
              room_loop-Evicted fuel (evict_head tm2 d) len k.inv k.policy
                (rw same (omega (arith, lost.size))) in
            let first = Evicted-refl tm tm2 refl refl v lost.inv in
            rw (full, room_loop, told)
              (
                Evicted-trans tm (evict_head tm2 d) _
                    (Evicted-trans tm tm2 (evict_head tm2 d) first k) rest.0,
                rest.1,
              )
      ]
    ]

-- On an index and a head policy with their invariants: making room for a head ends, with a region or
-- with no head left to evict. The invariants hold, and every object that is larger than a head, so that
-- a disk has it, keeps its entry but for the head.
pub reserve_head-Settles :
    (tm : TierManager) (head_len : ℕ)
    → IsIndex tm.index
    → Inv tm.policy
    → 0 < head_len
    → Evicted tm (reserve_head tm head_len).0 × Settles (reserve_head tm head_len)
unfolding reserve_head
reserve_head-Settles tm head_len v p some_bytes =
    let asked : ltb 0 head_len ≡ true = ground arith in
    rw (asked, reserve_head)
      (room_loop-Evicted (suc (length tm.policy.meta)) tm (head_len % u32) v p (omega arith))
