-- ===== src/Storage/TierManager/Bound.antt =====
-- The bound on the objects (tier_manager.cpp): `enforce_object_bound` ends within it.
use goblin_store.Prelude.{
  ℕ, zero, suc, ◌≤◌, ◌<◌, ◌+◌, min, true, false, none, some, List, [], ◌∷◌, length, get_or, ◌≡◌,
  ◌≢◌, refl, arith, ◌∙◌, ap, Option-cases, Bool-cases, inl, inr, is_some, dec_lt,
}
use goblin_store.Prelude.Assoc.{find}
use goblin_store.Crypto.Digest.{Digest}
use goblin_store.Storage.Index.{
  ObjectMeta, Shard, Index, lookup, size, sizes, shard_for, shard_index,
}
use goblin_store.Storage.Index.View.{dec, IsIndex}
use goblin_store.Storage.S3Fifo.{S3Fifo, Entry, evict, resident, contains as tracks}
use goblin_store.Storage.S3Fifo.Invariant.{Inv}
use goblin_store.Storage.S3Fifo.Admission.{remove-Inv}
use goblin_store.Storage.S3Fifo.Residents.{contains_after}
use goblin_store.Storage.S3Fifo.Eviction.{Evicts, evict-Evicts}
use goblin_store.Storage.S3Fifo.Rounds.{Lost}
use goblin_store.Storage.S3Fifo.Runs.{length-remove}
use goblin_store.Storage.TierManager.{
  TierManager, drop_object, over_bound, bound_loop, enforce_object_bound,
}
use goblin_store.Storage.TierManager.Removal.{drop_object-Without, drop_found-fields}

sizes_empty : (ss : List Shard) → ((i : ℕ) → get_or ss i [] ≡ []) → sizes ss ≡ 0
unfolding sizes
sizes_empty [] h = refl
sizes_empty (s ∷ ss) h =
    omega (arith, ap (λ (t : Shard). length t) (h 0), sizes_empty ss (λ i. h (suc i)))

found_first : (d : Digest) (m : ObjectMeta) (s : Shard) → find dec d ((d, m) ∷ s) ≡ some m
unfolding find
found_first d m s = ground arith

module _ (ix : Index) (v : IsIndex ix) (empty : (d : Digest) → lookup ix d ≡ none) where
  shard_empty : (i : ℕ) (s : Shard) → get_or ix.shards i [] ≡ s → get_or ix.shards i [] ≡ []
  unfolding lookup shard_for
  shard_empty i [] e = e
  shard_empty i ((d, m) ∷ s) e =
      let here : find dec d (get_or ix.shards i []) ≡ some m =
        ap (find dec d) e ∙ found_first d m s in
      let at : shard_index ix d ≡ i = v.placed i d m here in
      let there : lookup ix d ≡ some m = rw at here in absurd (cc (empty d))

  -- An index that finds nothing is empty.
  size_empty : size ix ≡ 0
  unfolding size
  size_empty = sizes_empty ix.shards (λ i. shard_empty i (get_or ix.shards i []) refl)

-- The policy knows every object.
unfoldable pub IsTracked : TierManager → Type 0
IsTracked tm = (d : Digest) → is_some (lookup tm.index d) ≡ true → tracks tm.object_policy d ≡ true

-- The policy after an object is dropped.
record Dropped (d : Digest) (s t : S3Fifo) : Type 0 where
  inv : Inv t
  others : (j : Digest) → d ≢ j → tracks t j ≡ tracks s j
  size : length t.meta ≤ length s.meta

drop_object-Dropped :
    (tm : TierManager) (d : Digest)
    → Inv tm.object_policy
    → Dropped d tm.object_policy (drop_object tm d).object_policy
unfolding drop_object
drop_object-Dropped tm d v = elim (Option-cases (lookup tm.index d)) [
  | inl e ↦ rw (e, drop_object) (record { inv = v; others = λ j other. refl; size = omega arith })
  | inr (m, e) ↦
      rw (e, drop_object)
        (rw ((drop_found-fields tm d m).1) (record {
          inv = remove-Inv tm.object_policy d v;
          others = λ j other. ground (arith, contains_after tm.object_policy d j v);
          size = length-remove tm.object_policy d;
        }))
]

-- What the bound leaves.
pub record Bounded (tm tm' : TierManager) : Type 0 where
  pub inv : IsIndex tm'.index
  pub policy : Inv tm'.object_policy
  pub tracked : IsTracked tm'
  -- With a bound the objects beyond it are gone and no more; with none nothing is.
  pub bounded : 0 < tm.max_objects → size tm'.index ≡ min (size tm.index) tm.max_objects
  pub unbounded : tm.max_objects ≡ 0 → size tm'.index ≡ size tm.index
  pub kept :
      (j : Digest) (m : ObjectMeta) → lookup tm'.index j ≡ some m → lookup tm.index j ≡ some m
  pub max_objects : tm'.max_objects ≡ tm.max_objects
  pub etag_seq : tm'.etag_seq ≡ tm.etag_seq
  pub any_ttl : tm'.any_ttl ≡ tm.any_ttl

nothing_found : (m : List (Digest × Entry)) (d : Digest) → length m ≡ 0 → find dec d m ≡ none
unfolding find
nothing_found [] d e = refl
nothing_found (x ∷ m) d e = absurd (omega arith)

-- With nothing left in the policy, there is no object, and so no more than the bound.
nothing_over :
    (tm : TierManager)
    → IsIndex tm.index
    → IsTracked tm
    → length tm.object_policy.meta ≡ 0
    → over_bound tm ≡ false
unfolding IsTracked tracks over_bound
nothing_over tm v tracked e =
    let empty : (d : Digest) → lookup tm.index d ≡ none = λ d.
      elim (Option-cases (lookup tm.index d)) [
        | inl gone ↦ gone
        | inr (m, here) ↦
            absurd (ground (arith, tracked d, nothing_found tm.object_policy.meta d e))
      ] in
    let none_left = size_empty tm.index v empty in ground arith

-- One round: a digest leaves the policy, and then the catalog.
record Round (tm : TierManager) (tm' : TierManager) : Type 0 where
  inv : IsIndex tm'.index
  policy : Inv tm'.object_policy
  tracked : IsTracked tm'
  one : size tm.index ≤ size tm'.index + 1
  count : size tm'.index ≤ size tm.index
  fewer : length tm'.object_policy.meta < length tm.object_policy.meta
  kept : (j : Digest) (m : ObjectMeta) → lookup tm'.index j ≡ some m → lookup tm.index j ≡ some m
  max_objects : tm'.max_objects ≡ tm.max_objects
  etag_seq : tm'.etag_seq ≡ tm.etag_seq
  any_ttl : tm'.any_ttl ≡ tm.any_ttl

drop_victim-Round :
    (tm : TierManager) (p : S3Fifo) (d : Digest)
    → IsIndex tm.index
    → IsTracked tm
    → Lost tm.object_policy d p
    → Round tm (drop_object (record tm { object_policy = p }) d)
unfolding IsTracked
drop_victim-Round tm p d v tracked lost =
    let tm' : TierManager = record tm { object_policy = p } in
    let w = drop_object-Without tm' d v in
    let q = drop_object-Dropped tm' d lost.inv in
    record {
      inv = w.inv;
      policy = q.inv;
      tracked = λ j here. elim (dec d j) [
        | yes same ↦ absurd (ground (arith, w.entries j))
        | no other ↦ ground (arith, w.entries j, q.others j other, lost.lost j, tracked j)
      ];
      one = elim (Option-cases (lookup tm.index d)) [
        | inl gone ↦ ground (arith, w.fewer)
        | inr (m, here) ↦ ground (arith, w.fewer)
      ];
      count = omega (arith, w.fewer);
      fewer = omega (arith, q.size, lost.size);
      kept = λ j m here. ground (arith, w.entries j);
      max_objects = w.max_objects;
      etag_seq = w.etag_seq;
      any_ttl = w.any_ttl;
    }

bound_loop-Bounded :
    (fuel : ℕ) (tm : TierManager)
    → IsIndex tm.index
    → Inv tm.object_policy
    → IsTracked tm
    → length tm.object_policy.meta < fuel
    → Bounded tm (bound_loop fuel tm)
unfolding bound_loop Evicts over_bound
bound_loop-Bounded zero tm v p tracked enough = absurd (omega arith)
bound_loop-Bounded (suc fuel) tm v p tracked enough = elim (Bool-cases (over_bound tm)) [
  | inr within ↦ rw within (record {
    inv = v;
    policy = p;
    tracked = tracked;
    bounded = λ some_bound. ground (arith, within);
    unbounded = λ none_set. refl;
    kept = λ j m here. here;
    max_objects = refl;
    etag_seq = refl;
    any_ttl = refl;
  })
  | inl over ↦ elim (dec_lt 0 (length tm.object_policy.meta)) [
    | no empty ↦ absurd (ground (arith, nothing_over tm v tracked (omega arith)))
    | yes some_left ↦
        let (d, told, lost) = evict-Evicts tm.object_policy p (unfold resident in some_left) in
        let next = drop_object (record tm { object_policy = (evict tm.object_policy).0 }) d in
        let r = drop_victim-Round tm (evict tm.object_policy).0 d v tracked lost in
        let b = bound_loop-Bounded fuel next r.inv r.policy r.tracked (omega (arith, r.fewer)) in
        rw (over, told)
          (record {
            inv = b.inv;
            policy = b.policy;
            tracked = b.tracked;
            bounded = λ some_bound. ground (arith, over, b.bounded, r.count, r.one, r.max_objects);
            unbounded = λ none_set. ground (arith, over);
            kept = λ j m here. r.kept j m (b.kept j m here);
            max_objects = b.max_objects ∙ r.max_objects;
            etag_seq = b.etag_seq ∙ r.etag_seq;
            any_ttl = b.any_ttl ∙ r.any_ttl;
          })
  ]
]

-- On an index and an object policy with their invariants, where the policy knows every object:
-- `enforce_object_bound` ends, with as many objects as before or as the bound says, whichever is less, and
-- with as many as before where there is no bound. The objects that are left have the entries that they
-- had, and the invariants and the tracking hold.
pub enforce_object_bound-Bounded :
    (tm : TierManager)
    → IsIndex tm.index
    → Inv tm.object_policy
    → IsTracked tm
    → Bounded tm (enforce_object_bound tm)
unfolding enforce_object_bound
enforce_object_bound-Bounded tm v p tracked =
    bound_loop-Bounded (suc (length tm.object_policy.meta)) tm v p tracked (omega arith)
