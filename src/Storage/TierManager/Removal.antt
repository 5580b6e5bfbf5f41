-- ===== src/Storage/TierManager/Removal.antt =====
-- Removal (tier_manager.cpp): what `drop_object` and `remove` take out of the catalog.
use goblin_store.Prelude.{
  ite, if_pos, if_neg, none, [], ◌+◌, ◌≡◌, refl, arith, sym, subst, ◌∙◌, ap, Option-cases,
  Bool-cases, inl, inr, is_some,
}
use goblin_store.Crypto.Digest.{Digest}
use goblin_store.Storage.Index.{ObjectMeta, Index, lookup, contains, erase_key, size}
use goblin_store.Storage.Index.View.{dec, IsIndex}
use goblin_store.Storage.Index.Operations.{erases, run_op, act, run_op-Acts}
use goblin_store.Storage.Index.Counting.{present, size-run_op}
use goblin_store.Storage.Layout.{compute_layout}
use goblin_store.Storage.S3Fifo.{remove as remove_policy}
use goblin_store.Storage.TierManager.{
  TierManager, three_layer, release_head, drop_found, drop_object, remove,
}
use goblin_store.Storage.TierManager.Keeps.{release_head-Keeps, unlink_tiers-Keeps}

-- The state without a digest: the entries of the others, and the clocks and the bound.
pub record Without (d : Digest) (tm tm' : TierManager) : Type 0 where
  pub inv : IsIndex tm'.index
  pub entries : (j : Digest) → lookup tm'.index j ≡ ite (dec d j) none (lookup tm.index j)
  pub fewer : size tm'.index + present (lookup tm.index d) ≡ size tm.index
  pub max_objects : tm'.max_objects ≡ tm.max_objects
  pub any_ttl : tm'.any_ttl ≡ tm.any_ttl
  pub etag_seq : tm'.etag_seq ≡ tm.etag_seq

erase_key-entries :
    (ix : Index) (d : Digest)
    → IsIndex ix
    → IsIndex (erase_key ix d).0
      × (size (erase_key ix d).0 + present (lookup ix d) ≡ size ix)
      × ((j : Digest) → lookup (erase_key ix d).0 j ≡ ite (dec d j) none (lookup ix j))
unfolding run_op act
erase_key-entries ix d v =
    let a = run_op-Acts ix v d erases in
    (
      a.inv,
      elim (Option-cases (lookup ix d)) [
        | inl e ↦ ground (arith, size-run_op ix d erases v)
        | inr (m, e) ↦ ground (arith, size-run_op ix d erases v)
      ],
      λ j. elim (Option-cases (lookup ix d)) [
        | inl e ↦ ground (arith, a.entries j)
        | inr (m, e) ↦ ground (arith, a.entries j)
      ],
    )

-- The policy of the objects, and the catalog, after an object that is there is dropped.
pub drop_found-fields :
    (tm : TierManager) (d : Digest) (m : ObjectMeta)
    → ((drop_found tm d m).index ≡ (erase_key tm.index d).0)
      × ((drop_found tm d m).object_policy ≡ remove_policy tm.object_policy d)
      × ((drop_found tm d m).max_objects ≡ tm.max_objects)
      × ((drop_found tm d m).any_ttl ≡ tm.any_ttl)
      × ((drop_found tm d m).etag_seq ≡ tm.etag_seq)
unfolding drop_found
drop_found-fields tm d m =
    let tm1 = release_head tm d m.head in
    let k = release_head-Keeps tm d m.head in
    let tm2 : TierManager = record tm1 { object_policy = remove_policy tm1.object_policy d } in
    let l = compute_layout m.size tm.tiers (three_layer tm) in
    let u = unlink_tiers-Keeps tm2 d l [] in
    (
      ap (λ ix. (erase_key ix d).0) (u.index ∙ k.index),
      u.object_policy ∙ ap (λ p. remove_policy p d) k.object_policy,
      u.max_objects ∙ k.max_objects,
      u.any_ttl ∙ k.any_ttl,
      u.etag_seq ∙ k.etag_seq,
    )

drop_found-Without :
    (tm : TierManager) (d : Digest) (m : ObjectMeta)
    → IsIndex tm.index
    → Without d tm (drop_found tm d m)
drop_found-Without tm d m v =
    let f = drop_found-fields tm d m in
    let e = erase_key-entries tm.index d v in
    record {
      inv = subst IsIndex (sym f.0) e.0;
      entries = λ j. ap (λ ix. lookup ix j) f.0 ∙ e.2 j;
      fewer = ap (λ ix. size ix + present (lookup tm.index d)) f.0 ∙ e.1;
      max_objects = f.2;
      any_ttl = f.3;
      etag_seq = f.4;
    }

absent-Without :
    (tm : TierManager) (d : Digest) → IsIndex tm.index → lookup tm.index d ≡ none → Without d tm tm
absent-Without tm d v e = record {
  inv = v;
  entries = λ j. elim (dec d j) [
    | yes same ↦ rw (if_pos _ same, sym same, e) refl
    | no other ↦ rw (if_neg _ other) refl
  ];
  fewer = rw e (omega arith);
  max_objects = refl;
  any_ttl = refl;
  etag_seq = refl;
}

pub drop_object-Without :
    (tm : TierManager) (d : Digest) → IsIndex tm.index → Without d tm (drop_object tm d)
unfolding drop_object
drop_object-Without tm d v = elim (Option-cases (lookup tm.index d)) [
  | inl e ↦ rw (e, drop_object) (absent-Without tm d v e)
  | inr (m, e) ↦ rw (e, drop_object) (drop_found-Without tm d m v)
]

-- `remove` answers whether the object was there.
pub remove-Without :
    (tm : TierManager) (d : Digest)
    → IsIndex tm.index
    → Without d tm (remove tm d).0 × ((remove tm d).1 ≡ is_some (lookup tm.index d))
unfolding remove
remove-Without tm d v =
    let found : contains tm.index d ≡ is_some (lookup tm.index d) =
      unfold contains lookup in refl in
    let w = drop_object-Without tm d v in
    elim (Bool-cases (contains tm.index d)) [
      | inl here ↦ rw here (w, sym here ∙ found)
      | inr gone ↦ rw gone (absent-Without tm d v (ground arith), sym gone ∙ found)
    ]
