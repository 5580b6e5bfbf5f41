-- ===== src/Storage/Index/Operations.antt =====
-- The sharded index (storage/index.cpp) behaves as one map from digests to metadata.
use goblin_store.Prelude.{
  ℕ, Bool, true, false, ite, Option, none, some, ◌≡◌, refl, arith, ap, Option-cases, inl, inr,
}
use goblin_store.Prelude.Assoc.{
  find, insert, erase, find-insert, find-erase, insert-IsMap, erase-IsMap,
}
use goblin_store.Crypto.Digest.{Digest}
use goblin_store.Storage.Index.{
  HeadLoc, ObjectMeta, Index, shard_index, shard_for, put_shard, lookup, set_meta, add, replace,
  erase_key, set_head, update_expiry,
}
use goblin_store.Storage.Index.View.{
  dec, IsIndex, shard_for-put_shard, put_shard-IsIndex, shard_for-IsMap, shard_for-placed,
  shard_for_same,
}

module _ (ix : Index) (v : IsIndex ix) (d : Digest) where
  -- Writing an entry of the digest's shard is writing the map.
  store-IsIndex : (m : ObjectMeta) → IsIndex (put_shard ix d (insert dec d m (shard_for ix d)))
  store-IsIndex m =
      put_shard-IsIndex ix v d (insert dec d m (shard_for ix d))
        (insert-IsMap dec d m (shard_for ix d) (shard_for-IsMap ix v d))
        (λ j n h.
          ground (arith, find-insert dec j d m (shard_for ix d), shard_for-placed ix v d j n))

  lookup_store :
      (m : ObjectMeta) (j : Digest)
      → lookup (put_shard ix d (insert dec d m (shard_for ix d))) j
        ≡ ite (dec d j) (some m) (lookup ix j)
  unfolding lookup
  lookup_store m j = ground (
    arith,
    shard_for-put_shard ix v d j (insert dec d m (shard_for ix d)),
    find-insert dec j d m (shard_for ix d),
    shard_for_same ix v d j,
    ap (shard_index ix) {x = d} {y = j},
  )

  erased-IsIndex : IsIndex (put_shard ix d (erase dec d (shard_for ix d)))
  erased-IsIndex =
      put_shard-IsIndex ix v d (erase dec d (shard_for ix d))
        (erase-IsMap dec d (shard_for ix d) (shard_for-IsMap ix v d))
        (λ j n h. ground (
          arith,
          find-erase dec j d (shard_for ix d) (shard_for-IsMap ix v d),
          shard_for-placed ix v d j n,
        ))

  lookup_erased :
      (j : Digest)
      → lookup (put_shard ix d (erase dec d (shard_for ix d))) j ≡ ite (dec d j) none (lookup ix j)
  unfolding lookup
  lookup_erased j = ground (
    arith,
    shard_for-put_shard ix v d j (erase dec d (shard_for ix d)),
    find-erase dec j d (shard_for ix d) (shard_for-IsMap ix v d),
    shard_for_same ix v d j,
    ap (shard_index ix) {x = d} {y = j},
  )

-- The operations that change the index, for a digest.
pub data Op : Type 0 where
  sets adds replaces : ObjectMeta → Op
  erases : Op
  sets_head : HeadLoc → Op
  updates_expiry : ℕ → Op

unfoldable pub run_op : Index → Digest → Op → Index × Bool
run_op ix d (sets m) = (set_meta ix d m, true)
run_op ix d (adds m) = add ix d m
run_op ix d (replaces m) = replace ix d m
run_op ix d erases = erase_key ix d
run_op ix d (sets_head loc) = set_head ix d loc
run_op ix d (updates_expiry e) = update_expiry ix d e

-- The contract: what the operation makes of the entry of its digest, and what it returns.
unfoldable pub act : Op → Option ObjectMeta → Option ObjectMeta × Bool
act (sets m) old = (some m, true)
act (adds m) none = (some m, true)
act (adds m) (some old) = (some old, false)
act (replaces m) none = (none, false)
act (replaces m) (some old) = (some m, true)
act erases none = (none, false)
act erases (some old) = (none, true)
act (sets_head loc) none = (none, false)
act (sets_head loc) (some old) = (some (record old { head = loc }), true)
act (updates_expiry e) none = (none, false)
act (updates_expiry e) (some old) = (some (record old { expiry = e }), true)

-- The index after an operation: its invariant, what it answered, and every entry.
pub record Acts (ix : Index) (d : Digest) (op : Op) (r : Index × Bool) : Type 0 where
  pub inv : IsIndex r.0
  pub answer : r.1 ≡ (act op (lookup ix d)).1
  pub entries : (j : Digest) → lookup r.0 j ≡ ite (dec d j) (act op (lookup ix d)).0 (lookup ix j)

module _ (ix : Index) (v : IsIndex ix) (d : Digest) where
  unchanged : (op : Op) → act op (lookup ix d) ≡ (lookup ix d, false) → Acts ix d op (ix, false)
  unchanged op e = record { inv = v; answer = ground arith; entries = λ j. ground arith }

  stored :
      (op : Op) (m : ObjectMeta)
      → act op (lookup ix d) ≡ (some m, true)
      → Acts ix d op (put_shard ix d (insert dec d m (shard_for ix d)), true)
  stored op m e = record {
    inv = store-IsIndex ix v d m;
    answer = ground arith;
    entries = λ j. ground (arith, lookup_store ix v d m j);
  }

  lookup_shard : lookup ix d ≡ find dec d (shard_for ix d)
  unfolding lookup
  lookup_shard = refl

  -- The index is one map: on an index with its invariant, set, add, replace, erase, set_head and
  -- update_expiry keep the invariant, answer as the contract says, give their digest the entry that
  -- the contract says, and leave the entry of every other digest.
  pub run_op-Acts : (op : Op) → Acts ix d op (run_op ix d op)
  unfolding run_op set_meta add replace erase_key set_head update_expiry act
  run_op-Acts (sets m) = stored (sets m) m refl
  run_op-Acts (adds m) = elim (Option-cases (find dec d (shard_for ix d))) [
    | inl e ↦ rw (e, add) (stored (adds m) m (rw (lookup_shard, e)))
    | inr (old, e) ↦ rw (e, add) (unchanged (adds m) (rw (lookup_shard, e)))
  ]
  run_op-Acts (replaces m) = elim (Option-cases (find dec d (shard_for ix d))) [
    | inl e ↦ rw (e, replace) (unchanged (replaces m) (rw (lookup_shard, e)))
    | inr (old, e) ↦ rw (e, replace) (stored (replaces m) m (rw (lookup_shard, e)))
  ]
  run_op-Acts erases = elim (Option-cases (find dec d (shard_for ix d))) [
    | inl e ↦ rw (e, erase_key) (unchanged erases (rw (lookup_shard, e)))
    | inr (old, e) ↦
        rw (e, erase_key)
          (record {
            inv = erased-IsIndex ix v d;
            answer = rw (lookup_shard, e);
            entries = λ j. rw (lookup_erased ix v d j, lookup_shard, e);
          })
  ]
  run_op-Acts (sets_head loc) = elim (Option-cases (find dec d (shard_for ix d))) [
    | inl e ↦ rw (e, set_head) (unchanged (sets_head loc) (rw (lookup_shard, e)))
    | inr (old, e) ↦
        rw (e, set_head) (stored (sets_head loc) (record old { head = loc }) (rw (lookup_shard, e)))
  ]
  run_op-Acts (updates_expiry t) = elim (Option-cases (find dec d (shard_for ix d))) [
    | inl e ↦ rw (e, update_expiry) (unchanged (updates_expiry t) (rw (lookup_shard, e)))
    | inr (old, e) ↦
        rw (e, update_expiry)
          (stored (updates_expiry t) (record old { expiry = t }) (rw (lookup_shard, e)))
  ]
