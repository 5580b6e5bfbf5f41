-- ===== src/Storage/Index/Counting.antt =====
-- `size`, `clear` and `expired_keys` of storage/index.cpp, over all shards.
use goblin_store.Prelude.{
  ℕ, zero, suc, ◌+◌, ◌<◌, Bool, true, false, ◌||◌, Option, none, some, List, [], ◌∷◌, ◌++◌, length,
  get_or, set, ◌≡◌, ◌↔◌, refl, sym, ap, ◌∙◌, arith, Bool-cases, Option-cases, inl, inr,
}
use goblin_store.Prelude.Assoc.{
  member, find, insert, erase, IsMap, length-insert_new, length-insert_old, length-erase,
}
use goblin_store.Crypto.Digest.{Digest}
use goblin_store.Storage.Index.{
  ObjectMeta, Shard, Index, is_expired, shard_index, shard_for, put_shard, lookup, sizes, size,
  clear_shards, clear, expired_in, expired_of, expired_keys, set_meta, add, replace, erase_key,
  set_head, update_expiry,
}
use goblin_store.Storage.Index.View.{dec, IsIndex, shard_index-lt, shard_for-IsMap}
use goblin_store.Storage.Index.Operations.{
  Op, sets, adds, replaces, erases, sets_head, updates_expiry, run_op, act,
}

abbrev pub present : Option ObjectMeta → ℕ
present none = 0
present (some m) = 1

sizes-set :
    (ss : List Shard) (i : ℕ) (map : Shard)
    → i < length ss
    → sizes (set ss i map) + length (get_or ss i []) ≡ sizes ss + length map
unfolding sizes
sizes-set [] i map h = absurd (omega arith)
sizes-set (s ∷ ss) zero map h = omega arith
sizes-set (s ∷ ss) (suc i) map h = omega (arith, sizes-set ss i map (omega arith))

size-put_shard :
    (ix : Index) (d : Digest) (map : Shard)
    → IsIndex ix
    → size (put_shard ix d map) + length (shard_for ix d) ≡ size ix + length map
unfolding size put_shard shard_for
size-put_shard ix d map v = sizes-set ix.shards (shard_index ix d) map (shard_index-lt ix v d)

module _ (ix : Index) (d : Digest) (m : ObjectMeta) where
  size-store_new :
      IsIndex ix
      → find dec d (shard_for ix d) ≡ none
      → size (put_shard ix d (insert dec d m (shard_for ix d))) + 0 ≡ size ix + 1
  size-store_new v e = omega (
    arith,
    size-put_shard ix d (insert dec d m (shard_for ix d)) v,
    length-insert_new dec d m (shard_for ix d) e,
  )

  size-store_old :
      (old : ObjectMeta)
      → IsIndex ix
      → find dec d (shard_for ix d) ≡ some old
      → size (put_shard ix d (insert dec d m (shard_for ix d))) + 1 ≡ size ix + 1
  size-store_old old v e = omega (
    arith,
    size-put_shard ix d (insert dec d m (shard_for ix d)) v,
    length-insert_old dec d m old (shard_for ix d) e,
  )

-- On an index with its invariant, an operation changes `size` by what the contract makes of its
-- digest's entry: by one more where an entry appears, one less where it goes, and else not.
pub size-run_op :
    (ix : Index) (d : Digest) (op : Op)
    → IsIndex ix
    → size (run_op ix d op).0 + present (lookup ix d) ≡ size ix + present (act op (lookup ix d)).0
unfolding run_op set_meta add replace erase_key set_head update_expiry act lookup
size-run_op ix d (sets m) v = elim (Option-cases (find dec d (shard_for ix d))) [
  | inl e ↦ rw e (size-store_new ix d m v e)
  | inr (old, e) ↦ rw e (size-store_old ix d m old v e)
]
size-run_op ix d (adds m) v = elim (Option-cases (find dec d (shard_for ix d))) [
  | inl e ↦ rw (e, add) (size-store_new ix d m v e)
  | inr (old, e) ↦ rw (e, add) refl
]
size-run_op ix d (replaces m) v = elim (Option-cases (find dec d (shard_for ix d))) [
  | inl e ↦ rw (e, replace) refl
  | inr (old, e) ↦ rw (e, replace) (size-store_old ix d m old v e)
]
size-run_op ix d erases v = elim (Option-cases (find dec d (shard_for ix d))) [
  | inl e ↦ rw (e, erase_key) refl
  | inr (old, e) ↦
      rw (e, erase_key)
        (omega (
          arith,
          size-put_shard ix d (erase dec d (shard_for ix d)) v,
          length-erase dec d old (shard_for ix d) e,
        ))
]
size-run_op ix d (sets_head loc) v = elim (Option-cases (find dec d (shard_for ix d))) [
  | inl e ↦ rw (e, set_head) refl
  | inr (old, e) ↦ rw (e, set_head) (size-store_old ix d (record old { head = loc }) old v e)
]
size-run_op ix d (updates_expiry t) v = elim (Option-cases (find dec d (shard_for ix d))) [
  | inl e ↦ rw (e, update_expiry) refl
  | inr (old, e) ↦ rw (e, update_expiry) (size-store_old ix d (record old { expiry = t }) old v e)
]

clear_shards-empty : (ss : List Shard) (i : ℕ) → get_or (clear_shards ss) i [] ≡ []
unfolding clear_shards
clear_shards-empty [] i = refl
clear_shards-empty (s ∷ ss) zero = refl
clear_shards-empty (s ∷ ss) (suc i) = clear_shards-empty ss i

sizes-clear_shards : (ss : List Shard) → sizes (clear_shards ss) ≡ 0
unfolding sizes clear_shards
sizes-clear_shards [] = refl
sizes-clear_shards (s ∷ ss) = omega (arith, sizes-clear_shards ss)

-- After `clear`, no digest has an entry and the size is 0.
pub lookup-clear : (ix : Index) (d : Digest) → (lookup (clear ix) d ≡ none) × (size (clear ix) ≡ 0)
unfolding clear lookup size shard_for find
lookup-clear ix d = (
  ap (find dec d) (clear_shards-empty ix.shards (shard_index (clear ix) d)),
  sizes-clear_shards ix.shards,
)

no_member : (d : Digest) → member dec d [] ≡ true → ⊥
unfolding member
no_member d h = cc

member-append_lists :
    (j : Digest) (xs ys : List Digest)
    → member dec j (xs ++ ys) ≡ (member dec j xs || member dec j ys)
unfolding member
member-append_lists j [] ys = refl
member-append_lists j (x ∷ xs) ys = ground (arith, member-append_lists j xs ys)

abbrev pub expired_entry : ℕ → Option ObjectMeta → Bool
expired_entry now none = false
expired_entry now (some m) = is_expired m now

member-expired_in :
    (now : ℕ) (s : Shard) (d : Digest)
    → IsMap dec s
    → member dec d (expired_in now s) ≡ expired_entry now (find dec d s)
unfolding expired_in find member
member-expired_in now [] d v = refl
member-expired_in now ((k, m) ∷ s) d v = ground (arith, member-expired_in now s d v.1)

expired_of-some :
    (now : ℕ) (ss : List Shard) (i : ℕ) (d : Digest)
    → i < length ss
    → member dec d (expired_in now (get_or ss i [])) ≡ true
    → member dec d (expired_of now ss) ≡ true
unfolding expired_of
expired_of-some now [] i d h e = absurd (omega arith)
expired_of-some now (s ∷ ss) zero d h e =
    ground (arith, member-append_lists d (expired_in now s) (expired_of now ss))
expired_of-some now (s ∷ ss) (suc i) d h e = ground (
  arith,
  member-append_lists d (expired_in now s) (expired_of now ss),
  expired_of-some now ss i d (omega arith) e,
)

expired_of-where :
    (now : ℕ) (ss : List Shard) (d : Digest)
    → member dec d (expired_of now ss) ≡ true
    → (i : ℕ) × (member dec d (expired_in now (get_or ss i [])) ≡ true)
unfolding expired_of
expired_of-where now [] d h = absurd (no_member d h)
expired_of-where now (s ∷ ss) d h = elim (Bool-cases (member dec d (expired_in now s))) [
  | inl here ↦ (0, here)
  | inr not_here ↦
      let (i, e) =
        expired_of-where now ss d
          (ground (arith, member-append_lists d (expired_in now s) (expired_of now ss))) in
      (suc i, e)
]

expired_shard :
    (ix : Index) (now i : ℕ) (d : Digest)
    → IsIndex ix
    → member dec d (expired_in now (get_or ix.shards i [])) ≡ true
    → expired_entry now (lookup ix d) ≡ true
unfolding lookup shard_for
expired_shard ix now i d v h =
    let s = get_or ix.shards i [] in
    let e = member-expired_in now s d (v.maps i) in
    elim (Option-cases (find dec d s)) [
      | inl gone ↦ absurd (ground (arith, e))
      | inr (m, here) ↦ rw (v.placed i d m here) (sym e ∙ h)
    ]

-- On an index with its invariant, `expired_keys` lists exactly the digests whose entry has expired at
-- the given time.
pub expired_keys-expired :
    (ix : Index) (now : ℕ) (d : Digest)
    → IsIndex ix
    → (member dec d (expired_keys ix now) ≡ true) ↔ (expired_entry now (lookup ix d) ≡ true)
unfolding expired_keys find lookup
expired_keys-expired ix now d v = (
  λ h. let (i, e) = expired_of-where now ix.shards d h in expired_shard ix now i d v e,
  λ h. expired_of-some now ix.shards (shard_index ix d) d (shard_index-lt ix v d) (here h),
)
  where
    here :
        expired_entry now (lookup ix d) ≡ true
        → member dec d (expired_in now (get_or ix.shards (shard_index ix d) [])) ≡ true
    here h = member-expired_in now (shard_for ix d) d (shard_for-IsMap ix v d) ∙ h
