-- ===== src/Storage/Index/View.antt =====
-- The invariant of the sharded index (storage/index.cpp), and a shard after a write.
use native.Mathlib.Nat.{mod-lt}
use goblin_store.Prelude.{
  ℕ, zero, suc, ◌-◌, ◌^◌, ◌<◌, ◌==◌, if◌then◌else◌, some, [], length, get_or, length-set,
  get_or-set, replicate, length-replicate, ◌≡◌, refl, arith, sym, ◌∙◌, Bool-cases, inl, inr,
}
use goblin_store.Prelude.Assoc.{find, IsMap}
use goblin_store.Prelude.Bits.{bit_and-low, pow_pos}
use goblin_store.Crypto.Digest.{Digest, Digest-discrete, bucket}
use goblin_store.Storage.Index.{ObjectMeta, Shard, Index, create, shard_index, shard_for, put_shard}

abbrev pub dec : Discrete Digest
dec = Digest-discrete

-- There are 2 ^ k shards, each a map; an entry stands in the shard of its digest.
pub record IsIndex (ix : Index) : Type 0 where
  pub bits : ℕ
  pub count : ix.nshards ≡ 2 ^ bits
  pub shards : length ix.shards ≡ ix.nshards
  pub mask : ix.mask ≡ 2 ^ bits - 1
  pub maps : (i : ℕ) → IsMap dec (get_or ix.shards i [])
  pub placed :
      (i : ℕ) (d : Digest) (m : ObjectMeta)
      → find dec d (get_or ix.shards i []) ≡ some m
      → shard_index ix d ≡ i

get_or-replicate {ℓ} : {A : Type ℓ} (n i : ℕ) (z : A) → get_or (replicate n z) i z ≡ z
get_or-replicate zero i z = refl
get_or-replicate (suc n) zero z = refl
get_or-replicate (suc n) (suc i) z = get_or-replicate n i z

-- A new index has the invariant.
pub create-IsIndex : (shard_bits : ℕ) → IsIndex (create shard_bits)
unfolding create find
create-IsIndex k = record {
  bits = k;
  count = refl;
  shards = length-replicate (2 ^ k) [];
  mask = refl;
  maps = λ i. rw (get_or-replicate {A = Shard} (2 ^ k) i []) tt;
  placed = λ i d m h. ground (arith, get_or-replicate {A = Shard} (2 ^ k) i []);
}

module _ (ix : Index) (v : IsIndex ix) where
  pub shard_index-lt : (d : Digest) → shard_index ix d < length ix.shards
  unfolding shard_index
  shard_index-lt d =
      let e = bit_and-low v.bits (bucket d) in
      rw (v.mask, e, v.shards, v.count) (mod-lt (bucket d) (pow_pos v.bits))

  -- A write to one shard is read there, and in no other.
  pub shard-put_shard :
      (d : Digest) (map : Shard) (i : ℕ)
      → get_or (put_shard ix d map).shards i []
        ≡ (if shard_index ix d == i then map else get_or ix.shards i [])
  unfolding put_shard
  shard-put_shard d map i = get_or-set ix.shards (shard_index ix d) i map [] (shard_index-lt d)

  shape_kept :
      (d : Digest) (map : Shard)
      → ((put_shard ix d map).nshards ≡ ix.nshards)
        × ((put_shard ix d map).mask ≡ ix.mask)
        × (length (put_shard ix d map).shards ≡ length ix.shards)
  unfolding put_shard
  shape_kept d map = (refl, refl, length-set ix.shards (shard_index ix d) map)

  pub shard_index-put_shard :
      (d j : Digest) (map : Shard) → shard_index (put_shard ix d map) j ≡ shard_index ix j
  unfolding shard_index put_shard
  shard_index-put_shard d j map = refl

  -- What `shard_for` finds after a write.
  pub shard_for-put_shard :
      (d j : Digest) (map : Shard)
      → shard_for (put_shard ix d map) j
        ≡ (if shard_index ix d == shard_index ix j then map else shard_for ix j)
  unfolding shard_for
  shard_for-put_shard d j map =
      rw (shard_index-put_shard d j map) (shard-put_shard d map (shard_index ix j))

  -- The invariant after a write of a map whose digests belong to the shard.
  pub put_shard-IsIndex :
      (d : Digest) (map : Shard)
      → IsMap dec map
      → ((j : Digest) (m : ObjectMeta)
          → find dec j map ≡ some m
          → shard_index ix j ≡ shard_index ix d)
      → IsIndex (put_shard ix d map)
  put_shard-IsIndex d map is_map fits = record {
    bits = v.bits;
    count = (shape_kept d map).0 ∙ v.count;
    shards = (shape_kept d map).2 ∙ v.shards ∙ sym (shape_kept d map).0;
    mask = (shape_kept d map).1 ∙ v.mask;
    maps = λ i. elim (Bool-cases (shard_index ix d == i)) [
      | inl hit ↦ rw (shard-put_shard d map i, hit) is_map
      | inr miss ↦ rw (shard-put_shard d map i, miss) (v.maps i)
    ];
    placed = λ i j m h.
        ground
          (arith, shard-put_shard d map i, shard_index-put_shard d j map, v.placed i j m, fits j m);
  }

  -- Every shard is a map of its own digests.
  pub shard_for-IsMap : (d : Digest) → IsMap dec (shard_for ix d)
  unfolding shard_for
  shard_for-IsMap d = v.maps (shard_index ix d)

  pub shard_for-placed :
      (d j : Digest) (m : ObjectMeta)
      → find dec j (shard_for ix d) ≡ some m
      → shard_index ix j ≡ shard_index ix d
  unfolding shard_for
  shard_for-placed d j m h = v.placed (shard_index ix d) j m h

  -- Digests of one shard see one map.
  pub shard_for_same :
      (d j : Digest) → shard_index ix d ≡ shard_index ix j → shard_for ix d ≡ shard_for ix j
  unfolding shard_for
  shard_for_same d j e = rw e
