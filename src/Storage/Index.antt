-- ===== src/Storage/Index.antt =====
-- src/goblin/storage/index.hpp and index.cpp: the sharded map from digests to metadata. Each
-- operation holds the lock of its shard throughout, so it is one step; a shard is a map of
-- Prelude/Assoc, and the order of an unordered map is the order of its list.
pub mod View
pub mod Operations
pub mod Counting
use goblin_store.Prelude.{
  ℕ, zero, suc, ◌+◌, ◌-◌, ◌^◌, bit_and, Bool, true, false, not, ◌&&◌, ◌==◌, leb, if◌then◌else◌,
  Option, none, some, List, [], ◌∷◌, ◌++◌, length, get_or, set, replicate, is_some,
}
use goblin_store.Prelude.Assoc.{find, insert, erase}
use goblin_store.Crypto.Digest.{Digest, Digest-discrete, bucket}

pub record HeadLoc : Type 0 where
  pub block : ℕ
  pub offset : ℕ
  pub len : ℕ

-- `HeadLoc::kNone`
abbrev pub no_block : ℕ
no_block = 0xFFFF_FFFF

abbrev pub no_head : HeadLoc
no_head = record { block = no_block; offset = 0; len = 0 }

unfoldable pub is_resident : HeadLoc → Bool
is_resident h = not (h.block == no_block)

pub record ObjectMeta : Type 0 where
  pub size : ℕ
  pub flags : ℕ
  pub expiry : ℕ
  pub etag : ℕ
  pub head : HeadLoc

unfoldable pub is_expired : ObjectMeta → ℕ → Bool
is_expired m now = not (m.expiry == 0) && leb m.expiry now

abbrev pub Shard : Type 0
Shard = List (Digest × ObjectMeta)

pub record Index : Type 0 where
  pub shards : List Shard
  pub nshards : ℕ
  pub mask : ℕ

unfoldable pub create : ℕ → Index
create shard_bits = record {
  shards = replicate (2 ^ shard_bits) [];
  nshards = 2 ^ shard_bits;
  mask = 2 ^ shard_bits - 1;
}

unfoldable pub shard_index : Index → Digest → ℕ
shard_index ix d = bit_and (bucket d) ix.mask

unfoldable pub shard_for : Index → Digest → Shard
unfolding shard_index
shard_for ix d = get_or ix.shards (shard_index ix d) []

-- The index with another map in the digest's shard.
unfoldable pub put_shard : Index → Digest → Shard → Index
unfolding shard_index
put_shard ix d map = record ix { shards = set ix.shards (shard_index ix d) map }

unfoldable pub lookup : Index → Digest → Option ObjectMeta
unfolding shard_for
lookup ix d = find Digest-discrete d (shard_for ix d)

unfoldable pub contains : Index → Digest → Bool
unfolding shard_for
contains ix d = is_some (find Digest-discrete d (shard_for ix d))

unfoldable pub set_meta : Index → Digest → ObjectMeta → Index
unfolding shard_for put_shard
set_meta ix d m = put_shard ix d (insert Digest-discrete d m (shard_for ix d))

unfoldable pub add : Index → Digest → ObjectMeta → Index × Bool
unfolding shard_for put_shard
add ix d m = elim (find Digest-discrete d (shard_for ix d)) [
  | none ↦ (put_shard ix d (insert Digest-discrete d m (shard_for ix d)), true)
  | some _ ↦ (ix, false)
]

unfoldable pub replace : Index → Digest → ObjectMeta → Index × Bool
unfolding shard_for put_shard
replace ix d m = elim (find Digest-discrete d (shard_for ix d)) [
  | none ↦ (ix, false)
  | some _ ↦ (put_shard ix d (insert Digest-discrete d m (shard_for ix d)), true)
]

unfoldable pub erase_key : Index → Digest → Index × Bool
unfolding shard_for put_shard
erase_key ix d = elim (find Digest-discrete d (shard_for ix d)) [
  | none ↦ (ix, false)
  | some _ ↦ (put_shard ix d (erase Digest-discrete d (shard_for ix d)), true)
]

unfoldable pub set_head : Index → Digest → HeadLoc → Index × Bool
unfolding shard_for put_shard
set_head ix d loc = elim (find Digest-discrete d (shard_for ix d)) [
  | none ↦ (ix, false)
  | some m ↦
      (put_shard ix d (insert Digest-discrete d (record m { head = loc }) (shard_for ix d)), true)
]

unfoldable pub update_expiry : Index → Digest → ℕ → Index × Bool
unfolding shard_for put_shard
update_expiry ix d expiry = elim (find Digest-discrete d (shard_for ix d)) [
  | none ↦ (ix, false)
  | some m ↦ (
    put_shard ix d (insert Digest-discrete d (record m { expiry = expiry }) (shard_for ix d)),
    true,
  )
]

unfoldable pub sizes : List Shard → ℕ
sizes [] = 0
sizes (s ∷ ss) = length s + sizes ss

unfoldable pub size : Index → ℕ
unfolding sizes
size ix = sizes ix.shards

unfoldable pub clear_shards : List Shard → List Shard
clear_shards [] = []
clear_shards (s ∷ ss) = [] ∷ clear_shards ss

unfoldable pub clear : Index → Index
unfolding clear_shards
clear ix = record ix { shards = clear_shards ix.shards }

unfoldable pub expired_in : ℕ → Shard → List Digest
unfolding is_expired
expired_in now [] = []
expired_in now ((d, m) ∷ s) =
    let rest = expired_in now s in if is_expired m now then d ∷ rest else rest

unfoldable pub expired_of : ℕ → List Shard → List Digest
unfolding expired_in
expired_of now [] = []
expired_of now (s ∷ ss) = expired_in now s ++ expired_of now ss

-- Digests of objects whose absolute expiry has passed.
unfoldable pub expired_keys : Index → ℕ → List Digest
unfolding expired_of
expired_keys ix now = expired_of now ix.shards
