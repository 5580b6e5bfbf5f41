-- ===== src/Storage/TierManager/Commit/Steps.antt =====
-- The steps of `commit` (tier_manager.cpp): flushing and publishing leave the catalog as it is.
use goblin_store.Prelude.{
  ℕ, ◌+◌, ltb, Option, none, some, List, ◌≡◌, refl, Bool-cases, inl, inr, length, min,
}
use goblin_store.Prelude.Bytes.{Bytes}
use goblin_store.Common.Errors.{Status, value, error, done}
use goblin_store.Crypto.Digest.{Digest}
use goblin_store.Storage.Index.{ObjectMeta, is_resident}
use goblin_store.Storage.Pool.{Pool, Volume}
use goblin_store.Storage.TierManager.{TierManager}
use goblin_store.Storage.TierManager.Writes.{StoreHandle}
use goblin_store.Storage.TierManager.Handles.{
  Outcome, ssd_extent, flush_ssd, flush_tail, flush_hdd, flush_end, flush_block,
}
use goblin_store.Storage.TierManager.Commit.{flush_rest, publish_ssd, publish_hdd, retire}
use goblin_store.Storage.TierManager.Keeps.{Keeps, Keeps-refl, Keeps-trans, free_head_region-Keeps}

-- Two states that differ in the volumes only.
volumes-Keeps :
    (tm : TierManager) (v w : Volume) → Keeps tm (record tm { volume = v; hdd_volume = w })
volumes-Keeps tm v w = record {
  index = refl;
  object_policy = refl;
  max_objects = refl;
  any_ttl = refl;
  etag_seq = refl;
}

flush_ssd-Keeps :
    (tm : TierManager) (h : StoreHandle) (block : Bytes) → Keeps tm (flush_ssd tm h block).0
unfolding flush_ssd
flush_ssd-Keeps tm h block =
    elim (Bool-cases (ltb h.flushed (min (h.flushed + length block) (ssd_extent h.layout)))) [
      | inl some_bytes ↦ rw some_bytes (volumes-Keeps tm _ tm.hdd_volume)
      | inr empty ↦ rw empty (Keeps-refl tm)
    ]

flush_hdd-Keeps :
    (tm : TierManager) (h : StoreHandle) (o : Option Pool) (fds : Option (List ℕ)) (block : Bytes)
    → Keeps tm (flush_hdd tm h o fds block).0
unfolding flush_hdd flush_tail
flush_hdd-Keeps tm h none fds block = Keeps-refl tm
flush_hdd-Keeps tm h (some pool) none block = Keeps-refl tm
flush_hdd-Keeps tm h (some pool) (some fds) block =
    elim (Bool-cases (ltb h.layout.ssd_bytes (h.flushed + length block))) [
      | inl some_bytes ↦ rw some_bytes (volumes-Keeps tm tm.volume _)
      | inr empty ↦ rw empty (Keeps-refl tm)
    ]

-- A step of a handle that leaves the catalog and what the handle is for.
pub record Staged (tm : TierManager) (h : StoreHandle) (r : Outcome) : Type 0 where
  pub keeps : Keeps tm r.0
  pub digest : r.1.digest ≡ h.digest
  pub layout : r.1.layout ≡ h.layout
  pub head : r.1.head ≡ h.head

same_handle :
    (tm tm' : TierManager) (h : StoreHandle) (st : Status) → Keeps tm tm' → Staged tm h (tm', h, st)
same_handle tm tm' h st k = record { keeps = k; digest = refl; layout = refl; head = refl }

flush_end-Staged :
    (tm : TierManager) (h : StoreHandle) (n : ℕ) (r1 r2 : TierManager × Status)
    → Keeps tm r1.0
    → Keeps tm r2.0
    → Staged tm h (flush_end h n r1 r2)
unfolding flush_end
flush_end-Staged tm h n (tm1, error e) r2 k1 k2 = same_handle tm tm1 h (error e) k1
flush_end-Staged tm h n (tm1, value _) (tm2, error e) k1 k2 = same_handle tm tm2 h (error e) k2
flush_end-Staged tm h n (tm1, value _) (tm2, value _) k1 k2 = record {
  keeps = k2;
  digest = refl;
  layout = refl;
  head = refl;
}

flush_block-Staged :
    (tm : TierManager) (h : StoreHandle) (block : Bytes) → Staged tm h (flush_block tm h block)
unfolding flush_block
flush_block-Staged tm h block =
    let r = flush_ssd tm h block in
    let k = flush_ssd-Keeps tm h block in
    flush_end-Staged tm h (length block) r (flush_hdd r.0 h tm.hdd h.hdd block) k
      (Keeps-trans k (flush_hdd-Keeps r.0 h tm.hdd h.hdd block))

pub flush_rest-Staged : (tm : TierManager) (h : StoreHandle) → Staged tm h (flush_rest tm h)
unfolding flush_rest
flush_rest-Staged tm h = elim (Bool-cases (ltb 0 (length h.staged))) [
  | inl some_bytes ↦ rw some_bytes (flush_block-Staged tm h _)
  | inr empty ↦ rw empty (same_handle tm tm h done (Keeps-refl tm))
]

pub publish_ssd-Keeps : (tm : TierManager) (h : StoreHandle) → Keeps tm (publish_ssd tm h).0
unfolding publish_ssd
publish_ssd-Keeps tm h = elim (Bool-cases (ltb 0 h.layout.ssd_bytes)) [
  | inl some_bytes ↦ rw some_bytes (volumes-Keeps tm _ tm.hdd_volume)
  | inr empty ↦ rw empty (Keeps-refl tm)
]

pub publish_hdd-Keeps :
    (tm : TierManager) (o : Option Pool) (h : StoreHandle) → Keeps tm (publish_hdd tm o h).0
unfolding publish_hdd
publish_hdd-Keeps tm none h = Keeps-refl tm
publish_hdd-Keeps tm (some pool) h = elim (Bool-cases (ltb 0 h.layout.hdd_bytes)) [
  | inl some_bytes ↦ rw some_bytes (volumes-Keeps tm tm.volume _)
  | inr empty ↦ rw empty (Keeps-refl tm)
]

pub retire-Keeps :
    (tm : TierManager) (d : Digest) (old : Option ObjectMeta) → Keeps tm (retire tm d old)
unfolding retire
retire-Keeps tm d none = Keeps-refl tm
retire-Keeps tm d (some old) = elim (Bool-cases (is_resident old.head)) [
  | inl on ↦
      let k = free_head_region-Keeps tm old.head.block old.head.offset old.head.len in
      rw on (record {
        index = k.index;
        object_policy = k.object_policy;
        max_objects = k.max_objects;
        any_ttl = k.any_ttl;
        etag_seq = k.etag_seq;
      })
  | inr off ↦ rw off (Keeps-refl tm)
]
