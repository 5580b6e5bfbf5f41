-- ===== src/Storage/TierManager/Keeps.antt =====
-- What the helpers of the tier manager (tier_manager.cpp) leave as it is.
use goblin_store.Prelude.{
  ℕ, ltb, List, Option, none, some, ◌≡◌, refl, ℕ_discrete, Bool-cases, Option-cases, inl, inr, ◌∙◌,
}
use goblin_store.Prelude.Assoc.{find}
use goblin_store.Crypto.Digest.{Digest}
use goblin_store.Storage.Index.{HeadLoc, is_resident}
use goblin_store.Storage.Layout.{ObjectLayout}
use goblin_store.Storage.Pool.{Pool}
use goblin_store.Storage.TierManager.{
  TierManager, region_id, free_ram, orphan, free_head_region, release_head, unlink_ssd, unlink_hdd,
  unlink_tiers,
}

-- The catalog, its bounds and its clocks are those of before.
pub record Keeps (tm tm' : TierManager) : Type 0 where
  pub index : tm'.index ≡ tm.index
  pub object_policy : tm'.object_policy ≡ tm.object_policy
  pub max_objects : tm'.max_objects ≡ tm.max_objects
  pub any_ttl : tm'.any_ttl ≡ tm.any_ttl
  pub etag_seq : tm'.etag_seq ≡ tm.etag_seq

pub Keeps-refl : (tm : TierManager) → Keeps tm tm
Keeps-refl tm = record {
  index = refl;
  object_policy = refl;
  max_objects = refl;
  any_ttl = refl;
  etag_seq = refl;
}

pub Keeps-trans : {a b c : TierManager} → Keeps a b → Keeps b c → Keeps a c
Keeps-trans k l = record {
  index = l.index ∙ k.index;
  object_policy = l.object_policy ∙ k.object_policy;
  max_objects = l.max_objects ∙ k.max_objects;
  any_ttl = l.any_ttl ∙ k.any_ttl;
  etag_seq = l.etag_seq ∙ k.etag_seq;
}

pub free_head_region-Keeps :
    (tm : TierManager) (block offset len : ℕ) → Keeps tm (free_head_region tm block offset len)
unfolding free_head_region free_ram orphan
free_head_region-Keeps tm b o l =
    let free_ram-Keeps : Keeps tm (free_ram tm b o l) = record {
      index = refl;
      object_policy = refl;
      max_objects = refl;
      any_ttl = refl;
      etag_seq = refl;
    } in
    elim (Option-cases (find ℕ_discrete (region_id b o) tm.pins)) [
      | inl e ↦ rw (e, free_head_region) free_ram-Keeps
      | inr (p, e) ↦
          rw (e, free_head_region)
            (elim (Bool-cases (ltb 0 p.refcount)) [
              | inl busy ↦ rw busy (record {
                index = refl;
                object_policy = refl;
                max_objects = refl;
                any_ttl = refl;
                etag_seq = refl;
              })
              | inr idle ↦ rw idle free_ram-Keeps
            ])
    ]

pub release_head-Keeps :
    (tm : TierManager) (d : Digest) (head : HeadLoc) → Keeps tm (release_head tm d head)
unfolding release_head
release_head-Keeps tm d head = elim (Bool-cases (is_resident head)) [
  | inl on ↦
      let k = free_head_region-Keeps tm head.block head.offset head.len in
      rw on (record {
        index = k.index;
        object_policy = k.object_policy;
        max_objects = k.max_objects;
        any_ttl = k.any_ttl;
        etag_seq = k.etag_seq;
      })
  | inr off ↦ rw off (Keeps-refl tm)
]

unlink_ssd-Keeps :
    (tm : TierManager) (d : Digest) (n : ℕ) (suffix : List ℕ) → Keeps tm (unlink_ssd tm d n suffix)
unfolding unlink_ssd
unlink_ssd-Keeps tm d n suffix = elim (Bool-cases (ltb 0 n)) [
  | inl some_bytes ↦ rw some_bytes (record {
    index = refl;
    object_policy = refl;
    max_objects = refl;
    any_ttl = refl;
    etag_seq = refl;
  })
  | inr empty ↦ rw empty (Keeps-refl tm)
]

unlink_hdd-Keeps :
    (tm : TierManager) (o : Option Pool) (d : Digest) (n : ℕ) (suffix : List ℕ)
    → Keeps tm (unlink_hdd tm o d n suffix)
unfolding unlink_hdd
unlink_hdd-Keeps tm none d n suffix = Keeps-refl tm
unlink_hdd-Keeps tm (some pool) d n suffix = elim (Bool-cases (ltb 0 n)) [
  | inl some_bytes ↦ rw some_bytes (record {
    index = refl;
    object_policy = refl;
    max_objects = refl;
    any_ttl = refl;
    etag_seq = refl;
  })
  | inr empty ↦ rw empty (Keeps-refl tm)
]

pub unlink_tiers-Keeps :
    (tm : TierManager) (d : Digest) (l : ObjectLayout) (suffix : List ℕ)
    → Keeps tm (unlink_tiers tm d l suffix)
unfolding unlink_tiers
unlink_tiers-Keeps tm d l suffix =
    Keeps-trans (unlink_ssd-Keeps tm d l.ssd_bytes suffix)
      (unlink_hdd-Keeps (unlink_ssd tm d l.ssd_bytes suffix) tm.hdd d l.hdd_bytes suffix)
