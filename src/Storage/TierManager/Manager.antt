-- ===== src/Storage/TierManager/Manager.antt =====
-- The invariant of the tier manager (tier_manager.cpp): its catalog, its object policy and its clocks.
use goblin_store.Prelude.{◌≤◌, some, ◌≡◌, sym, subst}
use goblin_store.Crypto.Digest.{Digest}
use goblin_store.Storage.Index.{ObjectMeta, lookup}
use goblin_store.Storage.Index.View.{IsIndex}
use goblin_store.Storage.S3Fifo.Invariant.{Inv}
use goblin_store.Storage.TierManager.{TierManager}
use goblin_store.Storage.TierManager.Bound.{IsTracked, Bounded}
use goblin_store.Storage.TierManager.Keeps.{Keeps}
use goblin_store.Storage.TierManager.Reaping.{IsArmed}

-- The index and the object policy have their invariants, the policy knows every object, no object has
-- a later etag than the counter, and an object with an expiry has armed the reaper.
pub record IsManager (tm : TierManager) : Type 0 where
  pub index : IsIndex tm.index
  pub policy : Inv tm.object_policy
  pub tracked : IsTracked tm
  pub etags : (d : Digest) (m : ObjectMeta) → lookup tm.index d ≡ some m → m.etag ≤ tm.etag_seq
  pub armed : IsArmed tm

pub Keeps-IsManager : (tm tm' : TierManager) → Keeps tm tm' → IsManager tm → IsManager tm'
unfolding IsTracked IsArmed
Keeps-IsManager tm tm' k v = record {
  index = subst IsIndex (sym k.index) v.index;
  policy = subst Inv (sym k.object_policy) v.policy;
  tracked = λ d h. rw k.object_policy (v.tracked d (rw k.index at h));
  etags = λ d m h. rw k.etag_seq (v.etags d m (rw k.index at h));
  armed = λ d m h e. rw k.any_ttl (v.armed d m (rw k.index at h) e);
}

pub Bounded-IsManager : (tm tm' : TierManager) → Bounded tm tm' → IsManager tm → IsManager tm'
unfolding IsArmed
Bounded-IsManager tm tm' b v = record {
  index = b.inv;
  policy = b.policy;
  tracked = b.tracked;
  etags = λ d m h. rw b.etag_seq (v.etags d m (b.kept d m h));
  armed = λ d m h e. rw b.any_ttl (v.armed d m (b.kept d m h) e);
}
