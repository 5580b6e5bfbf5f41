-- ===== src/Storage/TierManager/Commit/Install.antt =====
-- The new version of an object in the catalog (tier_manager.cpp, `commit`).
use goblin_store.Prelude.{
  ℕ, ◌+◌, ◌<◌, true, not, ◌||◌, ◌==◌, ite, Option, none, some, ◌≡◌, refl, arith, ◌⊎◌, inl, inr,
  length, is_some, sym, if_neg, if◌then◌else◌, ◌≢◌,
}
use goblin_store.Common.Types.{u64, add64}
use goblin_store.Crypto.Digest.{Digest}
use goblin_store.Storage.Index.{ObjectMeta, lookup, set_meta}
use goblin_store.Storage.Index.View.{dec}
use goblin_store.Storage.Index.Operations.{sets, run_op, act, run_op-Acts}
use goblin_store.Storage.S3Fifo.{S3Fifo, insert_item, contains as tracks}
use goblin_store.Storage.S3Fifo.Invariant.{Inv}
use goblin_store.Storage.S3Fifo.Admission.{insert_item-Inv}
use goblin_store.Storage.S3Fifo.Residents.{contains_after}
use goblin_store.Storage.TierManager.{TierManager}
use goblin_store.Storage.TierManager.Writes.{StoreHandle}
use goblin_store.Storage.TierManager.Commit.{head_of, new_meta, install}
use goblin_store.Storage.TierManager.Bound.{IsTracked}
use goblin_store.Storage.TierManager.Manager.{IsManager}
use goblin_store.Storage.TierManager.Reaping.{IsArmed}

-- The counter of etags and the policy have room for one more.
abbrev pub HasRoom : TierManager → Type 0
HasRoom tm = (tm.etag_seq + 1 < u64) × (length tm.object_policy.meta + 1 < u64)

abbrev pub version : TierManager → StoreHandle → ℕ → ℕ → ObjectMeta
version tm h flags expiry = record {
  size = h.layout.size;
  flags = flags;
  expiry = expiry;
  etag = tm.etag_seq + 1;
  head = head_of h.head;
}

-- The object policy with a version that is new to it or not.
abbrev policy_with : TierManager → Digest → Option ObjectMeta → S3Fifo
policy_with tm d old = if is_some old then tm.object_policy else insert_item tm.object_policy d

policy_with-Inv :
    (tm : TierManager) (d : Digest) (old : Option ObjectMeta)
    → Inv tm.object_policy
    → HasRoom tm
    → Inv (policy_with tm d old)
policy_with-Inv tm d none v room = insert_item-Inv tm.object_policy d v room.1
policy_with-Inv tm d (some m) v room = v

policy_with-tracks :
    (tm : TierManager) (d j : Digest) (old : Option ObjectMeta)
    → IsManager tm
    → lookup tm.index d ≡ old
    → ite (dec d j) true (is_some (lookup tm.index j)) ≡ true
    → tracks (policy_with tm d old) j ≡ true
unfolding IsTracked
policy_with-tracks tm d j none v found here =
    ground (arith, contains_after tm.object_policy d j v.policy, v.tracked j)
policy_with-tracks tm d j (some m) v found here = elim (dec d j) [
  | yes same ↦ v.tracked j (rw (sym same, found) refl)
  | no other ↦ v.tracked j (rw (if_neg _ other) at here)
]

-- A version installed over a state.
pub record Installed (tm : TierManager) (d : Digest) (new : ObjectMeta) (tm' : TierManager)
    : Type 0 where
  pub manager : IsManager tm'
  pub entries : (j : Digest) → lookup tm'.index j ≡ ite (dec d j) (some new) (lookup tm.index j)

module _ (tm : TierManager) (h : StoreHandle) (flags expiry : ℕ) (v : IsManager tm)
    (room : HasRoom tm) where
  abbrev pub new : ObjectMeta
  new = version tm h flags expiry

  etag_next : add64 tm.etag_seq 1 ≡ tm.etag_seq + 1
  etag_next = omega (arith, room.0)

  new_meta_next : new_meta tm h flags expiry ≡ new
  unfolding new new_meta
  new_meta_next = rw etag_next refl

  entries_next :
      (j : Digest)
      → lookup (set_meta tm.index h.digest new) j
        ≡ ite (dec h.digest j) (some new) (lookup tm.index j)
  unfolding run_op act
  entries_next = (run_op-Acts tm.index v.index h.digest (sets new)).entries

  found_after :
      (j : Digest) (m : ObjectMeta)
      → lookup (set_meta tm.index h.digest new) j ≡ some m
      → (m ≡ new) ⊎ (lookup tm.index j ≡ some m)
  found_after j m here = elim (dec h.digest j) [
    | yes same ↦ inl (ground (arith, entries_next j))
    | no other ↦ inr (ground (arith, entries_next j))
  ]

  armed_next : (m : ObjectMeta) → m ≡ new → m.expiry ≢ 0 → (tm.any_ttl || not (expiry == 0)) ≡ true
  unfolding new
  armed_next m e late = ground arith

  pub install-Installed :
      (old : Option ObjectMeta)
      → lookup tm.index h.digest ≡ old
      → Installed tm h.digest new (install tm h old flags expiry)
  unfolding install IsTracked IsArmed run_op
  install-Installed old found =
      rw (new_meta_next, etag_next)
        (record {
          manager = record {
            index = (run_op-Acts tm.index v.index h.digest (sets new)).inv;
            policy = policy_with-Inv tm h.digest old v.policy room;
            tracked = λ j here.
                policy_with-tracks tm h.digest j old v found (ground (arith, entries_next j));
            etags = λ j m here. elim (found_after j m here) [
              | inl e ↦ rw e (unfold new in omega arith)
              | inr old_one ↦ omega (arith, v.etags j m old_one)
            ];
            armed = λ j m here late. elim (found_after j m here) [
              | inl e ↦ armed_next m e late
              | inr old_one ↦ rw (v.armed j m old_one late) refl
            ];
          };
          entries = entries_next;
        })
