-- ===== src/Storage/TierManager/Commit/Cas.antt =====
-- `commit` (tier_manager.cpp): a new version enters the catalog, or the catalog stays.
use goblin_store.Prelude.{
  ℕ, ◌+◌, ◌<◌, ◌≤◌, false, ◌==◌, ite, Option, some, ◌≡◌, refl, arith, ◌∙◌, ◌⊎◌, Option-cases,
  Bool-cases, inl, inr, length, sym, ap, subst,
}
use goblin_store.Common.Errors.{Status, Error, value, error, done}
use goblin_store.Crypto.Digest.{Digest}
use goblin_store.Storage.Index.{size, ObjectMeta, lookup, is_expired}
use goblin_store.Storage.Index.View.{dec}
use goblin_store.Storage.S3Fifo.{S3Fifo}
use goblin_store.Storage.Layout.{ObjectLayout}
use goblin_store.Storage.TierManager.{TierManager, enforce_object_bound}
use goblin_store.Storage.TierManager.Writes.{StoreHandle}
use goblin_store.Storage.TierManager.Handles.{Outcome}
use goblin_store.Storage.TierManager.Commit.{
  cas_fails, retire, head_of, install, finish_commit, publish_end, publish_version, commit_flushed,
  flush_rest, commit, publish_ssd, publish_hdd,
}
use goblin_store.Storage.TierManager.Commit.Steps.{
  Staged, flush_rest-Staged, publish_ssd-Keeps, publish_hdd-Keeps, retire-Keeps,
}
use goblin_store.Storage.TierManager.Bound.{enforce_object_bound-Bounded}
use goblin_store.Storage.TierManager.Keeps.{Keeps, Keeps-trans, Keeps-refl}
use goblin_store.Storage.TierManager.Manager.{IsManager, Keeps-IsManager, Bounded-IsManager}
use goblin_store.Storage.TierManager.Commit.Install.{HasRoom, version, install-Installed}

-- The version that the client expects is the one that the index shows, live.
unfoldable pub Expects : Option ObjectMeta → ℕ → ℕ → Type 0
Expects old now expected =
    (expected ≡ 0)
    ⊎ ((m : ObjectMeta) × (old ≡ some m) × (is_expired m now ≡ false) × (m.etag ≡ expected))

cas_fails-Expects :
    (old : Option ObjectMeta) (now expected : ℕ)
    → cas_fails old now expected ≡ false
    → Expects old now expected
unfolding cas_fails Expects
cas_fails-Expects old now expected h = elim (Bool-cases (expected == 0)) [
  | inl any ↦ inl (ground arith)
  | inr one ↦ elim (Option-cases old) [
    | inl e ↦ absurd (ground arith)
    | inr (m, e) ↦ inr (m, e, ground arith, ground arith)
  ]
]

-- What a commit that succeeds leaves.
pub record Published (tm : TierManager) (h : StoreHandle) (flags expiry expected now : ℕ)
    (tm' : TierManager) : Type 0 where
  pub manager : IsManager tm'
  pub expects : Expects (lookup tm.index h.digest) now expected
  pub fresh : (j : Digest) (m : ObjectMeta) → lookup tm.index j ≡ some m → m.etag < tm.etag_seq + 1
  pub entries :
      (j : Digest) (m : ObjectMeta)
      → lookup tm'.index j ≡ some m
      → ite (dec h.digest j) (some (version tm h flags expiry)) (lookup tm.index j) ≡ some m
  pub within : 0 < tm'.max_objects → size tm'.index ≤ tm'.max_objects
  pub etag_seq : tm'.etag_seq ≡ tm.etag_seq + 1

HasRoom-Keeps : (tm tm' : TierManager) → Keeps tm tm' → HasRoom tm → HasRoom tm'
HasRoom-Keeps tm tm' k room =
    let n = ap (λ (p : S3Fifo). length p.meta) k.object_policy in
    (omega (arith, k.etag_seq, room.0), omega (arith, n, room.1))

-- How a commit ends.
unfoldable pub Commits : TierManager → StoreHandle → ℕ → ℕ → ℕ → ℕ → Outcome → Type 0
Commits tm h flags expiry expected now r =
    ((r.2 ≡ done) × Published tm h flags expiry expected now r.0)
    ⊎ ((e : Error) × (r.2 ≡ error e) × Keeps tm r.0)

version-before :
    (tm tm1 : TierManager) (h h1 : StoreHandle) (flags expiry : ℕ)
    → Keeps tm tm1
    → h1.layout ≡ h.layout
    → h1.head ≡ h.head
    → version tm1 h1 flags expiry ≡ version tm h flags expiry
version-before tm tm1 h h1 flags expiry k l g =
    let size = ap (λ (t : ObjectLayout). t.size) l in
    let head = ap head_of g in let etag = ap (λ (n : ℕ). n + 1) k.etag_seq in cc

-- The same, seen from a state before it and from the handle then.
Published-before :
    (tm tm1 : TierManager) (h h1 : StoreHandle) (flags expiry expected now : ℕ) (tm2 : TierManager)
    → Keeps tm tm1
    → h1.digest ≡ h.digest
    → h1.layout ≡ h.layout
    → h1.head ≡ h.head
    → Published tm1 h1 flags expiry expected now tm2
    → Published tm h flags expiry expected now tm2
Published-before tm tm1 h h1 flags expiry expected now tm2 k d l g p =
    let new = version tm h flags expiry in
    let new1 = version tm1 h1 flags expiry in
    record {
      manager = p.manager;
      expects =
          subst (λ o. Expects o now expected)
            (ap (λ ix. lookup ix h1.digest) k.index ∙ ap (lookup tm.index) d) p.expects;
      fresh = λ j m here.
          omega (arith, p.fresh j m (ap (λ ix. lookup ix j) k.index ∙ here), k.etag_seq);
      entries = λ j m here.
          ap (λ t. ite (dec t j) (some new) (lookup tm.index j)) (sym d)
          ∙ ap (λ w. ite (dec h1.digest j) (some w) (lookup tm.index j))
              (sym (version-before tm tm1 h h1 flags expiry k l g))
          ∙ ap (λ ix. ite (dec h1.digest j) (some new1) (lookup ix j)) (sym k.index)
          ∙ p.entries j m here;
      within = p.within;
      etag_seq = p.etag_seq ∙ ap (λ (n : ℕ). n + 1) k.etag_seq;
    }

etag_seq-install :
    (tm : TierManager) (h : StoreHandle) (old : Option ObjectMeta) (flags expiry : ℕ)
    → HasRoom tm
    → (install tm h old flags expiry).etag_seq ≡ tm.etag_seq + 1
unfolding install
etag_seq-install tm h old flags expiry room = omega (arith, room.0)

install-Published :
    (tm : TierManager) (h : StoreHandle) (old : Option ObjectMeta) (flags expiry expected now : ℕ)
    → IsManager tm
    → HasRoom tm
    → lookup tm.index h.digest ≡ old
    → Expects old now expected
    → Published tm h flags expiry expected now
        (enforce_object_bound (install tm h old flags expiry))
install-Published tm h old flags expiry expected now v room found exp =
    let i = install-Installed tm h flags expiry v room old found in
    let tm' = install tm h old flags expiry in
    let b = enforce_object_bound-Bounded tm' i.manager.index i.manager.policy i.manager.tracked in
    record {
      manager = Bounded-IsManager tm' (enforce_object_bound tm') b i.manager;
      expects = subst (λ o. Expects o now expected) (sym found) exp;
      fresh = λ j m here. omega (arith, v.etags j m here);
      entries = λ j m here. sym (i.entries j) ∙ b.kept j m here;
      within = λ some_bound. omega (arith, b.bounded (omega (arith, b.max_objects)), b.max_objects);
      etag_seq = b.etag_seq ∙ etag_seq-install tm h old flags expiry room;
    }

finish_commit-Published :
    (tm : TierManager) (h : StoreHandle) (old : Option ObjectMeta) (flags expiry expected now : ℕ)
    → IsManager tm
    → HasRoom tm
    → lookup tm.index h.digest ≡ old
    → Expects old now expected
    → Published tm h flags expiry expected now (finish_commit tm h old flags expiry).0
unfolding finish_commit
finish_commit-Published tm h old flags expiry expected now v room found exp =
    let tm1 = retire tm h.digest old in
    let k = retire-Keeps tm h.digest old in
    Published-before tm tm1 h h flags expiry expected now _ k refl refl refl (
      install-Published tm1 h old flags expiry expected now (Keeps-IsManager tm tm1 k v)
        (HasRoom-Keeps tm tm1 k room) (ap (λ ix. lookup ix h.digest) k.index ∙ found) exp)

publish_end-Commits :
    (tm : TierManager) (h : StoreHandle) (flags expiry expected now : ℕ)
    (r1 r2 : TierManager × Status)
    → IsManager tm
    → HasRoom tm
    → Expects (lookup tm.index h.digest) now expected
    → Keeps tm r1.0
    → Keeps tm r2.0
    → Commits tm h flags expiry expected now
        (publish_end h (lookup tm.index h.digest) flags expiry r1 r2)
unfolding publish_end Commits finish_commit
publish_end-Commits tm h flags expiry expected now (tm1, error e) r2 v room exp k1 k2 =
    inr (e, refl, k1)
publish_end-Commits tm h flags expiry expected now (tm1, value _) (tm2, error e) v room exp k1 k2 =
    inr (e, refl, k2)
publish_end-Commits tm h flags expiry expected now (tm1, value _) (tm2, value _) v room exp k1 k2 =
    inl (
      refl,
      Published-before tm tm2 h h flags expiry expected now _ k2 refl refl refl (
          finish_commit-Published tm2 h (lookup tm.index h.digest) flags expiry expected now
            (Keeps-IsManager tm tm2 k2 v) (HasRoom-Keeps tm tm2 k2 room)
            (ap (λ ix. lookup ix h.digest) k2.index) exp),
    )

publish_version-Commits :
    (tm : TierManager) (h : StoreHandle) (flags expiry expected now : ℕ)
    → IsManager tm
    → HasRoom tm
    → Expects (lookup tm.index h.digest) now expected
    → Commits tm h flags expiry expected now
        (publish_version tm h (lookup tm.index h.digest) flags expiry)
unfolding publish_version
publish_version-Commits tm h flags expiry expected now v room exp =
    let r = publish_ssd tm h in
    let k = publish_ssd-Keeps tm h in
    publish_end-Commits tm h flags expiry expected now r (publish_hdd r.0 tm.hdd h) v room exp k
      (Keeps-trans k (publish_hdd-Keeps r.0 tm.hdd h))

commit_flushed-Commits :
    (tm : TierManager) (h : StoreHandle) (flags expiry expected now : ℕ) (r : Outcome)
    → IsManager tm
    → HasRoom tm
    → Staged tm h r
    → Commits tm h flags expiry expected now (commit_flushed r flags expiry expected now)
unfolding commit_flushed Commits
commit_flushed-Commits tm h flags expiry expected now (tm1, h1, error e) v room s =
    inr (e, refl, s.keeps)
commit_flushed-Commits tm h flags expiry expected now (tm1, h1, value _) v room s =
    let old = lookup tm1.index h1.digest in
    elim (Bool-cases (cas_fails old now expected)) [
      | inl stale ↦ rw stale (inr (_, refl, s.keeps))
      | inr fresh ↦
          rw fresh
            (elim (publish_version-Commits tm1 h1 flags expiry expected now
              (Keeps-IsManager tm tm1 s.keeps v) (HasRoom-Keeps tm tm1 s.keeps room)
              (cas_fails-Expects old now expected fresh)) [
                | inl (ok, p) ↦ inl (
                  ok,
                  Published-before tm tm1 h h1 flags expiry expected now _ s.keeps s.digest s.layout
                      s.head p,
                )
                | inr (e, bad, k) ↦ inr (e, bad, Keeps-trans s.keeps k)
              ])
    ]

-- A commit, on a manager with its invariant and room for one more object and etag, ends in one of two
-- ways. It succeeds: then the version that the client expects, if any, was the live one of the index; the
-- new etag is above those of all objects; every entry that the index has then is the new version or an
-- entry from before of another digest; the number of objects is within the bound; and the invariant
-- holds. Or it fails, and the catalog, the object policy and the counters are as before.
pub commit-Commits :
    (tm : TierManager) (h : StoreHandle) (flags expiry expected now : ℕ)
    → IsManager tm
    → HasRoom tm
    → Commits tm h flags expiry expected now (commit tm h flags expiry expected now)
unfolding commit Commits
commit-Commits tm h flags expiry expected now v room = elim (Bool-cases (h.off == h.layout.size)) [
  | inl whole ↦ rw whole (
      commit_flushed-Commits tm h flags expiry expected now (flush_rest tm h) v room
        (flush_rest-Staged tm h))
  | inr part ↦ rw part (inr (_, refl, Keeps-refl tm))
]
