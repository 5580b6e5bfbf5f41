-- ===== src/Storage/TierManager/Reaping.antt =====
-- Expiry (tier_manager.cpp): what `reap_expired` takes away.
use goblin_store.Prelude.{
  ℕ, ◌+◌, Bool, true, false, if◌then◌else◌, Option, none, some, List, [], ◌∷◌, ◌≡◌, ◌≢◌, refl,
  arith, ℕ_discrete, Option-cases, Bool-cases, inl, inr,
}
use goblin_store.Prelude.Assoc.{member}
use goblin_store.Crypto.Digest.{Digest}
use goblin_store.Storage.Index.{ObjectMeta, lookup, is_expired, expired_keys, size}
use goblin_store.Storage.Index.View.{dec, IsIndex}
use goblin_store.Storage.Index.Counting.{expired_entry, expired_keys-expired}
use goblin_store.Storage.TierManager.{TierManager, remove, reap, reap_if, reap_expired}
use goblin_store.Storage.TierManager.Removal.{remove-Without}

-- What is left of an entry at a time.
abbrev pub unexpired : ℕ → Option ObjectMeta → Option ObjectMeta
unexpired now o = if expired_entry now o then none else o

-- A state that has removed these digests, so many of them found.
record Reaped (ds : List Digest) (tm : TierManager) (n : ℕ) (r : TierManager × ℕ) : Type 0 where
  inv : IsIndex r.0.index
  entries :
      (j : Digest) → lookup r.0.index j ≡ (if member dec j ds then none else lookup tm.index j)
  count : size r.0.index + r.1 ≡ size tm.index + n

reap-Reaped :
    (ds : List Digest) (tm : TierManager) (n : ℕ) → IsIndex tm.index → Reaped ds tm n (reap ds tm n)
unfolding reap member
reap-Reaped [] tm n v = record { inv = v; entries = λ j. refl; count = refl }
reap-Reaped (d ∷ ds) tm n v =
    let (w, found) = remove-Without tm d v in
    let k : ℕ = if (remove tm d).1 then n + 1 else n in
    let rest = reap-Reaped ds (remove tm d).0 k w.inv in
    record {
      inv = rest.inv;
      entries = λ j. ground (arith, rest.entries j, w.entries j);
      count = elim (Option-cases (lookup tm.index d)) [
        | inl e ↦ ground (arith, rest.count, w.fewer)
        | inr (m, e) ↦ ground (arith, rest.count, w.fewer)
      ];
    }

-- Every object that has an expiry has armed the reaper.
unfoldable pub IsArmed : TierManager → Type 0
IsArmed tm =
    (d : Digest) (m : ObjectMeta) → lookup tm.index d ≡ some m → m.expiry ≢ 0 → tm.any_ttl ≡ true

abbrev Leaves : TierManager → ℕ → TierManager × ℕ → Type 0
Leaves tm now r =
    ((j : Digest) → lookup r.0.index j ≡ unexpired now (lookup tm.index j))
    × (size r.0.index + r.1 ≡ size tm.index)

never_expired :
    (tm : TierManager) (now : ℕ) (j : Digest)
    → tm.any_ttl ≡ false
    → IsArmed tm
    → lookup tm.index j ≡ unexpired now (lookup tm.index j)
unfolding IsArmed is_expired
never_expired tm now j off armed = elim (Option-cases (lookup tm.index j)) [
  | inl e ↦ rw e refl
  | inr (m, e) ↦ elim (ℕ_discrete m.expiry 0) [
    | yes never ↦ rw e (ground arith)
    | no some_day ↦ absurd (ground (arith, armed j m e some_day))
  ]
]

reap_if-Leaves :
    (b : Bool) (tm : TierManager) (now : ℕ)
    → tm.any_ttl ≡ b
    → IsIndex tm.index
    → IsArmed tm
    → Leaves tm now (reap_if b tm now)
unfolding reap_if
reap_if-Leaves false tm now e v armed = (λ j. never_expired tm now j e armed, omega arith)
reap_if-Leaves true tm now e v armed =
    let r = reap-Reaped (expired_keys tm.index now) tm 0 v in
    (
      λ j.
          let (to, from) = expired_keys-expired tm.index now j v in
          elim (Bool-cases (member dec j (expired_keys tm.index now))) [
            | inl gone ↦ ground (arith, r.entries j, to gone)
            | inr kept ↦ elim (Bool-cases (expired_entry now (lookup tm.index j))) [
              | inl late ↦ absurd (ground (arith, from late))
              | inr live ↦ ground (arith, r.entries j)
            ]
          ],
      omega (arith, r.count),
    )

-- Where every object with an expiry has armed the reaper: `reap_expired` leaves exactly the objects that
-- are not expired at the time, each with its entry, and returns how many it has taken away.
pub reap_expired-unexpired :
    (tm : TierManager) (now : ℕ)
    → IsIndex tm.index
    → IsArmed tm
    → ((j : Digest) → lookup (reap_expired tm now).0.index j ≡ unexpired now (lookup tm.index j))
      × (size (reap_expired tm now).0.index + (reap_expired tm now).1 ≡ size tm.index)
unfolding reap_expired
reap_expired-unexpired tm now v armed = reap_if-Leaves tm.any_ttl tm now refl v armed
