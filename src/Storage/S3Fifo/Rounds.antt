-- ===== src/Storage/S3Fifo/Rounds.antt =====
-- What one round of the loops of `evict` (s3fifo.cpp) does.
use goblin_store.Prelude.{
  ℕ, ◌+◌, true, false, ite, none, some, List, [], ◌∷◌, length, ◌≡◌, ◌≢◌, refl, arith, Bool-cases,
  inl, inr,
}
use goblin_store.Prelude.Assoc.{member, find, IsMap, total}
use goblin_store.Crypto.Digest.{Digest}
use goblin_store.Storage.S3Fifo.{Q, S3Fifo, resident_in, contains, pop_front_resident}
use goblin_store.Storage.S3Fifo.View.{dec, Meta, marked, count_in, pop_front-member}
use goblin_store.Storage.S3Fifo.Invariant.{Inv}

-- The same digests are resident.
pub record Same (s t : S3Fifo) : Type 0 where
  pub inv : Inv t
  pub same : (j : Digest) → contains t j ≡ contains s j
  pub size : length t.meta ≡ length s.meta

-- One digest is resident no more, and every other as before.
pub record Lost (s : S3Fifo) (d : Digest) (t : S3Fifo) : Type 0 where
  pub inv : Inv t
  pub was : contains s d ≡ true
  pub lost : (j : Digest) → contains t j ≡ ite (dec d j) false (contains s j)
  pub size : length t.meta + 1 ≡ length s.meta

-- The bits that the second loop has yet to clear.
abbrev pub marks : Meta → ℕ
marks m = total dec marked m

-- A queue keeps its residents but for one.
abbrev pub Keeps : Meta → Q → Digest → List Digest → Type 0
Keeps m which d q = (j : Digest) → resident_in m which j ≡ true → j ≢ d → member dec j q ≡ true

pub none_in_queue :
    (m : Meta) (which : Q)
    → IsMap dec m
    → ((j : Digest) → resident_in m which j ≡ false)
    → count_in which m ≡ 0
unfolding resident_in find
none_in_queue [] which v h = refl
none_in_queue ((d, e) ∷ m) which v h =
    ground (arith, none_in_queue m which v.1 (λ j. ground (arith, h j)), h d)

pub pop-Keeps :
    (m : Meta) (which : Q) (q : List Digest) (d : Digest)
    → (pop_front_resident m which q).0 ≡ some d
    → ((j : Digest) → resident_in m which j ≡ true → member dec j q ≡ true)
    → Keeps m which d (pop_front_resident m which q).1
pop-Keeps m which q d found queued j r other =
    ground (arith, pop_front-member m which q j r (queued j r))

-- A queue in which nothing is found has no resident.
pub pop_none :
    (m : Meta) (which : Q) (q : List Digest)
    → IsMap dec m
    → (pop_front_resident m which q).0 ≡ none
    → ((j : Digest) → resident_in m which j ≡ true → member dec j q ≡ true)
    → count_in which m ≡ 0
pop_none m which q v empty queued = none_in_queue m which v λ j.
    elim (Bool-cases (resident_in m which j)) [
      | inl r ↦ absurd (ground (arith, pop_front-member m which q j r (queued j r)))
      | inr gone ↦ gone
    ]

pub no_resident :
    (m : Meta) (which : Q) (j : Digest)
    → IsMap dec m
    → count_in which m ≡ 0
    → resident_in m which j ≡ false
unfolding resident_in find
no_resident [] which j v h = refl
no_resident ((d, e) ∷ m) which j v h = ground (arith, no_resident m which j v.1)
