-- ===== src/Storage/S3Fifo/View.antt =====
-- How the bookkeeping of s3fifo.cpp reads: who is resident, in which queue, and how many.
use goblin_store.Prelude.{
  ℕ, ◌+◌, ◌<◌, true, false, if◌then◌else◌, ite, none, some, List, [], ◌∷◌, length, ◌≡◌, ◌≢◌, refl,
  arith, Option-cases, inl, inr, ◌⊎◌,
}
use goblin_store.Prelude.Assoc.{member, find, insert, erase, IsMap, total, find-insert, find-erase}
use goblin_store.Crypto.Digest.{Digest, Digest-discrete}
use goblin_store.Storage.S3Fifo.{Q, small, main, same_q, Entry, resident_in, pop_front_resident}

abbrev pub dec : Discrete Digest
dec = Digest-discrete

abbrev pub Meta : Type 0
Meta = List (Digest × Entry)

abbrev pub in_queue : Q → Entry → ℕ
in_queue which e = if same_q e.q which then 1 else 0

abbrev pub marked : Entry → ℕ
marked e = if e.visited then 1 else 0

-- The residents of one queue.
abbrev pub count_in : Q → Meta → ℕ
count_in which = total dec (in_queue which)

pub count_in_both : (m : Meta) → count_in small m + count_in main m ≡ length m
count_in_both [] = refl
count_in_both ((d, e) ∷ m) = ground (arith, count_in_both m)

pub resident_in-insert :
    (m : Meta) (which : Q) (j k : Digest) (e : Entry)
    → resident_in (insert dec k e m) which j
      ≡ ite (dec k j) (same_q e.q which) (resident_in m which j)
unfolding resident_in
resident_in-insert m which j k e = ground (arith, find-insert dec j k e m)

pub resident_in-erase :
    (m : Meta) (which : Q) (j k : Digest)
    → IsMap dec m
    → resident_in (erase dec k m) which j ≡ ite (dec k j) false (resident_in m which j)
unfolding resident_in
resident_in-erase m which j k h = ground (arith, find-erase dec j k m h)

pub resident_in-find :
    (m : Meta) (which : Q) (d : Digest)
    → resident_in m which d ≡ true
    → (e : Entry) × (find dec d m ≡ some e) × (same_q e.q which ≡ true)
unfolding resident_in
resident_in-find m which d h = elim (Option-cases (find dec d m)) [
  | inl gone ↦ absurd (ground arith)
  | inr (e, here) ↦ (e, here, ground arith)
]

-- What `pop_front_resident` skips is not resident in its queue.
pub pop_front-member :
    (m : Meta) (which : Q) (q : List Digest) (j : Digest)
    → resident_in m which j ≡ true
    → member dec j q ≡ true
    → ((pop_front_resident m which q).0 ≡ some j)
      ⊎ (((pop_front_resident m which q).0 ≢ none)
          × (member dec j (pop_front_resident m which q).1 ≡ true))
unfolding pop_front_resident member
pop_front-member m which [] j r h = cc
pop_front-member m which (d ∷ q) j r h = ground (arith, pop_front-member m which q j r)

pub pop_front-resident :
    (m : Meta) (which : Q) (q : List Digest) (d : Digest)
    → (pop_front_resident m which q).0 ≡ some d
    → (resident_in m which d ≡ true) × (length (pop_front_resident m which q).1 < length q)
unfolding pop_front_resident
pop_front-resident m which [] d h = cc
pop_front-resident m which (k ∷ q) d h = ground (arith, pop_front-resident m which q d)
