-- ===== src/Storage/S3Fifo/Eviction.antt =====
-- `evict` of s3fifo.cpp: it finds a victim whenever anything is resident, and takes that one only.
use goblin_store.Prelude.{
  ℕ, zero, suc, ◌+◌, ◌≤◌, ◌<◌, ◌&&◌, Option, none, some, [], ◌∷◌, length, ◌≡◌, refl, arith,
  Bool-cases, inl, inr, ◌⊎◌, ◌==◌, ◌∙◌,
}
use goblin_store.Crypto.Digest.{Digest}
use goblin_store.Storage.S3Fifo.{
  small, main, S3Fifo, Round, victim, again, drained, small_round, main_round, drain_small,
  drain_main, drain_main_all, after_small, from_small, evict, resident,
}
use goblin_store.Storage.S3Fifo.View.{Meta, count_in, count_in_both}
use goblin_store.Storage.S3Fifo.Invariant.{Inv}
use goblin_store.Storage.S3Fifo.Rounds.{Same, Lost, marks}
use goblin_store.Storage.S3Fifo.SmallRounds.{small_round-SmallOk}
use goblin_store.Storage.S3Fifo.MainRounds.{main_measure, main_round-MainOk}

-- A digest is reported that was resident, and it alone has left.
unfoldable pub Evicts : S3Fifo → S3Fifo × Option Digest → Type 0
Evicts s r = (d : Digest) × (r.1 ≡ some d) × Lost s d r.0

Round-cases :
    (r : Round)
    → ((t : S3Fifo) × (d : Digest) × (r ≡ victim t d))
      ⊎ (((t : S3Fifo) × (r ≡ again t)) ⊎ ((t : S3Fifo) × (r ≡ drained t)))
Round-cases (victim t d) = inl (t, d, refl)
Round-cases (again t) = inr (inl (t, refl))
Round-cases (drained t) = inr (inr (t, refl))

Lost-Same : {s t u : S3Fifo} {d : Digest} → Same s t → Lost t d u → Lost s d u
Lost-Same {s} {t} {u} {d} k l = record {
  inv = l.inv;
  was = ground (arith, k.same d);
  lost = λ j. ground (arith, k.same j, l.lost j);
  size = omega (arith, k.size, l.size);
}

Evicts-Same : {s t : S3Fifo} (r : S3Fifo × Option Digest) → Same s t → Evicts t r → Evicts s r
unfolding Evicts
Evicts-Same r k (d, found, l) = (d, found, Lost-Same k l)

marks-le : (m : Meta) → marks m ≤ length m
marks-le [] = omega arith
marks-le ((d, e) ∷ m) = ground (arith, marks-le m)

-- With enough fuel the second loop ends with a victim.
drain_main-Evicts :
    (fuel : ℕ) (s : S3Fifo)
    → Inv s
    → 0 < count_in main s.meta
    → main_measure s < fuel
    → Evicts s (drain_main fuel s)
unfolding drain_main Evicts
drain_main-Evicts zero s v some_main enough = absurd (omega arith)
drain_main-Evicts (suc fuel) s v some_main enough =
    let ok = main_round-MainOk s v in
    elim (Round-cases (main_round s)) [
      | inl (t, d, e) ↦ rw (e, drain_main) (d, refl, rw e at ok)
      | inr (inl (t, e)) ↦
          let (k, less, count) = (rw e at ok) in
          rw (e, drain_main)
            (Evicts-Same _ k
              (drain_main-Evicts fuel t k.inv (omega (arith, count)) (omega (arith, less))))
      | inr (inr (t, e)) ↦
          let none_left : count_in main s.meta ≡ 0 = rw e at ok in absurd (omega (arith, none_left))
    ]

drain_main_all-Evicts :
    (s : S3Fifo) → Inv s → 0 < count_in main s.meta → Evicts s (drain_main_all s)
unfolding drain_main_all
drain_main_all-Evicts s v some_main =
    drain_main-Evicts (suc (length s.main_q + length s.meta)) s v some_main
      (omega (arith, marks-le s.meta))

-- What the first loop leaves: a victim, or everything resident in the main queue.
SmallEnds : S3Fifo → S3Fifo × Option Digest → Type 0
SmallEnds s r = Evicts s r ⊎ ((r.1 ≡ none) × (Same s r.0 × (count_in small r.0.meta ≡ 0)))

SmallEnds-Same :
    {s t : S3Fifo} (r : S3Fifo × Option Digest) → Same s t → SmallEnds t r → SmallEnds s r
unfolding SmallEnds
SmallEnds-Same r k (inl e) = inl (Evicts-Same r k e)
SmallEnds-Same r k (inr (e, (k', c))) =
    inr (e, (record { inv = k'.inv; same = λ j. k'.same j ∙ k.same j; size = k'.size ∙ k.size }, c))

drain_small-SmallEnds :
    (fuel : ℕ) (s : S3Fifo) → Inv s → length s.small_q < fuel → SmallEnds s (drain_small fuel s)
unfolding drain_small SmallEnds Evicts
drain_small-SmallEnds zero s v enough = absurd (omega arith)
drain_small-SmallEnds (suc fuel) s v enough =
    let ok = small_round-SmallOk s v in
    elim (Round-cases (small_round s)) [
      | inl (t, d, e) ↦ rw (e, drain_small) (inl (d, refl, rw e at ok))
      | inr (inl (t, e)) ↦
          let (k, less) = (rw e at ok) in
          rw (e, drain_small)
            (SmallEnds-Same _ k (drain_small-SmallEnds fuel t k.inv (omega (arith, less))))
      | inr (inr (t, e)) ↦ rw (e, drain_small) (inr (refl, rw e at ok))
    ]

after_small-Evicts :
    (s : S3Fifo) (r : S3Fifo × Option Digest)
    → 0 < length s.meta
    → SmallEnds s r
    → Evicts s (after_small r)
unfolding after_small SmallEnds Evicts
after_small-Evicts s (t, some d) h (inl e) = e
after_small-Evicts s (t, some d) h (inr (e, _)) = absurd (cc)
after_small-Evicts s (t, none) h (inl (d, e, _)) = absurd (cc)
after_small-Evicts s (t, none) h (inr (_, (k, c))) =
    Evicts-Same _ k (drain_main_all-Evicts t k.inv (omega (arith, count_in_both t.meta, k.size)))

-- While anything is resident, `evict` returns a digest that was resident. Afterwards that digest is
-- not resident, every other one is exactly if it was before, and the invariant holds.
pub evict-Evicts : (s : S3Fifo) → Inv s → 0 < resident s → Evicts s (evict s)
unfolding evict resident
evict-Evicts s v h = elim (Bool-cases (s.small_n == 0 && s.main_n == 0)) [
  | inl empty ↦ absurd (ground (arith, count_in_both s.meta))
  | inr busy ↦ elim (Bool-cases (from_small s)) [
    | inl first ↦
        rw (busy, first)
          (after_small-Evicts s (drain_small (suc (length s.small_q)) s) h
            (drain_small-SmallEnds (suc (length s.small_q)) s v (omega arith)))
    | inr second ↦
        rw (busy, second) (drain_main_all-Evicts s v (ground (arith, count_in_both s.meta)))
  ]
]

-- With the invariant and nothing resident, `evict` returns none and changes nothing.
pub evict_empty : (s : S3Fifo) → Inv s → resident s ≡ 0 → evict s ≡ (s, none)
unfolding evict resident
evict_empty s v h = ground (arith, count_in_both s.meta)
