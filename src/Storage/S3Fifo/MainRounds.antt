-- ===== src/Storage/S3Fifo/MainRounds.antt =====
-- What one round over the main queue (the second loop of `evict`, s3fifo.cpp) does.
use goblin_store.Prelude.{
  ℕ, ◌+◌, ◌<◌, true, false, some, List, [], ◌∷◌, length, ◌≡◌, arith, Bool-cases, Option-cases, inl,
  inr, length-append,
}
use goblin_store.Prelude.Assoc.{
  find-insert, find-erase, total-insert_old, total-erase, member-append, insert-IsMap, erase-IsMap,
  length-insert_old, length-erase,
}
use goblin_store.Crypto.Digest.{Digest}
use goblin_store.Storage.S3Fifo.{
  small, main, Entry, S3Fifo, Round, victim, again, drained, second_chance, drop_main, main_found,
  main_round, resident_in, contains, is_visited, pop_front_resident,
}
use goblin_store.Storage.S3Fifo.View.{
  dec, in_queue, marked, count_in, count_in_both, resident_in-insert, resident_in-erase,
  resident_in-find, pop_front-resident,
}
use goblin_store.Storage.S3Fifo.Invariant.{Inv}
use goblin_store.Storage.S3Fifo.Rounds.{Same, Lost, marks, Keeps, pop-Keeps, pop_none}

module _ (s : S3Fifo) (v : Inv s) (q : List Digest) (d : Digest) where
  module _ (here : resident_in s.meta main d ≡ true) (keeps : Keeps s.meta main d q) where
    second_chance-Same : Same s (second_chance s q d)
    unfolding second_chance contains
    second_chance-Same =
        let (e, found, in_main) = resident_in-find s.meta main d here in
        let e' : Entry = record { q = main; visited = false } in
        record {
          inv = record {
            map = insert-IsMap dec d e' s.meta v.map;
            set = v.set;
            small_count = ground (arith, total-insert_old dec (in_queue small) d e' e s.meta found);
            main_count = ground (arith, total-insert_old dec (in_queue main) d e' e s.meta found);
            fits = omega (arith, length-insert_old dec d e' e s.meta found);
            small_queued =
                λ j h. ground (arith, resident_in-insert s.meta small j d e', v.small_queued j);
            main_queued = λ j h.
                ground
                  (arith, resident_in-insert s.meta main j d e', member-append dec j q d, keeps j);
            apart = λ j h. ground (arith, find-insert dec j d e' s.meta, v.apart j);
            ghosts = v.ghosts;
            bounded = v.bounded;
          };
          same = λ j. ground (arith, find-insert dec j d e' s.meta);
          size = length-insert_old dec d e' e s.meta found;
        }

    -- The second chance costs the digest its visited bit.
    second_chance-count : count_in main (second_chance s q d).meta ≡ count_in main s.meta
    unfolding second_chance
    second_chance-count =
        let (e, found, in_main) = resident_in-find s.meta main d here in
        ground (
          arith,
          total-insert_old dec (in_queue main) d (record { q = main; visited = false }) e s.meta
              found,
        )

    second_chance-marks :
        is_visited s.meta d ≡ true → marks (second_chance s q d).meta + 1 ≡ marks s.meta
    unfolding second_chance is_visited
    second_chance-marks hit =
        let (e, found, in_main) = resident_in-find s.meta main d here in
        ground (
          arith,
          total-insert_old dec marked d (record { q = main; visited = false }) e s.meta found,
        )

    drop_main-Lost : Lost s d (drop_main s q d)
    unfolding drop_main contains
    drop_main-Lost =
        let (e, found, in_main) = resident_in-find s.meta main d here in
        record {
          inv = record {
            map = erase-IsMap dec d s.meta v.map;
            set = v.set;
            small_count = ground (arith, total-erase dec (in_queue small) d e s.meta found);
            main_count =
                ground
                  (arith, total-erase dec (in_queue main) d e s.meta found, count_in_both s.meta);
            fits = omega (arith, length-erase dec d e s.meta found);
            small_queued =
                λ j h. ground (arith, resident_in-erase s.meta small j d v.map, v.small_queued j);
            main_queued = λ j h. ground (arith, resident_in-erase s.meta main j d v.map, keeps j);
            apart = λ j h. ground (arith, find-erase dec j d s.meta v.map, v.apart j);
            ghosts = v.ghosts;
            bounded = v.bounded;
          };
          was = ground arith;
          lost = λ j. ground (arith, find-erase dec j d s.meta v.map);
          size = length-erase dec d e s.meta found;
        }

abbrev pub main_measure : S3Fifo → ℕ
main_measure s = length s.main_q + marks s.meta

-- A round over the main queue ends with a victim that was resident, or with all residents kept: with
-- less to go and as many of them in the main queue, or with none of them there.
abbrev pub MainOk : S3Fifo → Round → Type 0
MainOk s (victim t d) = Lost s d t
MainOk s (again t) =
    Same s t × (main_measure t < main_measure s) × (count_in main t.meta ≡ count_in main s.meta)
MainOk s (drained t) = count_in main s.meta ≡ 0

main_found-some :
    (s : S3Fifo) (q : List Digest) (d : Digest)
    → Inv s
    → resident_in s.meta main d ≡ true
    → Keeps s.meta main d q
    → length q < length s.main_q
    → MainOk s (main_found s q (some d))
unfolding main_found
main_found-some s q d v here keeps shorter = elim (Bool-cases (is_visited s.meta d)) [
  | inl hit ↦ rw hit (
    second_chance-Same s v q d here keeps,
    less (second_chance-marks s v q d here keeps hit),
    second_chance-count s v q d here keeps,
  )
  | inr cold ↦ rw cold (drop_main-Lost s v q d here keeps)
]
  where
    less :
        marks (second_chance s q d).meta + 1 ≡ marks s.meta
        → main_measure (second_chance s q d) < main_measure s
    less h = omega (arith, length-append q (d ∷ []))

pub main_round-MainOk : (s : S3Fifo) → Inv s → MainOk s (main_round s)
unfolding main_round
main_round-MainOk s v = elim (Option-cases (pop_front_resident s.meta main s.main_q).0) [
  | inl empty ↦ rw (empty, main_found) (pop_none s.meta main s.main_q v.map empty v.main_queued)
  | inr (d, found) ↦
      let (here, shorter) = pop_front-resident s.meta main s.main_q d found in
      rw found (
        main_found-some s (pop_front_resident s.meta main s.main_q).1 d v here
          (pop-Keeps s.meta main s.main_q d found v.main_queued) shorter)
]
