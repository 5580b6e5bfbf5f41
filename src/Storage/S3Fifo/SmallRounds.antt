-- ===== src/Storage/S3Fifo/SmallRounds.antt =====
-- What one round over the small queue (the first loop of `evict`, s3fifo.cpp) does.
use goblin_store.Prelude.{
  ◌<◌, true, false, none, some, List, [], ◌∷◌, ◌++◌, length, ◌≡◌, refl, arith, Bool-cases,
  Option-cases, inl, inr,
}
use goblin_store.Prelude.Assoc.{
  add_member, find-insert, find-erase, total-insert_old, total-erase, member-append, insert-IsMap,
  erase-IsMap, length-insert_old, length-erase, member-add_member, add_member-IsDistinct,
}
use goblin_store.Crypto.Digest.{Digest}
use goblin_store.Storage.S3Fifo.{
  small, main, Entry, S3Fifo, Round, victim, again, drained, promote, drop_small, small_found,
  small_round, resident_in, contains, is_visited, pop_front_resident,
}
use goblin_store.Storage.S3Fifo.View.{
  dec, in_queue, count_in, count_in_both, resident_in-insert, resident_in-erase, resident_in-find,
  pop_front-resident,
}
use goblin_store.Storage.S3Fifo.Invariant.{Inv}
use goblin_store.Storage.S3Fifo.Ghosts.{ghost_trim-Trimmed}
use goblin_store.Storage.S3Fifo.Rounds.{Same, Lost, Keeps, pop-Keeps, pop_none, no_resident}

module _ (s : S3Fifo) (v : Inv s) (q : List Digest) (d : Digest) where
  module _ (here : resident_in s.meta small d ≡ true) (keeps : Keeps s.meta small d q) where
    promote-Same : Same s (promote s q d)
    unfolding promote contains
    promote-Same =
        let (e, found, in_small) = resident_in-find s.meta small d here in
        let e' : Entry = record { q = main; visited = false } in
        record {
          inv = record {
            map = insert-IsMap dec d e' s.meta v.map;
            set = v.set;
            small_count = ground (
              arith,
              total-insert_old dec (in_queue small) d e' e s.meta found,
              count_in_both s.meta,
            );
            main_count = ground (
              arith,
              total-insert_old dec (in_queue main) d e' e s.meta found,
              total-insert_old dec (in_queue small) d e' e s.meta found,
              count_in_both s.meta,
            );
            fits = omega (arith, length-insert_old dec d e' e s.meta found);
            small_queued = λ j h. ground (arith, resident_in-insert s.meta small j d e', keeps j);
            main_queued = λ j h. ground (
              arith,
              resident_in-insert s.meta main j d e',
              member-append dec j s.main_q d,
              v.main_queued j,
            );
            apart = λ j h. ground (arith, find-insert dec j d e' s.meta, v.apart j);
            ghosts = v.ghosts;
            bounded = v.bounded;
          };
          same = λ j. ground (arith, find-insert dec j d e' s.meta);
          size = length-insert_old dec d e' e s.meta found;
        }

    drop_small-Lost : Lost s d (drop_small s q d)
    unfolding drop_small contains
    drop_small-Lost =
        let (e, found, in_small) = resident_in-find s.meta small d here in
        let t =
          ghost_trim-Trimmed s.cap (s.ghost ++ d ∷ []) (add_member dec d s.ghost_set)
            (add_member-IsDistinct dec d s.ghost_set v.set)
            (λ j h. ground (
              arith,
              member-add_member dec j d s.ghost_set,
              member-append dec j s.ghost d,
              v.ghosts j,
            )) in
        record {
          inv = record {
            map = erase-IsMap dec d s.meta v.map;
            set = t.distinct;
            small_count =
                ground
                  (arith, total-erase dec (in_queue small) d e s.meta found, count_in_both s.meta);
            main_count = ground (arith, total-erase dec (in_queue main) d e s.meta found);
            fits = omega (arith, length-erase dec d e s.meta found);
            small_queued = λ j h. ground (arith, resident_in-erase s.meta small j d v.map, keeps j);
            main_queued =
                λ j h. ground (arith, resident_in-erase s.meta main j d v.map, v.main_queued j);
            apart = λ j h. ground (
              arith,
              find-erase dec j d s.meta v.map,
              t.fewer j h,
              member-add_member dec j d s.ghost_set,
              v.apart j,
            );
            ghosts = t.inside;
            bounded = t.short;
          };
          was = ground arith;
          lost = λ j. ground (arith, find-erase dec j d s.meta v.map);
          size = length-erase dec d e s.meta found;
        }

-- A round over the small queue ends with a victim that was resident, or with all residents kept: one
-- queue place less to go, or none of them left in the small queue.
abbrev pub SmallOk : S3Fifo → Round → Type 0
SmallOk s (victim t d) = Lost s d t
SmallOk s (again t) = Same s t × (length t.small_q < length s.small_q)
SmallOk s (drained t) = Same s t × (count_in small t.meta ≡ 0)

small_found-none :
    (s : S3Fifo) (q : List Digest)
    → Inv s
    → count_in small s.meta ≡ 0
    → SmallOk s (small_found s q none)
unfolding small_found contains
small_found-none s q v empty = (
  record {
    inv = record {
      map = v.map;
      set = v.set;
      small_count = v.small_count;
      main_count = v.main_count;
      fits = v.fits;
      small_queued = λ j h. ground (arith, no_resident s.meta small j v.map empty);
      main_queued = v.main_queued;
      apart = v.apart;
      ghosts = v.ghosts;
      bounded = v.bounded;
    };
    same = λ j. refl;
    size = refl;
  },
  empty,
)

small_found-some :
    (s : S3Fifo) (q : List Digest) (d : Digest)
    → Inv s
    → resident_in s.meta small d ≡ true
    → Keeps s.meta small d q
    → length q < length s.small_q
    → SmallOk s (small_found s q (some d))
unfolding small_found
small_found-some s q d v here keeps shorter = elim (Bool-cases (is_visited s.meta d)) [
  | inl hit ↦ rw hit (promote-Same s v q d here keeps, shorter_q)
  | inr cold ↦ rw cold (drop_small-Lost s v q d here keeps)
]
  where
    shorter_q : length (promote s q d).small_q < length s.small_q
    shorter_q = shorter

pub small_round-SmallOk : (s : S3Fifo) → Inv s → SmallOk s (small_round s)
unfolding small_round
small_round-SmallOk s v = elim (Option-cases (pop_front_resident s.meta small s.small_q).0) [
  | inl empty ↦ rw empty (
      small_found-none s (pop_front_resident s.meta small s.small_q).1 v
        (pop_none s.meta small s.small_q v.map empty v.small_queued))
  | inr (d, found) ↦
      let (here, shorter) = pop_front-resident s.meta small s.small_q d found in
      rw found (
        small_found-some s (pop_front_resident s.meta small s.small_q).1 d v here
          (pop-Keeps s.meta small s.small_q d found v.small_queued) shorter)
]
