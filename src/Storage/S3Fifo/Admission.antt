-- ===== src/Storage/S3Fifo/Admission.antt =====
-- `insert`, `touch` and `remove` of s3fifo.cpp keep the invariant.
use goblin_store.Prelude.{
  ℕ, ◌+◌, ◌<◌, true, false, none, some, length, ◌≡◌, refl, arith, Bool-cases, Option-cases, inl,
  inr,
}
use goblin_store.Prelude.Assoc.{
  member, find, find-insert, find-erase, total-insert_new, total-insert_old, total-erase,
  member-drop_member, member-append, insert-IsMap, erase-IsMap, drop_member-IsDistinct,
  length-insert_new, length-insert_old, length-erase,
}
use goblin_store.Common.Types.{u64}
use goblin_store.Crypto.Digest.{Digest}
use goblin_store.Storage.S3Fifo.{
  Q, small, main, Entry, S3Fifo, create, admit_main, admit_small, mark, insert_item, touch,
  drop_entry, drop_ghost, remove, resident_in,
}
use goblin_store.Storage.S3Fifo.View.{
  dec, in_queue, count_in_both, resident_in-insert, resident_in-erase,
}
use goblin_store.Storage.S3Fifo.Invariant.{Inv, resident_in-none}

abbrev fresh_entry : Q → Entry
fresh_entry which = record { q = which; visited = false }

-- The empty policy has the invariant.
pub create-Inv : (hint : ℕ) → Inv (create hint)
unfolding create resident_in find member
create-Inv hint = record {
  map = tt;
  set = tt;
  small_count = refl;
  main_count = refl;
  fits = omega arith;
  small_queued = λ j h. ground arith;
  main_queued = λ j h. ground arith;
  apart = λ j h. ground arith;
  ghosts = λ j h. ground arith;
  bounded = omega arith;
}

module _ (s : S3Fifo) (d : Digest) (v : Inv s) where
  module _ (new : find dec d s.meta ≡ none) (room : length s.meta + 1 < u64) where
    admit_main-Inv : Inv (admit_main s d)
    unfolding admit_main
    admit_main-Inv =
        let e = fresh_entry main in
        record {
          map = insert-IsMap dec d e s.meta v.map;
          set = drop_member-IsDistinct dec d s.ghost_set v.set;
          small_count = omega (arith, total-insert_new dec (in_queue small) d e s.meta new);
          main_count =
              omega
                (arith, total-insert_new dec (in_queue main) d e s.meta new, count_in_both s.meta);
          fits = omega (arith, length-insert_new dec d e s.meta new);
          small_queued = λ j h. ground (
            arith,
            resident_in-insert s.meta small j d e,
            resident_in-none s.meta small d new,
            v.small_queued j,
          );
          main_queued = λ j h. ground (
            arith,
            resident_in-insert s.meta main j d e,
            member-append dec j s.main_q d,
            v.main_queued j,
          );
          apart = λ j h. ground (
            arith,
            find-insert dec j d e s.meta,
            member-drop_member dec j d s.ghost_set v.set,
            v.apart j,
          );
          ghosts = λ j h. ground (arith, member-drop_member dec j d s.ghost_set v.set, v.ghosts j);
          bounded = v.bounded;
        }

    admit_small-Inv : member dec d s.ghost_set ≡ false → Inv (admit_small s d)
    unfolding admit_small
    admit_small-Inv fresh =
        let e = fresh_entry small in
        record {
          map = insert-IsMap dec d e s.meta v.map;
          set = v.set;
          small_count =
              omega
                (arith, total-insert_new dec (in_queue small) d e s.meta new, count_in_both s.meta);
          main_count = omega (arith, total-insert_new dec (in_queue main) d e s.meta new);
          fits = omega (arith, length-insert_new dec d e s.meta new);
          small_queued = λ j h. ground (
            arith,
            resident_in-insert s.meta small j d e,
            member-append dec j s.small_q d,
            v.small_queued j,
          );
          main_queued =
              λ j h. ground (arith, resident_in-insert s.meta main j d e, v.main_queued j);
          apart = λ j h. ground (arith, find-insert dec j d e s.meta, v.apart j);
          ghosts = v.ghosts;
          bounded = v.bounded;
        }

  module _ (e : Entry) (here : find dec d s.meta ≡ some e) where
    mark-Inv : Inv (mark s d e)
    unfolding mark resident_in
    mark-Inv =
        let e' : Entry = record { q = e.q; visited = true } in
        record {
          map = insert-IsMap dec d e' s.meta v.map;
          set = v.set;
          small_count = omega (arith, total-insert_old dec (in_queue small) d e' e s.meta here);
          main_count = omega (arith, total-insert_old dec (in_queue main) d e' e s.meta here);
          fits = omega (arith, length-insert_old dec d e' e s.meta here);
          small_queued = λ j h. ground (arith, find-insert dec j d e' s.meta, v.small_queued j);
          main_queued = λ j h. ground (arith, find-insert dec j d e' s.meta, v.main_queued j);
          apart = λ j h. ground (arith, find-insert dec j d e' s.meta, v.apart j);
          ghosts = v.ghosts;
          bounded = v.bounded;
        }

    drop_entry-Inv : Inv (drop_entry s d e)
    unfolding drop_entry
    drop_entry-Inv = record {
      map = erase-IsMap dec d s.meta v.map;
      set = v.set;
      small_count =
          ground (arith, total-erase dec (in_queue small) d e s.meta here, count_in_both s.meta);
      main_count =
          ground (arith, total-erase dec (in_queue main) d e s.meta here, count_in_both s.meta);
      fits = omega (arith, length-erase dec d e s.meta here);
      small_queued =
          λ j h. ground (arith, resident_in-erase s.meta small j d v.map, v.small_queued j);
      main_queued = λ j h. ground (arith, resident_in-erase s.meta main j d v.map, v.main_queued j);
      apart = λ j h. ground (arith, find-erase dec j d s.meta v.map, v.apart j);
      ghosts = v.ghosts;
      bounded = v.bounded;
    }

  drop_ghost-Inv : Inv (drop_ghost s d)
  unfolding drop_ghost
  drop_ghost-Inv = record {
    map = v.map;
    set = drop_member-IsDistinct dec d s.ghost_set v.set;
    small_count = v.small_count;
    main_count = v.main_count;
    fits = v.fits;
    small_queued = v.small_queued;
    main_queued = v.main_queued;
    apart = λ j h. ground (arith, member-drop_member dec j d s.ghost_set v.set, v.apart j);
    ghosts = λ j h. ground (arith, member-drop_member dec j d s.ghost_set v.set, v.ghosts j);
    bounded = v.bounded;
  }

-- Inserting keeps the invariant, as long as the number of residents fits its counter.
pub insert_item-Inv :
    (s : S3Fifo) (d : Digest) → Inv s → length s.meta + 1 < u64 → Inv (insert_item s d)
unfolding insert_item
insert_item-Inv s d v room = elim (Option-cases (find dec d s.meta)) [
  | inl new ↦ elim (Bool-cases (member dec d s.ghost_set)) [
    | inl ghost ↦ rw (new, ghost, insert_item) (admit_main-Inv s d v new room)
    | inr fresh ↦ rw (new, fresh, insert_item) (admit_small-Inv s d v new room fresh)
  ]
  | inr (e, here) ↦ rw (here, insert_item) (mark-Inv s d v e here)
]

-- A hit keeps it.
pub touch-Inv : (s : S3Fifo) (d : Digest) → Inv s → Inv (touch s d)
unfolding touch
touch-Inv s d v = elim (Option-cases (find dec d s.meta)) [
  | inl new ↦ rw (new, touch) v
  | inr (e, here) ↦ rw (here, touch) (mark-Inv s d v e here)
]

-- So does a removal from outside.
pub remove-Inv : (s : S3Fifo) (d : Digest) → Inv s → Inv (remove s d)
unfolding remove
remove-Inv s d v = elim (Option-cases (find dec d s.meta)) [
  | inl new ↦ rw (new, remove) (drop_ghost-Inv s d v)
  | inr (e, here) ↦
      rw (here, remove) (drop_ghost-Inv (drop_entry s d e) d (drop_entry-Inv s d v e here))
]
