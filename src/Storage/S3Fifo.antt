-- ===== src/Storage/S3Fifo.antt =====
-- src/goblin/storage/s3fifo.hpp and s3fifo.cpp: the S3-FIFO eviction policy. The hash map and the
-- hash set are those of Prelude/Assoc; the front of a queue is the head of its list. The resident
-- counts are `size_t`, with the wrap-around written out.
pub mod View
pub mod Invariant
pub mod Admission
pub mod Ghosts
pub mod Rounds
pub mod SmallRounds
pub mod MainRounds
pub mod Eviction
pub mod Residents
pub mod Runs
use goblin_store.Prelude.{
  ℕ, zero, suc, ◌+◌, ◌/◌, ◌-◌, ◌%◌, ◌^◌, max, Bool, true, false, ◌&&◌, ◌==◌, leb, ltb,
  if◌then◌else◌, Option, none, some, List, [], ◌∷◌, ◌++◌, length, is_some,
}
use goblin_store.Prelude.Assoc.{member, add_member, drop_member, find, insert, erase}
use goblin_store.Common.Types.{add64, sub64}
use goblin_store.Crypto.Digest.{Digest, Digest-discrete}

pub data Q : Type 0 where
  small main : Q

abbrev pub same_q : Q → Q → Bool
same_q small small = true
same_q main main = true
same_q small main = false
same_q main small = false

pub record Entry : Type 0 where
  pub q : Q
  pub visited : Bool

pub record S3Fifo : Type 0 where
  pub small_q : List Digest
  pub main_q : List Digest
  pub ghost : List Digest
  pub meta : List (Digest × Entry)
  pub ghost_set : List Digest
  pub cap : ℕ
  pub small_n : ℕ
  pub main_n : ℕ

unfoldable pub create : ℕ → S3Fifo
create capacity_hint = record {
  small_q = [];
  main_q = [];
  ghost = [];
  meta = [];
  ghost_set = [];
  cap = if capacity_hint == 0 then 1 else capacity_hint;
  small_n = 0;
  main_n = 0;
}

-- A digest that was evicted recently goes straight to the main queue, another to the small one.
unfoldable pub admit_main : S3Fifo → Digest → S3Fifo
admit_main s d = record s {
  ghost_set = drop_member Digest-discrete d s.ghost_set;
  meta = insert Digest-discrete d (record { q = main; visited = false }) s.meta;
  main_q = s.main_q ++ d ∷ [];
  main_n = add64 s.main_n 1;
}

unfoldable pub admit_small : S3Fifo → Digest → S3Fifo
admit_small s d = record s {
  meta = insert Digest-discrete d (record { q = small; visited = false }) s.meta;
  small_q = s.small_q ++ d ∷ [];
  small_n = add64 s.small_n 1;
}

-- `it->second.visited = true`
unfoldable pub mark : S3Fifo → Digest → Entry → S3Fifo
mark s d e = record s {
  meta = insert Digest-discrete d (record { q = e.q; visited = true }) s.meta;
}

unfoldable pub insert_item : S3Fifo → Digest → S3Fifo
unfolding mark admit_main admit_small
insert_item s d = elim (find Digest-discrete d s.meta) [
  | some e ↦ mark s d e
  | none ↦ if member Digest-discrete d s.ghost_set then admit_main s d else admit_small s d
]

unfoldable pub touch : S3Fifo → Digest → S3Fifo
unfolding mark
touch s d = elim (find Digest-discrete d s.meta) [ some e ↦ mark s d e | none ↦ s ]

-- A resident digest leaves the map and the count of its queue; its place in the queue goes stale.
unfoldable pub drop_entry : S3Fifo → Digest → Entry → S3Fifo
drop_entry s d e = record s {
  small_n = if same_q e.q small then sub64 s.small_n 1 else s.small_n;
  main_n = if same_q e.q small then s.main_n else sub64 s.main_n 1;
  meta = erase Digest-discrete d s.meta;
}

unfoldable pub drop_ghost : S3Fifo → Digest → S3Fifo
drop_ghost s d = record s { ghost_set = drop_member Digest-discrete d s.ghost_set }

unfoldable pub remove : S3Fifo → Digest → S3Fifo
unfolding drop_entry drop_ghost
remove s d =
    drop_ghost (elim (find Digest-discrete d s.meta) [ some e ↦ drop_entry s d e | none ↦ s ]) d

unfoldable pub resident_in : List (Digest × Entry) → Q → Digest → Bool
resident_in meta which d = elim (find Digest-discrete d meta) [
  | some e ↦ same_q e.q which
  | none ↦ false
]

-- The digest found, and the queue that is left.
unfoldable pub pop_front_resident :
    List (Digest × Entry) → Q → List Digest → Option Digest × List Digest
unfolding resident_in
pop_front_resident meta which [] = (none, [])
pop_front_resident meta which (d ∷ q) =
    let rest = pop_front_resident meta which q in
    if resident_in meta which d then (some d, q) else rest

-- The loop of `ghost_push`: the queue and the set.
unfoldable pub ghost_trim : ℕ → List Digest → List Digest → List Digest × List Digest
ghost_trim limit [] set = ([], set)
ghost_trim limit (d ∷ ghost) set =
    let rest = ghost_trim limit ghost (drop_member Digest-discrete d set) in
    if ltb limit (length (d ∷ ghost)) then rest else (d ∷ ghost, set)

unfoldable pub ghost_push : S3Fifo → Digest → S3Fifo
unfolding ghost_trim
ghost_push s d =
    let (ghost, set) =
      ghost_trim s.cap (s.ghost ++ d ∷ []) (add_member Digest-discrete d s.ghost_set) in
    record s { ghost = ghost; ghost_set = set }

-- `it->second.visited` after `find`; the caller has just seen the digest resident.
unfoldable pub is_visited : List (Digest × Entry) → Digest → Bool
is_visited meta d = elim (find Digest-discrete d meta) [ some e ↦ e.visited | none ↦ false ]

-- How one round of a loop of `evict` ends: with a victim, with another round, or with an empty queue.
pub data Round : Type 0 where
  victim : S3Fifo → Digest → Round
  again : S3Fifo → Round
  drained : S3Fifo → Round

-- A digest at the front of the small queue moves to the main queue, or is the victim.
unfoldable pub promote : S3Fifo → List Digest → Digest → S3Fifo
promote s q d = record s {
  small_q = q;
  small_n = sub64 s.small_n 1;
  meta = insert Digest-discrete d (record { q = main; visited = false }) s.meta;
  main_q = s.main_q ++ d ∷ [];
  main_n = add64 s.main_n 1;
}

unfoldable pub drop_small : S3Fifo → List Digest → Digest → S3Fifo
unfolding ghost_push
drop_small s q d =
    let s' : S3Fifo = record s {
      small_q = q;
      small_n = sub64 s.small_n 1;
      meta = erase Digest-discrete d s.meta;
    } in
    ghost_push s' d

unfoldable pub small_found : S3Fifo → List Digest → Option Digest → Round
unfolding is_visited promote drop_small
small_found s q none = drained (record s { small_q = q })
small_found s q (some d) =
    if is_visited s.meta d then again (promote s q d) else victim (drop_small s q d) d

unfoldable pub small_round : S3Fifo → Round
unfolding pop_front_resident small_found
small_round s = let (found, q) = pop_front_resident s.meta small s.small_q in small_found s q found

-- The first loop of `evict`, on fuel; no victim means that the small queue is drained.
unfoldable pub drain_small : ℕ → S3Fifo → S3Fifo × Option Digest
unfolding small_round
drain_small zero s = (s, none)
drain_small (suc fuel) s = elim (small_round s) [
  | victim s' d ↦ (s', some d)
  | again s' ↦ drain_small fuel s'
  | drained s' ↦ (s', none)
]

-- A digest at the front of the main queue gets a second chance, or is the victim.
unfoldable pub second_chance : S3Fifo → List Digest → Digest → S3Fifo
second_chance s q d = record s {
  meta = insert Digest-discrete d (record { q = main; visited = false }) s.meta;
  main_q = q ++ d ∷ [];
}

unfoldable pub drop_main : S3Fifo → List Digest → Digest → S3Fifo
drop_main s q d = record s {
  main_q = q;
  main_n = sub64 s.main_n 1;
  meta = erase Digest-discrete d s.meta;
}

unfoldable pub main_found : S3Fifo → List Digest → Option Digest → Round
unfolding is_visited second_chance drop_main
main_found s q none = drained (record s { main_q = q })
main_found s q (some d) =
    if is_visited s.meta d then again (second_chance s q d) else victim (drop_main s q d) d

unfoldable pub main_round : S3Fifo → Round
unfolding pop_front_resident main_found
main_round s = let (found, q) = pop_front_resident s.meta main s.main_q in main_found s q found

-- The second loop of `evict`, on fuel.
unfoldable pub drain_main : ℕ → S3Fifo → S3Fifo × Option Digest
unfolding main_round
drain_main zero s = (s, none)
drain_main (suc fuel) s = elim (main_round s) [
  | victim s' d ↦ (s', some d)
  | again s' ↦ drain_main fuel s'
  | drained s' ↦ (s', none)
]

-- Each round of the second loop shortens the queue or clears a visited bit.
unfoldable pub drain_main_all : S3Fifo → S3Fifo × Option Digest
unfolding drain_main
drain_main_all s = drain_main (suc (length s.main_q + length s.meta)) s

unfoldable pub from_small : S3Fifo → Bool
from_small s =
    if s.small_n == 0
    then false
    else if s.main_n == 0
    then true
    else leb (max 1 (s.cap / 10)) s.small_n

unfoldable pub after_small : S3Fifo × Option Digest → S3Fifo × Option Digest
unfolding drain_main_all
after_small (s, some d) = (s, some d)
after_small (s, none) = drain_main_all s

unfoldable pub evict : S3Fifo → S3Fifo × Option Digest
unfolding from_small drain_small after_small
evict s =
    if s.small_n == 0 && s.main_n == 0
    then (s, none)
    else if from_small s
    then after_small (drain_small (suc (length s.small_q)) s)
    else drain_main_all s

unfoldable pub resident : S3Fifo → ℕ
resident s = length s.meta

unfoldable pub contains : S3Fifo → Digest → Bool
contains s d = is_some (find Digest-discrete d s.meta)

unfoldable pub in_main : S3Fifo → Digest → Option Bool
in_main s d = elim (find Digest-discrete d s.meta) [ some e ↦ some (same_q e.q main) | none ↦ none ]
