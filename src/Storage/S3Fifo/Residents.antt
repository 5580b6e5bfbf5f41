-- ===== src/Storage/S3Fifo/Residents.antt =====
-- Who is resident after `insert`, `touch` and `remove` (s3fifo.cpp), and where.
use goblin_store.Prelude.{true, false, ite, some, ◌≡◌, arith, Option-cases, inl, inr}
use goblin_store.Prelude.Assoc.{find, member, find-insert, find-erase}
use goblin_store.Crypto.Digest.{Digest}
use goblin_store.Storage.S3Fifo.{
  Entry, S3Fifo, mark, insert_item, touch, remove, contains, in_main, small, main,
}
use goblin_store.Storage.S3Fifo.View.{dec}
use goblin_store.Storage.S3Fifo.Invariant.{Inv}

module _ (s : S3Fifo) (d j : Digest) where
  contains-mark : (e : Entry) → find dec d s.meta ≡ some e → contains (mark s d e) j ≡ contains s j
  unfolding contains mark
  contains-mark e here =
      ground (arith, find-insert dec j d (record { q = e.q; visited = true }) s.meta)

  contains-insert_item : contains (insert_item s d) j ≡ ite (dec d j) true (contains s j)
  unfolding contains insert_item
  contains-insert_item = elim (Option-cases (find dec d s.meta)) [
    | inl new ↦ ground (
      arith,
      find-insert dec j d (record { q = main; visited = false }) s.meta,
      find-insert dec j d (record { q = small; visited = false }) s.meta,
    )
    | inr (e, here) ↦
        ground (arith, find-insert dec j d (record { q = e.q; visited = true }) s.meta)
  ]

  contains-touch : contains (touch s d) j ≡ contains s j
  unfolding touch
  contains-touch = elim (Option-cases (find dec d s.meta)) [
    | inl new ↦ rw (new, touch)
    | inr (e, here) ↦ rw (here, touch) (contains-mark e here)
  ]

  contains-remove : Inv s → contains (remove s d) j ≡ ite (dec d j) false (contains s j)
  unfolding contains remove
  contains-remove v = ground (arith, find-erase dec j d s.meta v.map)

  -- With the invariant, inserting makes a digest resident, a hit changes no residency, and a removal
  -- ends it; every other digest is resident exactly if it was.
  pub contains_after :
      Inv s
      → (contains (insert_item s d) j ≡ ite (dec d j) true (contains s j))
        × (contains (touch s d) j ≡ contains s j)
        × (contains (remove s d) j ≡ ite (dec d j) false (contains s j))
  contains_after v = (contains-insert_item, contains-touch, contains-remove v)

-- A digest that is not resident is inserted into the main queue if it is in the ghost set, and into
-- the small queue otherwise.
pub in_main-insert_item :
    (s : S3Fifo) (d : Digest)
    → contains s d ≡ false
    → in_main (insert_item s d) d ≡ some (member dec d s.ghost_set)
unfolding contains in_main insert_item
in_main-insert_item s d new = ground (
  arith,
  find-insert dec d d (record { q = main; visited = false }) s.meta,
  find-insert dec d d (record { q = small; visited = false }) s.meta,
)
