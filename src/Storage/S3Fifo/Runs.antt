-- ===== src/Storage/S3Fifo/Runs.antt =====
-- Sequences of operations of the S3-FIFO policy (s3fifo.cpp).
use goblin_store.Prelude.{
  ◌+◌, ◌≤◌, ◌<◌, true, false, List, [], ◌∷◌, length, arith, dec_lt, Option-cases, inl, inr,
}
use goblin_store.Prelude.Assoc.{find, length-insert_new, length-insert_old, length-erase}
use goblin_store.Common.Types.{u64}
use goblin_store.Crypto.Digest.{Digest}
use goblin_store.Storage.S3Fifo.{
  S3Fifo, main, small, mark, admit_main, admit_small, drop_entry, drop_ghost, insert_item, touch,
  remove, evict, resident,
}
use goblin_store.Storage.S3Fifo.View.{dec}
use goblin_store.Storage.S3Fifo.Invariant.{Inv}
use goblin_store.Storage.S3Fifo.Admission.{insert_item-Inv, touch-Inv, remove-Inv}
use goblin_store.Storage.S3Fifo.Eviction.{Evicts, evict-Evicts, evict_empty}

pub data Call : Type 0 where
  inserts touches removes : Digest → Call
  evicts : Call

unfoldable pub step : S3Fifo → Call → S3Fifo
step s (inserts d) = insert_item s d
step s (touches d) = touch s d
step s (removes d) = remove s d
step s evicts = (evict s).0

unfoldable pub run_calls : List Call → S3Fifo → S3Fifo
unfolding step
run_calls [] s = s
run_calls (c ∷ cs) s = run_calls cs (step s c)

length-insert_item : (s : S3Fifo) (d : Digest) → length (insert_item s d).meta ≤ length s.meta + 1
unfolding insert_item mark admit_main admit_small
length-insert_item s d = elim (Option-cases (find dec d s.meta)) [
  | inl new ↦ ground (
    arith,
    length-insert_new dec d (record { q = main; visited = false }) s.meta new,
    length-insert_new dec d (record { q = small; visited = false }) s.meta new,
  )
  | inr (e, here) ↦
      ground (arith, length-insert_old dec d (record { q = e.q; visited = true }) e s.meta here)
]

length-touch : (s : S3Fifo) (d : Digest) → length (touch s d).meta ≤ length s.meta
unfolding touch mark
length-touch s d = elim (Option-cases (find dec d s.meta)) [
  | inl new ↦ ground arith
  | inr (e, here) ↦
      ground (arith, length-insert_old dec d (record { q = e.q; visited = true }) e s.meta here)
]

pub length-remove : (s : S3Fifo) (d : Digest) → length (remove s d).meta ≤ length s.meta
unfolding remove drop_ghost drop_entry
length-remove s d = elim (Option-cases (find dec d s.meta)) [
  | inl new ↦ ground arith
  | inr (e, here) ↦ ground (arith, length-erase dec d e s.meta here)
]

record Stepped (s t : S3Fifo) : Type 0 where
  inv : Inv t
  grows : length t.meta ≤ length s.meta + 1

evict-Stepped : (s : S3Fifo) → Inv s → Stepped s (evict s).0
unfolding resident Evicts
evict-Stepped s v = elim (dec_lt 0 (length s.meta)) [
  | yes some_left ↦
      let (d, told, lost) = evict-Evicts s v some_left in
      record { inv = lost.inv; grows = omega (arith, lost.size) }
  | no empty ↦ rw (evict_empty s v (omega arith)) (record { inv = v; grows = omega arith })
]

step-Stepped : (s : S3Fifo) (c : Call) → Inv s → length s.meta + 1 < u64 → Stepped s (step s c)
unfolding step
step-Stepped s (inserts d) v room = record {
  inv = insert_item-Inv s d v room;
  grows = length-insert_item s d;
}
step-Stepped s (touches d) v room = record {
  inv = touch-Inv s d v;
  grows = omega (arith, length-touch s d);
}
step-Stepped s (removes d) v room = record {
  inv = remove-Inv s d v;
  grows = omega (arith, length-remove s d);
}
step-Stepped s evicts v room = evict-Stepped s v

-- Any sequence of inserts, hits, removals and evictions keeps the invariant: the residents form a
-- map, the two counters count the residents of the two queues, each resident stands in its queue,
-- a ghost is not resident, and the ghost queue is no longer than the capacity. The residents and
-- the calls together must number less than 2 ^ 64.
pub run_calls-Inv :
    (cs : List Call) (s : S3Fifo) → Inv s → length s.meta + length cs < u64 → Inv (run_calls cs s)
unfolding run_calls
run_calls-Inv [] s v room = v
run_calls-Inv (c ∷ cs) s v room =
    let t = step-Stepped s c v (omega arith) in
    run_calls-Inv cs (step s c) t.inv (omega (arith, t.grows))
