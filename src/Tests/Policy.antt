-- ===== src/Tests/Policy.antt =====
-- The eviction policy (storage/s3fifo.cpp) at concrete inputs.
use goblin_store.Prelude.{◌+◌, ◌<◌, true, false, List, [], ◌∷◌, length, ite, ◌≡◌, refl, arith}
use goblin_store.Prelude.Assoc.{find, insert, member}
use goblin_store.Common.Types.{u64}
use goblin_store.Crypto.Digest.{Digest}
use goblin_store.Storage.S3Fifo.{
  S3Fifo, create, insert_item, touch, remove, evict, resident, contains,
}
use goblin_store.Storage.S3Fifo.View.{dec}
use goblin_store.Storage.S3Fifo.Invariant.{Inv}
use goblin_store.Storage.S3Fifo.Admission.{create-Inv, insert_item-Inv}
use goblin_store.Storage.S3Fifo.Runs.{
  Call, inserts, touches, removes, evicts, run_calls, run_calls-Inv,
}
use goblin_store.Storage.S3Fifo.Eviction.{Evicts, evict-Evicts}
use goblin_store.Storage.S3Fifo.Residents.{contains_after}

abbrev first : Digest
first = record { bytes = 1 ∷ [] }

abbrev second : Digest
second = record { bytes = 2 ∷ [] }

abbrev empty : S3Fifo
empty = create 4

abbrev one : S3Fifo
one = insert_item empty first

empty_length : length empty.meta + 1 < u64
unfolding create
empty_length = omega arith

one-Inv : Inv one
one-Inv = insert_item-Inv empty first (create-Inv 4) empty_length

one-resident : 0 < resident one
unfolding resident insert_item create find member insert
one-resident = omega arith

evict-Evicts_example : Evicts one (evict one)
evict-Evicts_example = evict-Evicts one one-Inv one-resident

empty-resident : resident empty ≡ 0
unfolding resident create
empty-resident = refl

contains_after_example :
    (contains (insert_item one second) first ≡ ite (dec second first) true (contains one first))
    × (contains (touch one second) first ≡ contains one first)
    × (contains (remove one second) first ≡ ite (dec second first) false (contains one first))
contains_after_example = contains_after one second first one-Inv

empty-absent : contains empty first ≡ false
unfolding contains create find
empty-absent = refl

abbrev calls : List Call
calls = inserts first ∷ inserts second ∷ touches first ∷ evicts ∷ removes second ∷ []

calls_fit : length empty.meta + length calls < u64
unfolding create
calls_fit = omega arith

run_calls-Inv_example : Inv (run_calls calls empty)
run_calls-Inv_example = run_calls-Inv calls empty (create-Inv 4) calls_fit
