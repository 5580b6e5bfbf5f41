-- ===== src/Tests/Catalog.antt =====
-- The index (storage/index.cpp) at concrete inputs.
use goblin_store.Prelude.{true, [], ◌∷◌, ◌≡◌, ◌↔◌}
use goblin_store.Prelude.Assoc.{member}
use goblin_store.Crypto.Digest.{Digest}
use goblin_store.Storage.Index.{ObjectMeta, no_head, Index, create, lookup, expired_keys}
use goblin_store.Storage.Index.View.{dec, create-IsIndex}
use goblin_store.Storage.Index.Operations.{sets, run_op, Acts, run_op-Acts}
use goblin_store.Storage.Index.Counting.{expired_entry, expired_keys-expired}

abbrev key : Digest
key = record { bytes = 1 ∷ 2 ∷ 3 ∷ 4 ∷ 5 ∷ 6 ∷ 7 ∷ 8 ∷ 9 ∷ [] }

abbrev entry : ObjectMeta
entry = record { size = 100; flags = 0; expiry = 50; etag = 1; head = no_head }

abbrev blank : Index
blank = create 4

abbrev filled : Index
filled = (run_op blank key (sets entry)).0

run_op-Acts_example : Acts blank key (sets entry) (run_op blank key (sets entry))
run_op-Acts_example = run_op-Acts blank (create-IsIndex 4) key (sets entry)

expired_keys-expired_example :
    (member dec key (expired_keys filled 60) ≡ true) ↔ (expired_entry 60 (lookup filled key) ≡ true)
expired_keys-expired_example =
    expired_keys-expired filled 60 key (run_op-Acts blank (create-IsIndex 4) key (sets entry)).inv
