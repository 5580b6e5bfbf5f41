-- ===== src/Tests/Server/Gets.antt =====
-- A get (protocol/memcache/server.cpp) at a concrete state.
use goblin_store.Prelude.{List, ◌++◌, length, true, false, some, [], ◌∷◌, ◌≡◌, refl, arith}
use goblin_store.Prelude.Bytes.{Bytes}
use goblin_store.Common.Errors.{value}
use goblin_store.Crypto.Digest.{Digest}
use goblin_store.Crypto.Sha256.{hash_key}
use goblin_store.Memcache.Commands.{Verb, Command}
use goblin_store.Memcache.Server.{Conn, send_all, line_end, k_end}
use goblin_store.Memcache.Server.Storing.{live}
use goblin_store.Memcache.Server.Replies.{
  stream_loop, stream_value, get_header, then_send, then_stream, get_hit, get_command,
}
use goblin_store.Memcache.Server.Values.{Header, Pieces, get_command_sends}
use goblin_store.Memcache.Server.Framing.{flat}
use goblin_store.Storage.Index.{Index, ObjectMeta, create, lookup, is_expired, is_resident}
use goblin_store.Storage.Index.View.{create-IsIndex}
use goblin_store.Storage.Index.Operations.{sets, run_op, act, run_op-Acts}
use goblin_store.Storage.Layout.{compute_layout}
use goblin_store.Storage.TierManager.{TierManager, touch, touch_head, touch_object, three_layer}
use goblin_store.Storage.TierManager.Reading.{
  read, read_found, open_tier, needs_ssd, gather_ssd, read_hdd, counted, paste,
}
use goblin_store.Storage.TierManager.Reads.{ram_end, copy_head, read_memory}
use goblin_store.Tests.Server.{empty}

abbrev key : Digest
key = hash_key (b'k' ∷ [])

abbrev kept : ObjectMeta
kept = record {
  size = 3;
  flags = 0;
  expiry = 0;
  etag = 1;
  head = record { block = 0; offset = 0; len = 3 };
}

holding : Index
holding = (run_op (create 0) key (sets kept)).0

found : lookup holding key ≡ some kept
unfolding holding act
found = ground (arith, (run_op-Acts (create 0) (create-IsIndex 0) key (sets kept)).entries key)

abbrev holder : TierManager
holder = record empty { index = holding; memory = λ a. 7 }

abbrev asking : Conn
asking = record { buf = []; input = []; sends = true ∷ true ∷ true ∷ true ∷ []; out = [] }

abbrev get_key : Command
get_key = record {
  verb = Verb.get;
  key = b'k' ∷ [];
  flags = 0;
  exptime = 0;
  bytes = 0;
  cas = 0;
  noreply = false;
}

abbrev buffer : Bytes
buffer = 0 ∷ 0 ∷ 0 ∷ 0 ∷ []

hit : live (lookup holder.index key) 5 ≡ some kept
unfolding live is_expired
hit = rw found refl

read_kept : (read (touch holder key) key 0 (0 ∷ 0 ∷ 0 ∷ [])).1 ≡ value (3, 7 ∷ 7 ∷ 7 ∷ [])
unfolding read read_found touch touch_head touch_object compute_layout three_layer ram_end copy_head
    read_memory open_tier needs_ssd gather_ssd read_hdd counted paste is_resident
read_kept = rw (found, read) refl

goes_on : (get_command holder asking buffer get_key 5).2 ≡ true
unfolding get_command get_hit then_send then_stream stream_value stream_loop send_all get_header
goes_on = rw (hit, get_command, read_kept) refl

get_command_sends_example :
    (header : Bytes) × (ps : List Bytes) × Header get_key kept header
    × Pieces (touch holder key) key 4 3 0 ps
    × (length (flat ps) ≡ 3)
    × ((get_command holder asking buffer get_key 5).1.out
        ≡ ((([] ++ header) ++ flat ps) ++ line_end) ++ k_end)
get_command_sends_example =
    get_command_sends holder asking buffer get_key 5 kept
      (record { drives = omega arith; stripe = omega arith }) (λ pool e. ground (arith, e))
      (omega arith) hit goes_on
