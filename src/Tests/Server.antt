-- ===== src/Tests/Server.antt =====
-- The blocking server (protocol/memcache/server.cpp) on concrete streams.
mod Gets
use goblin_store.Prelude.{ℕ, ◌+◌, take, drop, true, false, none, some, [], ◌∷◌, ◌≡◌, refl}
use goblin_store.Core.BlockPool.{new_pool}
use goblin_store.Crypto.Digest.{Digest}
use goblin_store.Crypto.Sha256.{hash_key}
use goblin_store.Common.Errors.{value}
use goblin_store.Memcache.Commands.{
  Verb, Command, parse_command, is_storage, tokens, parse_tokens, verb_of, parse_verb, require,
  parse_store, says_noreply, number,
}
use goblin_store.Prelude.Bytes.{same, trim_front, before, from_byte, to_unsigned}
use goblin_store.Memcache.Server.{Conn, Times, goes, find_eol, k_not_stored, send_all}
use goblin_store.Memcache.Server.Storing.{
  store_command, live, admission, begin_admitted, store_begun, store_rest, ingest, put_some, put,
  store_ending, read_two, finish_store, close_ingest, answer,
}
use goblin_store.Memcache.Server.Rounds.{handle_command, run_line}
use goblin_store.Memcache.Server.Framing.{pending}
use goblin_store.Memcache.Server.Requests.{block, handle_command_frames}
use goblin_store.Storage.Index.{create, clear, lookup}
use goblin_store.Storage.Index.Counting.{lookup-clear}
use goblin_store.Storage.Pool.{Volume}
use goblin_store.Storage.S3Fifo.{create as new_policy}
use goblin_store.Storage.TierManager.{TierManager}

abbrev pub volume : Volume
volume = record { names = []; next = 1; grants = []; answers = []; disk = λ fd off. 0 }

abbrev pub empty : TierManager
empty = record {
  tiers = record { ram_head = 4096; ssd_prefix = 8192 };
  ram = record { blocks = new_pool 0 4096 1 false; min_alloc = 4096; arenas = none ∷ [] };
  write_pool = new_pool 0 4096 1 false;
  policy = new_policy 4;
  object_policy = new_policy 4;
  max_objects = 1;
  ssd = record { drives = record { num_drives = 2; stripe_unit = 4096 }; direct_io = false };
  hdd = none;
  index = create 0;
  store_seq = 0;
  etag_seq = 0;
  any_ttl = false;
  pins = [];
  memory = λ a. 0;
  volume = volume;
  hdd_volume = volume;
}

-- "replace k 0 0 3", three bytes and "version", in two pieces.
abbrev refused : Conn
refused = record {
  buf = [];
  input =
      (114 ∷ 101 ∷ 112 ∷ 108 ∷ 97 ∷ 99 ∷ 101 ∷ 32 ∷ 107 ∷ 32 ∷ 48 ∷ 32 ∷ 48 ∷ 32 ∷ 51 ∷ 13 ∷ 10 ∷ 97
        ∷ 98 ∷ [])
      ∷ (99 ∷ 13 ∷ 10 ∷ 118 ∷ 101 ∷ 114 ∷ 115 ∷ 105 ∷ 111 ∷ 110 ∷ 13 ∷ 10 ∷ [])
      ∷ [];
  sends = true ∷ [];
  out = [];
}

-- "version" is next.
abbrev answered : Conn
answered = record {
  buf = 118 ∷ 101 ∷ 114 ∷ 115 ∷ 105 ∷ 111 ∷ 110 ∷ 13 ∷ 10 ∷ [];
  input = [];
  sends = [];
  out = k_not_stored;
}

abbrev times : Times
times = record { arrives = 5; stores = 5; commits = 5 }

nothing_yet : (d : Digest) → lookup (create 0) d ≡ none
unfolding clear create
nothing_yet d = (lookup-clear (create 0) d).0

abbrev command : Command
command = record {
  verb = Verb.replace;
  key = b'k' ∷ [];
  flags = 0;
  exptime = 0;
  bytes = 3;
  cas = 0;
  noreply = false;
}

line_parses :
    parse_command
      (114 ∷ 101 ∷ 112 ∷ 108 ∷ 97 ∷ 99 ∷ 101 ∷ 32 ∷ 107 ∷ 32 ∷ 48 ∷ 32 ∷ 48 ∷ 32 ∷ 51 ∷ [])
    ≡ value command
unfolding parse_command tokens parse_tokens verb_of parse_verb require parse_store says_noreply
    number same trim_front before from_byte to_unsigned
line_parses = refl

abbrev began : Conn
began = record {
  buf = b'a' ∷ b'b' ∷ [];
  input = (99 ∷ 13 ∷ 10 ∷ 118 ∷ 101 ∷ 114 ∷ 115 ∷ 105 ∷ 111 ∷ 110 ∷ 13 ∷ 10 ∷ []) ∷ [];
  sends = true ∷ [];
  out = [];
}

store_refused : store_command [] empty began command times ≡ goes empty answered
unfolding store_command live admission begin_admitted store_begun store_rest ingest put_some put
    store_ending read_two finish_store close_ingest answer send_all
store_refused = rw (nothing_yet (hash_key (b'k' ∷ [])), store_command) refl

replace_refused : handle_command [] empty refused [] times ≡ goes empty answered
unfolding handle_command run_line is_storage
replace_refused = rw (line_parses, handle_command, run_line) store_refused

handle_command_frames_example :
    (eol : ℕ) × (find_eol (pending refused) ≡ some eol)
    × (pending answered
        ≡ drop (eol + 2 + block (parse_command (take eol (pending refused)))) (pending refused))
handle_command_frames_example =
    handle_command_frames [] empty refused [] times empty answered replace_refused
