-- ===== src/Memcache/Server/Storing.antt =====
-- src/goblin/protocol/memcache/server.cpp, `handle_conn`: the storage commands.
use goblin_store.Prelude.{
  ℕ, ◌-◌, Bool, true, false, not, ◌&&◌, ◌==◌, leb, ltb, if◌then◌else◌, Option, none, some, List, [],
  ◌∷◌, ◌++◌, length, get_or, take, drop,
}
use goblin_store.Prelude.Bytes.{Bytes}
use goblin_store.Common.Config.{is_empty}
use goblin_store.Common.Errors.{Errc, Status, value, error, would_block, cas_mismatch}
use goblin_store.Crypto.Digest.{Digest}
use goblin_store.Crypto.Sha256.{hash_key}
use goblin_store.Memcache.Commands.{Verb, Command}
use goblin_store.Memcache.Expiry.{exptime_to_expiry}
use goblin_store.Storage.Index.{ObjectMeta, lookup, is_expired}
use goblin_store.Storage.TierManager.{TierManager}
use goblin_store.Storage.TierManager.Commit.{commit}
use goblin_store.Storage.TierManager.Handles.{Outcome, abort_uncommitted, write}
use goblin_store.Storage.TierManager.Writes.{StoreHandle, begin_store}
use goblin_store.Memcache.Server.{
  k_stored, k_not_stored, k_exists, k_not_found, k_bad_data_chunk, Conn, send_all, Times, Flow,
  goes, closes, waits,
}

-- A store on its way: the handle, if there is one, and `write_ok`.
pub record Ingest : Type 0 where
  pub tm : TierManager
  pub handle : Option StoreHandle
  pub write_ok : Bool

unfoldable pub put_end : Outcome → Ingest
put_end (tm, h, error e) = record { tm = tm; handle = some h; write_ok = false }
put_end (tm, h, value _) = record { tm = tm; handle = some h; write_ok = true }

unfoldable pub put : Ingest → Bytes → Ingest
unfolding put_end
put s bytes = elim (s.handle) [
  | none ↦ s
  | some h ↦ if s.write_ok then put_end (write s.tm h bytes) else s
]

unfoldable pub put_some : Ingest → Bytes → Ingest
unfolding put
put_some s bytes = if is_empty bytes then s else put s bytes

-- The loop over the data block, with `n` bytes to go. None where the peer is gone.
unfoldable pub ingest : List Bytes → Bytes → ℕ → Ingest → Ingest × Option (Bytes × List Bytes)
unfolding put_some
ingest [] buf n s =
    let s' = put_some s (take n buf) in
    if leb n (length buf) then (s', some (drop n buf, [])) else (s', none)
ingest (c ∷ cs) buf n s =
    let s' = put_some s (take n buf) in
    let more = ingest cs c (n - length buf) s' in
    if leb n (length buf)
    then (s', some (drop n buf, c ∷ cs))
    else if is_empty c
    then (s', none)
    else more

-- Two bytes at least are buffered.
unfoldable pub read_two : List Bytes → Bytes → Option (Bytes × List Bytes)
read_two [] buf = if ltb (length buf) 2 then none else some (buf, [])
read_two (c ∷ cs) buf =
    let more = read_two cs (buf ++ c) in
    if ltb (length buf) 2 then if is_empty c then none else more else some (buf, c ∷ cs)

pub record Admission : Type 0 where
  pub admit : Bool
  pub reject_reply : Bytes
  pub cas_check : ℕ

abbrev pub admitted : Admission
admitted = record { admit = true; reject_reply = k_not_stored; cas_check = 0 }

-- The entry of the digest that is not expired, if there is one.
unfoldable pub live : Option ObjectMeta → ℕ → Option ObjectMeta
live none now = none
live (some m) now = if is_expired m now then none else some m

-- `add`, `replace` and `cas` depend on the entry.
unfoldable pub admission : Verb → Option ObjectMeta → ℕ → Admission
admission Verb.add (some m) cas = record admitted { admit = false }
admission Verb.replace none cas = record admitted { admit = false }
admission Verb.cas none cas = record admitted { admit = false; reject_reply = k_not_found }
admission Verb.cas (some m) cas =
    if not (m.etag == cas)
    then record admitted { admit = false; reject_reply = k_exists }
    else record admitted { cas_check = cas }
admission _ old cas = admitted

unfoldable pub blocks : Errc → Bool
blocks would_block = true
blocks _ = false

pub data Begun : Type 0 where
  begun : TierManager → Option StoreHandle → Begun
  still_blocked : TierManager → Begun

-- The loop around `begin_store`.
unfoldable pub begin_loop : List (TierManager → TierManager) → TierManager → Digest → ℕ → Begun
unfolding blocks
begin_loop [] tm d size =
    let (tm', h) = begin_store tm d size in
    elim h [
      | value handle ↦ begun tm' (some handle)
      | error e ↦ if blocks e.code then still_blocked tm' else begun tm' none
    ]
begin_loop (other ∷ others) tm d size =
    let (tm', h) = begin_store tm d size in
    let again = begin_loop others (other tm') d size in
    elim h [
      | value handle ↦ begun tm' (some handle)
      | error e ↦ if blocks e.code then again else begun tm' none
    ]

unfoldable pub begin_admitted :
    Bool → List (TierManager → TierManager) → TierManager → Digest → ℕ → Begun
unfolding begin_loop
begin_admitted true others tm d size = begin_loop others tm d size
begin_admitted false others tm d size = begun tm none

-- The destructor of the handle.
unfoldable pub close_ingest : TierManager → Option StoreHandle → TierManager
close_ingest tm none = tm
close_ingest tm (some h) = (abort_uncommitted tm h).0

unfoldable pub commit_reply : Status → Bytes
commit_reply (value _) = k_stored
commit_reply (error e) = elim (e.code) [ cas_mismatch ↦ k_exists | _ ↦ k_not_stored ]

unfoldable pub commit_ingest : TierManager → StoreHandle → Command → ℕ → Times → TierManager × Bytes
unfolding commit_reply
commit_ingest tm h cmd cas_check t =
    let (tm', h', st) =
      commit tm h cmd.flags (exptime_to_expiry cmd.exptime t.stores) cas_check t.commits in
    ((abort_uncommitted tm' h').0, commit_reply st)

-- The end of a store: what becomes of the handle, and the reply.
unfoldable pub finish_store : Ingest → Command → Admission → Bool → Times → TierManager × Bytes
unfolding commit_ingest close_ingest
finish_store s cmd a crlf_ok t =
    if not a.admit
    then (close_ingest s.tm s.handle, a.reject_reply)
    else if not crlf_ok
    then (close_ingest s.tm s.handle, k_bad_data_chunk)
    else elim (s.handle) [
      | none ↦ (s.tm, k_not_stored)
      | some h ↦
          if s.write_ok
          then commit_ingest s.tm h cmd a.cas_check t
          else ((abort_uncommitted s.tm h).0, k_not_stored)
    ]

-- A reply, unless the command asks for none.
unfoldable pub answer : TierManager → Conn → Bool → Bytes → Flow
unfolding send_all
answer tm c noreply bytes =
    let (c', ok) = send_all c bytes in
    if noreply then goes tm c else if ok then goes tm c' else closes tm c'

-- After the data block: its line end, and the reply.
unfoldable pub store_ending :
    Ingest → Conn → Command → Admission → Times → Option (Bytes × List Bytes) → Flow
unfolding finish_store answer
store_ending s c cmd a t none = closes (close_ingest s.tm s.handle) c
store_ending s c cmd a t (some (buf, input)) =
    let crlf_ok = get_or buf 0 0 == 13 && (get_or buf 1 0 == 10) in
    let (tm, reply) = finish_store s cmd a crlf_ok t in
    answer tm (record c { buf = drop 2 buf; input = input }) cmd.noreply reply

unfoldable pub store_rest :
    Ingest × Option (Bytes × List Bytes) → Conn → Command → Admission → Times → Flow
unfolding store_ending read_two
store_rest (s, none) c cmd a t = closes (close_ingest s.tm s.handle) c
store_rest (s, some (buf, input)) c cmd a t = store_ending s c cmd a t (read_two input buf)

-- With the handle, the data block is ingested.
unfoldable pub store_begun : Begun → Conn → Command → Admission → Times → Flow
unfolding store_rest ingest
store_begun (still_blocked tm) c cmd a t = waits tm c
store_begun (begun tm h) c cmd a t =
    let s : Ingest = record { tm = tm; handle = h; write_ok = true } in
    store_rest (ingest c.input c.buf cmd.bytes s) c cmd a t

-- A storage command, whose line is taken off the buffer.
unfoldable pub store_command :
    List (TierManager → TierManager) → TierManager → Conn → Command → Times → Flow
unfolding admission live begin_admitted store_begun
store_command others tm c cmd t =
    let d = hash_key cmd.key in
    let a = admission cmd.verb (live (lookup tm.index d) t.arrives) cmd.cas in
    store_begun (begin_admitted a.admit others tm d cmd.bytes) c cmd a t
