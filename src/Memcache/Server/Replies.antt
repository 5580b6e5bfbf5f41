-- ===== src/Memcache/Server/Replies.antt =====
-- src/goblin/protocol/memcache/server.cpp: `stream_value` and the commands that store nothing.
use goblin_store.Prelude.{
  ℕ, zero, suc, ◌+◌, ◌-◌, min, Bool, true, false, not, ◌==◌, ltb, if◌then◌else◌, none, some, ◌++◌,
  length, take, drop,
}
use goblin_store.Prelude.Bytes.{Bytes}
use goblin_store.Common.Errors.{value, error}
use goblin_store.Crypto.Digest.{Digest}
use goblin_store.Crypto.Sha256.{hash_key}
use goblin_store.Memcache.Commands.{Verb, Command, value_header, value_header_cas}
use goblin_store.Storage.Index.{ObjectMeta, lookup}
use goblin_store.Storage.TierManager.{TierManager, touch, remove}
use goblin_store.Storage.TierManager.Reading.{read}
use goblin_store.Memcache.Server.{
  line_end, k_deleted, k_not_found, k_end, k_error, k_version, Conn, send_all, Times, Flow, goes,
  closes,
}
use goblin_store.Memcache.Server.Storing.{live}

-- The rounds of `stream_value`, on fuel: each sends a byte at least. `chunk` is the worker's buffer.
unfoldable pub stream_loop :
    ℕ → TierManager → Conn → Bytes → Digest → ℕ → ℕ → TierManager × Conn × Bool
unfolding send_all
stream_loop zero tm c chunk d size pos = (tm, c, true)
stream_loop (suc fuel) tm c chunk d size pos =
    let want = min (length chunk) (size - pos) in
    let (tm', r) = read tm d pos (take want chunk) in
    let next : TierManager × Conn × Bool = elim r [
      | error e ↦ (tm', c, false)
      | value (n, bytes) ↦
          let (c', ok) = send_all c bytes in
          let more = stream_loop fuel tm' c' (bytes ++ drop want chunk) d size (pos + want) in
          if not (n == want) then (tm', c, false) else if ok then more else (tm', c', false)
    ] in
    if ltb pos size then next else (tm, c, true)

-- A value of no bytes needs no buffer.
unfoldable pub stream_value :
    TierManager → Conn → Bytes → Digest → ObjectMeta → TierManager × Conn × Bool
unfolding stream_loop
stream_value tm c chunk d m = stream_loop m.size tm c chunk d m.size 0

unfoldable pub get_header : Command → ObjectMeta → Bytes
unfolding value_header value_header_cas
get_header cmd m = elim (cmd.verb) [
  | Verb.gets ↦ value_header_cas cmd.key m.flags m.size m.etag
  | _ ↦ value_header cmd.key m.flags m.size
]

-- One `send_all` after another that the connection survives.
unfoldable pub then_send : TierManager × Conn × Bool → Bytes → TierManager × Conn × Bool
unfolding send_all
then_send (tm, c, false) bytes = (tm, c, false)
then_send (tm, c, true) bytes = let (c', ok) = send_all c bytes in (tm, c', ok)

unfoldable pub then_stream :
    TierManager × Conn × Bool → Bytes → Digest → ObjectMeta → TierManager × Conn × Bool
unfolding stream_value
then_stream (tm, c, false) chunk d m = (tm, c, false)
then_stream (tm, c, true) chunk d m = stream_value tm c chunk d m

unfoldable pub get_hit :
    TierManager → Conn → Bytes → Command → Digest → ObjectMeta → TierManager × Conn × Bool
unfolding then_send then_stream get_header
get_hit tm c chunk cmd d m =
    let started = then_send (touch tm d, c, true) (get_header cmd m) in
    then_send (then_send (then_stream started chunk d m) line_end) k_end

unfoldable pub get_command : TierManager → Conn → Bytes → Command → ℕ → TierManager × Conn × Bool
unfolding get_hit then_send live
get_command tm c chunk cmd now =
    let d = hash_key cmd.key in
    elim (live (lookup tm.index d) now) [
      | none ↦ then_send (tm, c, true) k_end
      | some m ↦ get_hit tm c chunk cmd d m
    ]

-- What is sent to the commands that are not storage commands. A quit ends the connection.
unfoldable pub reply_verb :
    Verb → TierManager → Conn → Bytes → Command → Times → TierManager × Conn × Bool
unfolding get_command then_send
reply_verb Verb.get tm c chunk cmd t = get_command tm c chunk cmd t.arrives
reply_verb Verb.gets tm c chunk cmd t = get_command tm c chunk cmd t.arrives
reply_verb Verb.del tm c chunk cmd t =
    let (tm', erased) = remove tm (hash_key cmd.key) in
    if cmd.noreply
    then (tm', c, true)
    else then_send (tm', c, true) (if erased then k_deleted else k_not_found)
reply_verb Verb.version tm c chunk cmd t = then_send (tm, c, true) k_version
reply_verb Verb.quit tm c chunk cmd t = (tm, c, false)
reply_verb _ tm c chunk cmd t = then_send (tm, c, true) k_error

unfoldable pub reply_command :
    TierManager → Conn → Bytes → Command → Times → TierManager × Conn × Bool
unfolding reply_verb
reply_command tm c chunk cmd t = reply_verb cmd.verb tm c chunk cmd t

unfoldable pub after_reply : TierManager × Conn × Bool → Bytes → Flow
after_reply (tm, c, true) buf = goes tm (record c { buf = buf })
after_reply (tm, c, false) buf = closes tm c
