-- ===== src/Memcache/Server/Hears.antt =====
-- Replies (server.cpp, `handle_conn`) leave what the peer sends as it is.
use goblin_store.Prelude.{
  ℕ, zero, suc, ◌+◌, ◌-◌, min, not, Bool, true, false, ◌==◌, ltb, if◌then◌else◌, List, [], ◌∷◌,
  ◌++◌, length, take, drop, ◌≡◌, refl, ◌∙◌, Bool-cases, Option-cases, inl, inr,
}
use goblin_store.Prelude.Bytes.{Bytes}
use goblin_store.Common.Errors.{Result-cases}
use goblin_store.Crypto.Digest.{Digest}
use goblin_store.Crypto.Sha256.{hash_key}
use goblin_store.Memcache.Commands.{Verb, Command}
use goblin_store.Memcache.Server.{
  Conn, Times, send_all, k_deleted, k_not_found, k_version, k_error, k_end, line_end,
}
use goblin_store.Memcache.Server.Storing.{live}
use goblin_store.Memcache.Server.Replies.{
  stream_loop, stream_value, then_send, then_stream, get_header, get_hit, get_command, reply_verb,
}
use goblin_store.Storage.Index.{ObjectMeta, lookup}
use goblin_store.Storage.TierManager.{TierManager, touch, remove}
use goblin_store.Storage.TierManager.Reading.{read}

-- The peer's side of a connection is as it was.
pub record Hears (c c' : Conn) : Type 0 where
  pub buf : c'.buf ≡ c.buf
  pub input : c'.input ≡ c.input

pub Hears-refl : (c : Conn) → Hears c c
Hears-refl c = record { buf = refl; input = refl }

pub Hears-trans : (a b c : Conn) → Hears a b → Hears b c → Hears a c
Hears-trans a b c k l = record { buf = l.buf ∙ k.buf; input = l.input ∙ k.input }

pub sends-Hears :
    (c : Conn) (bytes : Bytes) (s : List Bool) → c.sends ≡ s → Hears c (send_all c bytes).0
unfolding send_all
sends-Hears c bytes [] e = rw (e, send_all) (record { buf = refl; input = refl })
sends-Hears c bytes (true ∷ rest) e = rw (e, send_all) (record { buf = refl; input = refl })
sends-Hears c bytes (false ∷ rest) e = rw (e, send_all) (record { buf = refl; input = refl })

pub send_all-Hears : (c : Conn) (bytes : Bytes) → Hears c (send_all c bytes).0
send_all-Hears c bytes = sends-Hears c bytes c.sends refl

-- Replies that leave the peer's side as it is.
pub then_send-Hears :
    (c : Conn) (r : TierManager × Conn × Bool) (bytes : Bytes)
    → Hears c r.1
    → Hears c (then_send r bytes).1
unfolding then_send
then_send-Hears c (tm, c', false) bytes h = h
then_send-Hears c (tm, c', true) bytes h =
    Hears-trans c c' (send_all c' bytes).0 h (send_all-Hears c' bytes)

pub stream_loop-Hears :
    (fuel : ℕ) (tm : TierManager) (c : Conn) (chunk : Bytes) (d : Digest) (size pos : ℕ)
    → Hears c (stream_loop fuel tm c chunk d size pos).1
unfolding stream_loop
stream_loop-Hears zero tm c chunk d size pos = record { buf = refl; input = refl }
stream_loop-Hears (suc fuel) tm c chunk d size pos =
    let want = min (length chunk) (size - pos) in
    let r = read tm d pos (take want chunk) in
    let same = Hears-refl c in
    elim (Bool-cases (ltb pos size)) [
      | inr over ↦ rw over same
      | inl more ↦ elim (Result-cases r.1) [
        | inl (e, failed) ↦ rw (more, failed) same
        | inr (x, ok) ↦
            let sent = send_all-Hears c x.1 in
            rw (more, ok)
              (elim (Bool-cases (not (x.0 == want))) [
                | inl short ↦ rw short same
                | inr whole ↦ rw whole (elim (Bool-cases (send_all c x.1).1) [
                  | inr broken ↦ rw broken sent
                  | inl alive ↦ rw alive (
                      Hears-trans c (send_all c x.1).0 _ sent (
                        stream_loop-Hears fuel r.0 (send_all c x.1).0 (x.1 ++ drop want chunk) d
                          size (pos + want)))
                ])
              ])
      ]
    ]

pub then_stream-Hears :
    (c : Conn) (r : TierManager × Conn × Bool) (chunk : Bytes) (d : Digest) (m : ObjectMeta)
    → Hears c r.1
    → Hears c (then_stream r chunk d m).1
unfolding then_stream stream_value
then_stream-Hears c (tm, c', false) chunk d m h = h
then_stream-Hears c (tm, c', true) chunk d m h =
    Hears-trans c c' (stream_loop m.size tm c' chunk d m.size 0).1 h
      (stream_loop-Hears m.size tm c' chunk d m.size 0)

pub get_command-Hears :
    (tm : TierManager) (c : Conn) (chunk : Bytes) (cmd : Command) (now : ℕ)
    → Hears c (get_command tm c chunk cmd now).1
unfolding get_command get_hit
get_command-Hears tm c chunk cmd now =
    let d = hash_key cmd.key in
    let same = Hears-refl c in
    elim (Option-cases (live (lookup tm.index d) now)) [
      | inl miss ↦ rw (miss, get_command) (then_send-Hears c (tm, c, true) k_end same)
      | inr (m, hit) ↦
          let started = then_send (touch tm d, c, true) (get_header cmd m) in
          let streamed = then_stream started chunk d m in
          rw (hit, get_command)
            (then_send-Hears c (then_send streamed line_end) k_end (
              then_send-Hears c streamed line_end (
                then_stream-Hears c started chunk d m
                  (then_send-Hears c (touch tm d, c, true) (get_header cmd m) same))))
    ]

pub reply_verb-Hears :
    (v : Verb) (tm : TierManager) (c : Conn) (chunk : Bytes) (cmd : Command) (t : Times)
    → Hears c (reply_verb v tm c chunk cmd t).1
unfolding reply_verb
reply_verb-Hears Verb.get tm c chunk cmd t = get_command-Hears tm c chunk cmd t.arrives
reply_verb-Hears Verb.gets tm c chunk cmd t = get_command-Hears tm c chunk cmd t.arrives
reply_verb-Hears Verb.del tm c chunk cmd t =
    let r = remove tm (hash_key cmd.key) in
    elim (Bool-cases cmd.noreply) [
      | inl quiet ↦ rw quiet (Hears-refl c)
      | inr loud ↦
          rw loud (
            then_send-Hears c (r.0, c, true) (if r.1 then k_deleted else k_not_found)
              (Hears-refl c))
    ]
reply_verb-Hears Verb.version tm c chunk cmd t =
    then_send-Hears c (tm, c, true) k_version (Hears-refl c)
reply_verb-Hears Verb.quit tm c chunk cmd t = Hears-refl c
reply_verb-Hears Verb.set tm c chunk cmd t = then_send-Hears c (tm, c, true) k_error (Hears-refl c)
reply_verb-Hears Verb.add tm c chunk cmd t = then_send-Hears c (tm, c, true) k_error (Hears-refl c)
reply_verb-Hears Verb.replace tm c chunk cmd t =
    then_send-Hears c (tm, c, true) k_error (Hears-refl c)
reply_verb-Hears Verb.cas tm c chunk cmd t = then_send-Hears c (tm, c, true) k_error (Hears-refl c)
reply_verb-Hears Verb.stats tm c chunk cmd t =
    then_send-Hears c (tm, c, true) k_error (Hears-refl c)
reply_verb-Hears Verb.unknown tm c chunk cmd t =
    then_send-Hears c (tm, c, true) k_error (Hears-refl c)
