-- ===== src/Memcache/Server/Values.antt =====
-- What a get sends (server.cpp, `stream_value` and `handle_conn`).
use goblin_store.Prelude.{
  ℕ, zero, suc, ◌+◌, ◌-◌, ◌≤◌, ◌<◌, min, not, Bool, true, false, ◌==◌, ltb, some, List, [], ◌∷◌,
  ◌++◌, length, take, drop, length-append, length-take, length-drop, append_assoc, append-nil, ◌≡◌,
  refl, arith, sym, ap, subst, ◌∙◌, Bool-cases, inl, inr,
}
use goblin_store.Prelude.Bytes.{Bytes}
use goblin_store.Common.Errors.{Result, Result-cases, value, error}
use goblin_store.Crypto.Digest.{Digest}
use goblin_store.Crypto.Sha256.{hash_key}
use goblin_store.Memcache.Commands.{Verb, Command, print_decimal, value_header, value_header_cas}
use goblin_store.Memcache.Commands.Decimals.{IsNumeral, print_decimal-IsNumeral}
use goblin_store.Memcache.Server.Framing.{flat}
use goblin_store.Memcache.Server.{Conn, send_all, line_end, k_end}
use goblin_store.Memcache.Server.Storing.{live}
use goblin_store.Memcache.Server.Replies.{
  stream_loop, stream_value, get_header, then_send, then_stream, get_hit, get_command,
}
use goblin_store.Storage.DrivePool.Placement.{IsPool}
use goblin_store.Storage.Index.{ObjectMeta, lookup}
use goblin_store.Storage.TierManager.{TierManager, touch, touch_head, touch_object}
use goblin_store.Storage.TierManager.Reading.{read}
use goblin_store.Storage.TierManager.Reading.Lengths.{Reads, read-Reads}
use goblin_store.Storage.TierManager.Reads.Complete.{HddPool}

sends-out :
    (c : Conn) (bytes : Bytes) (s : List Bool)
    → c.sends ≡ s
    → (send_all c bytes).1 ≡ true
    → (send_all c bytes).0.out ≡ c.out ++ bytes
unfolding send_all
sends-out c bytes [] e ok = let ok' = rw (e, send_all) at ok in absurd (cc)
sends-out c bytes (true ∷ rest) e ok = rw (e, send_all) refl
sends-out c bytes (false ∷ rest) e ok = let ok' = rw (e, send_all) at ok in absurd (cc)

-- What a read that gave these bytes says of them and of the pools.
Reads-value :
    (tm : TierManager) (n : ℕ) (r : TierManager × Result (ℕ × Bytes)) (x : ℕ × Bytes)
    → Reads tm n r
    → r.1 ≡ value x
    → (r.0.ssd ≡ tm.ssd) × (r.0.hdd ≡ tm.hdd) × (length x.1 ≡ n)
unfolding Reads
Reads-value tm n (tm', error e) x v h = absurd (cc)
Reads-value tm n (tm', value y) x (e, f, k) h =
    let same : y ≡ x = cc in (e, f, ap (λ (z : ℕ × Bytes). length z.1) (sym same) ∙ k)

-- Pieces of the value of a digest from `pos` on, one after another: each is what `read` gives of the
-- store at the position of its first byte, into a buffer of its length, which is what is left of the
-- value or the room of the worker's buffer, and the last one ends the value.
unfoldable pub Pieces : TierManager → Digest → ℕ → ℕ → ℕ → List Bytes → Type 0
Pieces tm d room size pos [] = size ≤ pos
Pieces tm d room size pos (b ∷ bs) =
    (buffer : Bytes) × (pos < size)
    × (length b ≡ min room (size - pos))
    × (length buffer ≡ length b)
    × ((read tm d pos buffer).1 ≡ value (length b, b))
    × Pieces (read tm d pos buffer).0 d room size (pos + length b) bs

length-Pieces :
    (tm : TierManager) (d : Digest) (room size pos : ℕ) (ps : List Bytes)
    → Pieces tm d room size pos ps
    → length (flat ps) ≡ size - pos
unfolding Pieces flat
length-Pieces tm d room size pos [] v = omega (arith, v)
length-Pieces tm d room size pos (b ∷ bs) (buffer, lt, n, _, _, v) = omega (
  arith,
  lt,
  n,
  length-append b (flat bs),
  length-Pieces (read tm d pos buffer).0 d room size (pos + length b) bs v,
)

-- Where the sends succeed, the pieces of the value from `pos` on were sent.
unfoldable pub Streams :
    Conn → TierManager → Digest → ℕ → ℕ → ℕ → TierManager × Conn × Bool → Type 0
Streams c tm d room size pos (tm', c', false) = Unit
Streams c tm d room size pos (tm', c', true) =
    (ps : List Bytes) × Pieces tm d room size pos ps × (c'.out ≡ c.out ++ flat ps)

Streams-after :
    (c c1 : Conn) (tm : TierManager) (d : Digest) (room size pos : ℕ) (b buffer : Bytes)
    (r : TierManager × Conn × Bool)
    → pos < size
    → length b ≡ min room (size - pos)
    → length buffer ≡ length b
    → (read tm d pos buffer).1 ≡ value (length b, b)
    → c1.out ≡ c.out ++ b
    → Streams c1 (read tm d pos buffer).0 d room size (pos + length b) r
    → Streams c tm d room size pos r
unfolding Streams Pieces flat
Streams-after c c1 tm d room size pos b buffer (tm', c', false) lt n k got e s = tt
Streams-after c c1 tm d room size pos b buffer (tm', c', true) lt n k got e (ps, v, f) = (
  b ∷ ps,
  (buffer, lt, n, k, got, v),
  f ∙ ap (λ o. o ++ flat ps) e ∙ append_assoc c.out b (flat ps),
)

stream_loop-Streams :
    (fuel : ℕ) (tm : TierManager) (c : Conn) (chunk : Bytes) (d : Digest) (room size pos : ℕ)
    → IsPool tm.ssd.drives
    → HddPool tm.hdd
    → length chunk ≡ room
    → 0 < room
    → size - pos ≤ fuel
    → Streams c tm d room size pos (stream_loop fuel tm c chunk d size pos)
unfolding stream_loop Streams Pieces flat
stream_loop-Streams zero tm c chunk d room size pos v hv sized some_room enough =
    ([], omega arith, sym (append-nil c.out))
stream_loop-Streams (suc fuel) tm c chunk d room size pos v hv sized some_room enough =
    let want = min (length chunk) (size - pos) in
    let r = read tm d pos (take want chunk) in
    elim (Bool-cases (ltb pos size)) [
      | inr over ↦ rw over ([], ground (arith, over), sym (append-nil c.out))
      | inl more ↦ elim (Result-cases r.1) [
        | inl (e, failed) ↦ rw (more, failed) tt
        | inr (x, ok) ↦
            let (ssd, hdd, len) =
              Reads-value tm (length (take want chunk)) r x
                (read-Reads tm d pos (take want chunk) v hv) ok in
            let n : length x.1 ≡ want = len ∙ length-take want chunk ∙ omega arith in
            rw (more, ok)
              (elim (Bool-cases (not (x.0 == want))) [
                | inl short ↦ rw short tt
                | inr whole ↦ rw whole (elim (Bool-cases (send_all c x.1).1) [
                  | inr broken ↦ rw broken tt
                  | inl alive ↦
                      let next =
                        stream_loop fuel r.0 (send_all c x.1).0 (x.1 ++ drop want chunk) d size
                          (pos + want) in
                      let lt : pos < size = ground (arith, more) in
                      let count : x.0 ≡ length x.1 = ground (arith, whole, n) in
                      rw alive (
                        Streams-after c (send_all c x.1).0 tm d room size pos x.1 (take want chunk)
                          next lt (omega (arith, n, sized)) (sym len)
                          (ok ∙ ap (λ k. value (k, x.1)) count) (sends-out c x.1 c.sends refl alive)
                          (subst (λ k. Streams (send_all c x.1).0 r.0 d room size (pos + k) next)
                            (sym n)
                            (stream_loop-Streams fuel r.0 (send_all c x.1).0
                              (x.1 ++ drop want chunk) d room size (pos + want) (rw ssd v)
                              (rw hdd hv)
                              (omega (
                                arith,
                                n,
                                sized,
                                length-append x.1 (drop want chunk),
                                length-drop want chunk,
                              ))
                              some_room (omega arith))))
                ])
              ])
      ]
    ]

then_send-out :
    (r : TierManager × Conn × Bool) (bytes : Bytes)
    → (then_send r bytes).2 ≡ true
    → (r.2 ≡ true) × ((then_send r bytes).1.out ≡ r.1.out ++ bytes)
unfolding then_send
then_send-out (tm, c, false) bytes ok = absurd (cc)
then_send-out (tm, c, true) bytes ok = (refl, sends-out c bytes c.sends refl ok)

ended :
    (c : Conn) (tm : TierManager) (d : Digest) (room size pos : ℕ) (r : TierManager × Conn × Bool)
    → Streams c tm d room size pos r
    → r.2 ≡ true
    → (ps : List Bytes) × Pieces tm d room size pos ps × (r.1.out ≡ c.out ++ flat ps)
unfolding Streams
ended c tm d room size pos (tm', c', false) s ok = absurd (cc)
ended c tm d room size pos (tm', c', true) s ok = s

then_stream-out :
    (r : TierManager × Conn × Bool) (chunk : Bytes) (d : Digest) (m : ObjectMeta)
    → IsPool r.0.ssd.drives
    → HddPool r.0.hdd
    → 0 < length chunk
    → (then_stream r chunk d m).2 ≡ true
    → (r.2 ≡ true)
      × (ps : List Bytes) × Pieces r.0 d (length chunk) m.size 0 ps
      × ((then_stream r chunk d m).1.out ≡ r.1.out ++ flat ps)
unfolding then_stream stream_value
then_stream-out (tm, c, false) chunk d m v hv some_room ok = absurd (cc)
then_stream-out (tm, c, true) chunk d m v hv some_room ok =
    let s =
      stream_loop-Streams m.size tm c chunk d (length chunk) m.size 0 v hv refl some_room
        (omega arith) in
    let (ps, v', e) =
      ended c tm d (length chunk) m.size 0 (stream_loop m.size tm c chunk d m.size 0) s ok in
    (refl, ps, v', e)

-- What follows the length in the header: for gets, a space and the etag.
unfoldable pub Unique : Verb → ℕ → Bytes → Type 0
Unique Verb.gets etag u = (s : Bytes) × IsNumeral s etag × (u ≡ b' ' ∷ s)
Unique v etag u = u ≡ []

-- The line "VALUE <key> <flags> <bytes>[ <cas unique>]".
unfoldable pub Header : Command → ObjectMeta → Bytes → Type 0
unfolding Unique
Header cmd m h =
    (f n u : Bytes) × IsNumeral f m.flags
    × IsNumeral n m.size
    × Unique cmd.verb m.etag u
    × (h
        ≡ b'V'
          ∷ b'A'
          ∷ b'L'
          ∷ b'U'
          ∷ b'E'
          ∷ b' '
          ∷ (cmd.key ++ (b' ' ∷ (f ++ (b' ' ∷ (n ++ (u ++ (13 ∷ 10 ∷ []))))))))

get_header-Header :
    (v : Verb) (cmd : Command) (m : ObjectMeta) → cmd.verb ≡ v → Header cmd m (get_header cmd m)
unfolding Header Unique get_header value_header value_header_cas
get_header-Header Verb.gets cmd m e =
    rw (e, get_header)
      (
        print_decimal m.flags,
        print_decimal m.size,
        b' ' ∷ print_decimal m.etag,
        print_decimal-IsNumeral m.flags,
        print_decimal-IsNumeral m.size,
        (print_decimal m.etag, print_decimal-IsNumeral m.etag, refl),
        refl,
      )
get_header-Header v cmd m e =
    rw (e, get_header)
      (
        print_decimal m.flags,
        print_decimal m.size,
        [],
        print_decimal-IsNumeral m.flags,
        print_decimal-IsNumeral m.size,
        refl,
        refl,
      )

-- On pools with drives and a stripe, and with a buffer that has room: after a get of an object that is
-- there and not expired, where the connection goes on, what was sent is a header, pieces, a line end
-- and the end line. The header has the key of the command and, in decimal, the flags and the size of
-- the object, and for gets its etag. The pieces are as many bytes as the object has: each is what the
-- store reads at the position of its first byte, as the pieces before it left the store.
pub get_command_sends :
    (tm : TierManager) (c : Conn) (chunk : Bytes) (cmd : Command) (now : ℕ) (m : ObjectMeta)
    → IsPool tm.ssd.drives
    → HddPool tm.hdd
    → 0 < length chunk
    → live (lookup tm.index (hash_key cmd.key)) now ≡ some m
    → (get_command tm c chunk cmd now).2 ≡ true
    → (header : Bytes) × (ps : List Bytes) × Header cmd m header
      × Pieces (touch tm (hash_key cmd.key)) (hash_key cmd.key) (length chunk) m.size 0 ps
      × (length (flat ps) ≡ m.size)
      × ((get_command tm c chunk cmd now).1.out
          ≡ (((c.out ++ header) ++ flat ps) ++ line_end) ++ k_end)
unfolding get_command get_hit touch touch_head touch_object then_send
get_command_sends tm c chunk cmd now m v hv some_room hit ok =
    let d = hash_key cmd.key in
    let started = then_send (touch tm d, c, true) (get_header cmd m) in
    let streamed = then_stream started chunk d m in
    let lined = then_send streamed line_end in
    let (ok3, e3) = then_send-out lined k_end (rw (hit, get_command) at ok) in
    let (ok2, e2) = then_send-out streamed line_end ok3 in
    let (ok1, ps, pieces, e1) = then_stream-out started chunk d m v hv some_room ok2 in
    let (_, e0) = then_send-out (touch tm d, c, true) (get_header cmd m) ok1 in
    (
      get_header cmd m,
      ps,
      get_header-Header cmd.verb cmd m refl,
      pieces,
      length-Pieces started.0 d (length chunk) m.size 0 ps pieces ∙ omega arith,
      rw (hit, get_command)
          (e3
            ∙ ap (λ o. o ++ k_end) (e2 ∙ ap (λ o. o ++ line_end) (e1 ∙ ap (λ o. o ++ flat ps) e0))),
    )
