-- ===== src/Memcache/Server/Requests.antt =====
-- A connection stays in step with its requests (server.cpp, `handle_conn`).
use goblin_store.Prelude.{
  drop-append_le, drop-drop, take-append_le, ℕ, ◌+◌, ◌≤◌, Bool, true, false, ◌&&◌, ◌==◌,
  if◌then◌else◌, Option, none, some, List, ◌++◌, length, take, drop, get_or, ◌≡◌, refl, arith, sym,
  ap, ap₂, subst, ◌∙◌, Bool-cases, Option-cases, inl, inr,
}
use goblin_store.Prelude.Bytes.{Bytes}
use goblin_store.Common.Errors.{Result-cases, Result, value, error}
use goblin_store.Crypto.Sha256.{hash_key}
use goblin_store.Memcache.Commands.{Command, is_storage, parse_command}
use goblin_store.Memcache.Server.{
  Conn, Times, Flow, goes, closes, waits, send_all, find_eol, read_line, k_error,
}
use goblin_store.Memcache.Server.Storing.{
  Ingest, Begun, begun, still_blocked, Admission, ingest, read_two, finish_store, answer,
  store_ending, store_rest, store_begun, store_command, admission, live, begin_admitted,
}
use goblin_store.Memcache.Server.Replies.{reply_command, after_reply}
use goblin_store.Memcache.Server.Rounds.{run_line, handle_command}
use goblin_store.Memcache.Server.Framing.{
  flat, pending, find_eol-append, Line, read_line-Line, Left, ingest-Left, read_two-Left,
}
use goblin_store.Storage.Index.{lookup}
use goblin_store.Storage.TierManager.{TierManager}
use goblin_store.Memcache.Server.Hears.{Hears, send_all-Hears, reply_verb-Hears}

-- What a flow that goes on leaves of the stream.
unfoldable Framed : Bytes → Flow → Type 0
Framed w (goes tm c) = pending c ≡ w
Framed w (closes tm c) = Unit
Framed w (waits tm c) = Unit

answer-Framed :
    (tm : TierManager) (c : Conn) (noreply : Bool) (bytes : Bytes)
    → Framed (pending c) (answer tm c noreply bytes)
unfolding answer Framed pending
answer-Framed tm c true bytes = refl
answer-Framed tm c false bytes =
    let h = send_all-Hears c bytes in
    elim (Bool-cases (send_all c bytes).1) [
      | inl ok ↦ rw ok (ap₂ (λ b i. b ++ flat i) h.buf h.input)
      | inr broken ↦ rw broken tt
    ]

store_ending-Framed :
    (s : Ingest) (c : Conn) (cmd : Command) (a : Admission) (t : Times) (w : Bytes)
    (r : Option (Bytes × List Bytes))
    → Left 2 w r
    → Framed (drop 2 w) (store_ending s c cmd a t r)
unfolding store_ending Left Framed
store_ending-Framed s c cmd a t w none left = tt
store_ending-Framed s c cmd a t w (some (b, i)) (e, two) =
    let r = finish_store s cmd a (get_or b 0 0 == 13 && (get_or b 1 0 == 10)) t in
    let c' : Conn = record c { buf = drop 2 b; input = i } in
    let same : pending c' ≡ drop 2 w =
      unfold pending in sym (drop-append_le 2 b (flat i) two) ∙ ap (drop 2) e in
    subst (λ v. Framed v (answer r.0 c' cmd.noreply r.1)) same
      (answer-Framed r.0 c' cmd.noreply r.1)

store_rest-Framed :
    (r : Ingest × Option (Bytes × List Bytes)) (c : Conn) (cmd : Command) (a : Admission)
    (t : Times) (w : Bytes)
    → Left 0 w r.1
    → Framed (drop 2 w) (store_rest r c cmd a t)
unfolding store_rest Left Framed
store_rest-Framed (s, none) c cmd a t w left = tt
store_rest-Framed (s, some (b, i)) c cmd a t w (e, _) =
    store_ending-Framed s c cmd a t w (read_two i b)
      (subst (λ v. Left 2 v (read_two i b)) e (read_two-Left i b))

store_begun-Framed :
    (b : Begun) (c : Conn) (cmd : Command) (a : Admission) (t : Times)
    → Framed (drop (cmd.bytes + 2) (pending c)) (store_begun b c cmd a t)
unfolding store_begun Framed pending
store_begun-Framed (still_blocked tm) c cmd a t = tt
store_begun-Framed (begun tm h) c cmd a t =
    let s : Ingest = record { tm = tm; handle = h; write_ok = true } in
    let r = ingest c.input c.buf cmd.bytes s in
    subst (λ w. Framed w (store_rest r c cmd a t)) (drop-drop 2 cmd.bytes (c.buf ++ flat c.input))
      (store_rest-Framed r c cmd a t (drop cmd.bytes (c.buf ++ flat c.input))
        (ingest-Left c.input c.buf cmd.bytes s))

after_reply-Framed :
    (c : Conn) (r : TierManager × Conn × Bool) (rest : Bytes)
    → Hears c r.1
    → Framed (rest ++ flat c.input) (after_reply r rest)
unfolding after_reply Framed pending
after_reply-Framed c (tm, c', false) rest h = tt
after_reply-Framed c (tm, c', true) rest h = ap (λ i. rest ++ flat i) h.input

-- The bytes after the line of a command: the data block of a storage command, with its line end.
unfoldable pub block : Result Command → ℕ
block (error e) = 0
block (value cmd) = if is_storage cmd.verb then cmd.bytes + 2 else 0

run_line-Framed :
    (others : List (TierManager → TierManager)) (tm : TierManager) (c : Conn) (chunk : Bytes)
    (eol : ℕ) (t : Times)
    → eol + 2 ≤ length c.buf
    → Framed
        (drop (eol + 2 + block (parse_command (take eol c.buf))) (pending c))
        (run_line others tm c chunk eol t)
unfolding run_line block pending reply_command store_command
run_line-Framed others tm c chunk eol t inside =
    let rest = drop (eol + 2) c.buf in
    let line : drop (eol + 2) (c.buf ++ flat c.input) ≡ rest ++ flat c.input =
      drop-append_le (eol + 2) c.buf (flat c.input) inside in
    let plain : drop (eol + 2 + 0) (c.buf ++ flat c.input) ≡ rest ++ flat c.input =
      (let e : eol + 2 + 0 ≡ eol + 2 = omega arith in
        ap (λ k. drop k (c.buf ++ flat c.input)) e ∙ line) in
    elim (Result-cases (parse_command (take eol c.buf))) [
      | inl (e, bad) ↦
          rw (bad, run_line, plain)
            (after_reply-Framed c (tm, (send_all c k_error).0, (send_all c k_error).1) rest
              (send_all-Hears c k_error))
      | inr (cmd, good) ↦
          rw (good, run_line)
            (elim (Bool-cases (is_storage cmd.verb)) [
              | inr other ↦
                  rw (other, plain)
                    (after_reply-Framed c (reply_command tm c chunk cmd t) rest
                      (reply_verb-Hears cmd.verb tm c chunk cmd t))
              | inl storage ↦
                  let c1 : Conn = record c { buf = rest } in
                  let a =
                    admission cmd.verb (live (lookup tm.index (hash_key cmd.key)) t.arrives)
                      cmd.cas in
                  let b = begin_admitted a.admit others tm (hash_key cmd.key) cmd.bytes in
                  let at : drop (cmd.bytes + 2) (rest ++ flat c.input)
                      ≡ drop (eol + 2 + (cmd.bytes + 2)) (c.buf ++ flat c.input) =
                    ap (drop (cmd.bytes + 2)) (sym line)
                    ∙ drop-drop (cmd.bytes + 2) (eol + 2) (c.buf ++ flat c.input) in
                  rw storage (
                    subst (λ w. Framed w (store_begun b c1 cmd a t)) at
                      (store_begun-Framed b c1 cmd a t))
            ])
    ]

-- When a round of `handle_conn` goes on to the next command, the peer had sent a line end, and what is
-- left of all that the peer sends is what follows the first line and, for a storage command, as many
-- bytes as it announced and two more; whether it was admitted, stored or refused, and however the
-- stream came in pieces.
pub handle_command_frames :
    (others : List (TierManager → TierManager)) (tm : TierManager) (c : Conn) (chunk : Bytes)
    (t : Times) (tm' : TierManager) (c' : Conn)
    → handle_command others tm c chunk t ≡ goes tm' c'
    → (eol : ℕ) × (find_eol (pending c) ≡ some eol)
      × (pending c' ≡ drop (eol + 2 + block (parse_command (take eol (pending c)))) (pending c))
unfolding handle_command Line Framed pending
handle_command_frames others tm c chunk t tm' c' h = elim (Option-cases (read_line c.input c.buf)) [
  | inl gone ↦ let h' = rw (gone, handle_command) at h in absurd (cc)
  | inr ((eol, b, i), e) ↦
      let c1 : Conn = record c { buf = b; input = i } in
      let all = read_line-Line c.input c.buf in
      let (found, same) = (rw e at all) in
      let (there, inside) = find_eol-append b (flat i) eol found in
      let whole : pending c1 ≡ pending c = same in
      let line : take eol (pending c1) ≡ take eol b = take-append_le eol b (flat i) (omega arith) in
      let framed = run_line-Framed others tm c1 chunk eol t (omega (arith, inside)) in
      let next : c'.buf ++ flat c'.input
          ≡ drop (eol + 2 + block (parse_command (take eol b))) (pending c1) =
        subst (Framed (drop (eol + 2 + block (parse_command (take eol b))) (pending c1)))
          (rw (e, handle_command) at h) framed in
      (
        eol,
        ap find_eol (sym whole) ∙ there,
        next
            ∙ ap₂ (λ l w. drop (eol + 2 + block (parse_command l)) w)
                (sym line ∙ ap (take eol) whole) whole,
      )
]
