-- ===== src/Memcache/Meta/Flags.antt =====
-- What a parsed meta command guarantees (protocol/memcache/protocol.cpp).
use Prim.Native.String.{String}
use goblin_store.Prelude.{
  ℕ, ◌^◌, ◌<◌, Bool, true, false, ◌==◌, if◌then◌else◌, List, [], ◌∷◌, length, get_or, drop, ◌≡◌,
  ◌≢◌, refl, ◌∙◌, subst, arith, Option-cases, inl, inr,
}
use goblin_store.Prelude.Bytes.{Bytes, to_unsigned, to_unsigned-lt}
use goblin_store.Common.Errors.{Result, value, ◌>>=◌}
use goblin_store.Common.Config.{is_empty}
use goblin_store.Memcache.Commands.{tokens}
use goblin_store.Memcache.Commands.Words.{IsWord, Words, tokens-Words}
use goblin_store.Memcache.Commands.Bounds.{Yields, >>=-Yields}
use goblin_store.Memcache.Meta.{
  MetaVerb, MetaCommand, plain, argument, to_signed, read_flag, read_flags, read_rest, read_key,
  read_verb, parse_meta, meta_verb_of,
}

-- The numbers fit their fields.
pub record IsMeta (m : MetaCommand) : Type 0 where
  pub key : m.verb ≢ MetaVerb.mn → IsWord m.key
  pub datalen : m.datalen < 2 ^ 64
  pub set_flags : m.set_flags < 2 ^ 32
  pub cas : m.cas < 2 ^ 64

argument-lt :
    (detail : String) (bits : ℕ) (s : Bytes)
    → Yields (λ n. n < 2 ^ bits) (argument detail (to_unsigned bits s))
argument-lt detail bits s = elim (Option-cases (to_unsigned bits s)) [
  | inl bad ↦ rw bad tt
  | inr (n, e) ↦ rw e (to_unsigned-lt bits s n e)
]

either :
    (b : Bool) (x y : Result MetaCommand)
    → Yields IsMeta x
    → Yields IsMeta y
    → Yields IsMeta (if b then x else y)
either true x y h k = h
either false x y h k = k

-- A command with the same verb, key and data length, and numbers that fit.
remade :
    (m n : MetaCommand)
    → IsMeta m
    → n.verb ≡ m.verb
    → n.key ≡ m.key
    → n.datalen ≡ m.datalen
    → n.set_flags < 2 ^ 32
    → n.cas < 2 ^ 64
    → IsMeta n
remade m n v verb key datalen set_flags cas = record {
  key = λ named. rw key (v.key (λ e. named (verb ∙ e)));
  datalen = rw datalen v.datalen;
  set_flags = set_flags;
  cas = cas;
}

module _ (m : MetaCommand) (v : IsMeta m) where
  same_numbers :
      (n : MetaCommand)
      → n.verb ≡ m.verb
      → n.key ≡ m.key
      → n.datalen ≡ m.datalen
      → n.set_flags ≡ m.set_flags
      → n.cas ≡ m.cas
      → IsMeta n
  same_numbers n verb key datalen flags cas =
      remade m n v verb key datalen (rw flags v.set_flags) (rw cas v.cas)

  with_ttl :
      (arg : Bytes)
      → Yields IsMeta
          (argument "bad T" (to_signed arg) >>= λ n. value (record m { ttl = n; has_ttl = true }))
  with_ttl arg = elim (Option-cases (to_signed arg)) [
    | inl bad ↦ rw bad tt
    | inr (n, e) ↦ rw e (same_numbers _ refl refl refl refl refl)
  ]

  read_flag-IsMeta : (c : ℕ) (arg : Bytes) → Yields IsMeta (read_flag m c arg)
  unfolding read_flag
  read_flag-IsMeta c arg = either (c == b'v') _ _ (same_numbers _ refl refl refl refl refl) (
      either (c == b'f') _ _ (same_numbers _ refl refl refl refl refl) (
        either (c == b's') _ _ (same_numbers _ refl refl refl refl refl) (
          either (c == b't') _ _ (same_numbers _ refl refl refl refl refl) (
            either (c == b'c') _ _ (same_numbers _ refl refl refl refl refl) (
              either (c == b'k') _ _ (same_numbers _ refl refl refl refl refl) (
                either (c == b'q') _ _ (same_numbers _ refl refl refl refl refl) (
                  either (c == b'F') _ _
                    (>>=-Yields _ IsMeta (argument "bad F" (to_unsigned 32 arg)) _
                      (argument-lt "bad F" 32 arg) (λ n lt. remade m _ v refl refl refl lt v.cas))
                    (either (c == b'T') _ _ (with_ttl arg) (
                      either (c == b'C') _ _
                        (>>=-Yields _ IsMeta (argument "bad C" (to_unsigned 64 arg)) _
                          (argument-lt "bad C" 64 arg)
                          (λ n lt. remade m _ v refl refl refl v.set_flags lt))
                        (either (c == b'M') _ _
                          (either (is_empty arg) _ _ tt (same_numbers _ refl refl refl refl refl))
                          (either (c == b'O') _ _ (same_numbers _ refl refl refl refl refl)
                            tt)))))))))))

read_flags-IsMeta : (ts : List Bytes) (m : MetaCommand) → IsMeta m → Yields IsMeta (read_flags m ts)
unfolding read_flags
read_flags-IsMeta [] m v = v
read_flags-IsMeta (t ∷ ts) m v =
    >>=-Yields IsMeta IsMeta (read_flag m (get_or t 0 0) (drop 1 t)) (λ m'. read_flags m' ts)
      (read_flag-IsMeta m v (get_or t 0 0) (drop 1 t)) (λ n w. read_flags-IsMeta ts n w)

read_rest-IsMeta :
    (v : MetaVerb) (m : MetaCommand) (ts : List Bytes) → IsMeta m → Yields IsMeta (read_rest v m ts)
unfolding read_rest
read_rest-IsMeta MetaVerb.ms m ts w =
    >>=-Yields _ IsMeta (argument "ms needs <datalen>" (to_unsigned 64 (get_or ts 0 []))) _
      (argument-lt "ms needs <datalen>" 64 (get_or ts 0 []))
      (λ n lt.
        read_flags-IsMeta (drop 1 ts) (record m { datalen = n })
          (record { key = w.key; datalen = lt; set_flags = w.set_flags; cas = w.cas }))
read_rest-IsMeta MetaVerb.mn m ts w = read_flags-IsMeta ts m w
read_rest-IsMeta MetaVerb.mg m ts w = read_flags-IsMeta ts m w
read_rest-IsMeta MetaVerb.md m ts w = read_flags-IsMeta ts m w
read_rest-IsMeta MetaVerb.unknown m ts w = read_flags-IsMeta ts m w

read_key-IsMeta : (v : MetaVerb) (ts : List Bytes) → Words ts → Yields IsMeta (read_key v ts)
unfolding read_key
read_key-IsMeta v [] w = tt
read_key-IsMeta v (key ∷ ts) w =
    read_rest-IsMeta v (record (plain v) { key = key }) ts
      (record {
        key = λ named. w.0;
        datalen = omega arith;
        set_flags = omega arith;
        cas = omega arith;
      })

read_verb-IsMeta : (v : MetaVerb) (ts : List Bytes) → Words ts → Yields IsMeta (read_verb v ts)
unfolding read_verb
read_verb-IsMeta MetaVerb.mn ts w = record {
  key = λ named. absurd (named refl);
  datalen = omega arith;
  set_flags = omega arith;
  cas = omega arith;
}
read_verb-IsMeta MetaVerb.mg ts w = read_key-IsMeta MetaVerb.mg ts w
read_verb-IsMeta MetaVerb.ms ts w = read_key-IsMeta MetaVerb.ms ts w
read_verb-IsMeta MetaVerb.md ts w = read_key-IsMeta MetaVerb.md ts w
read_verb-IsMeta MetaVerb.unknown ts w = tt

Words-drop : (ws : List Bytes) → Words ws → Words (drop 1 ws)
Words-drop [] w = tt
Words-drop (t ∷ ts) w = w.1

-- A meta line that is parsed gives a command whose key, unless it is `mn`, is not empty and has no
-- space, whose flags fit 32 bits, and whose data length and cas fit 64.
pub parse_meta-IsMeta : (line : Bytes) (m : MetaCommand) → parse_meta line ≡ value m → IsMeta m
unfolding parse_meta
parse_meta-IsMeta line m h =
    let words = tokens (length line) line in
    subst (Yields IsMeta) h (
      read_verb-IsMeta (meta_verb_of (get_or words 0 [])) (drop 1 words)
        (Words-drop words (tokens-Words (length line) line)))
