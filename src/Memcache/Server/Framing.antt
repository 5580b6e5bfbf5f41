-- ===== src/Memcache/Server/Framing.antt =====
-- The framing of requests (server.cpp, `handle_conn`): what each command takes off the stream.
use goblin_store.Prelude.{
  drop-append_le, drop-append_ge, ℕ, ◌+◌, ◌-◌, ◌≤◌, ◌&&◌, ◌==◌, leb, ltb, Option, none, some, List,
  [], ◌∷◌, ◌++◌, length, take, drop, append_assoc, ◌≡◌, refl, arith, sym, ap, subst, Bool-cases,
  Option-cases, inl, inr,
}
use goblin_store.Prelude.Bytes.{Bytes}
use goblin_store.Common.Config.{is_empty}
use goblin_store.Memcache.Server.{Conn, find_eol, read_line}
use goblin_store.Memcache.Server.Storing.{Ingest, put_some, ingest, read_two}

-- All that the peer sends, in one piece.
unfoldable pub flat : List Bytes → Bytes
flat [] = []
flat (c ∷ cs) = c ++ flat cs

unfoldable pub pending : Conn → Bytes
pending c = c.buf ++ flat c.input

-- A line end is still where it is when more is received.
pub find_eol-append :
    (b r : Bytes) (n : ℕ) → find_eol b ≡ some n → (find_eol (b ++ r) ≡ some n) × (n + 2 ≤ length b)
unfolding find_eol
find_eol-append [] r n h = absurd (cc)
find_eol-append (a ∷ []) r n h = absurd (cc)
find_eol-append (a ∷ b ∷ bs) r n h = elim (Bool-cases (a == 13 && (b == 10))) [
  | inl here ↦
      let first : 0 ≡ n = (let h' = rw here at h in ground (arith, h')) in
      rw here (ap some first, omega (arith, first))
  | inr later ↦ elim (Option-cases (find_eol (b ∷ bs))) [
    | inl never ↦ let h' = rw (later, never) at h in absurd (cc)
    | inr (m, e) ↦
        let rest = find_eol-append (b ∷ bs) r m e in
        let next : m + 1 ≡ n = (let h' = rw (later, e) at h in ground (arith, h')) in
        rw (later, rest.0) (ap some next, omega (arith, rest.1, next))
  ]
]

-- What a read of the line leaves.
unfoldable pub Line : Bytes → Option (ℕ × Bytes × List Bytes) → Type 0
Line w none = Unit
Line w (some (eol, b, i)) = (find_eol b ≡ some eol) × (b ++ flat i ≡ w)

pub read_line-Line : (i : List Bytes) (b : Bytes) → Line (b ++ flat i) (read_line i b)
unfolding read_line Line flat
read_line-Line [] b = elim (Option-cases (find_eol b)) [
  | inl none_yet ↦ rw (none_yet, read_line) tt
  | inr (n, e) ↦ rw (e, read_line) (e, refl)
]
read_line-Line (c ∷ cs) b = elim (Option-cases (find_eol b)) [
  | inr (n, e) ↦ rw (e, read_line) (e, refl)
  | inl none_yet ↦
      rw (none_yet, read_line)
        (elim (Bool-cases (is_empty c)) [
          | inl over ↦ rw over tt
          | inr more ↦ rw more (
              subst (λ w. Line w (read_line cs (b ++ c))) (append_assoc b c (flat cs))
                (read_line-Line cs (b ++ c)))
        ])
]

-- What is left of a stream, with `k` bytes at least in the buffer.
unfoldable pub Left : ℕ → Bytes → Option (Bytes × List Bytes) → Type 0
Left k w none = Unit
Left k w (some (b, i)) = (b ++ flat i ≡ w) × (k ≤ length b)

pub ingest-Left :
    (i : List Bytes) (b : Bytes) (n : ℕ) (s : Ingest)
    → Left 0 (drop n (b ++ flat i)) (ingest i b n s).1
unfolding ingest Left flat
ingest-Left [] b n s = elim (Bool-cases (leb n (length b))) [
  | inl enough ↦ rw enough (sym (drop-append_le n b [] (ground (arith, enough))), omega arith)
  | inr short ↦ rw short tt
]
ingest-Left (c ∷ cs) b n s = elim (Bool-cases (leb n (length b))) [
  | inl enough ↦
      rw enough (sym (drop-append_le n b (c ++ flat cs) (ground (arith, enough))), omega arith)
  | inr short ↦ rw short (elim (Bool-cases (is_empty c)) [
    | inl over ↦ rw over tt
    | inr more ↦ rw more (
        subst (λ w. Left 0 w (ingest cs c (n - length b) (put_some s (take n b))).1)
          (sym (drop-append_ge n b (c ++ flat cs) (ground (arith, short))))
          (ingest-Left cs c (n - length b) (put_some s (take n b))))
  ])
]

pub read_two-Left : (i : List Bytes) (b : Bytes) → Left 2 (b ++ flat i) (read_two i b)
unfolding read_two Left flat
read_two-Left [] b = elim (Bool-cases (ltb (length b) 2)) [
  | inl short ↦ rw short tt
  | inr enough ↦ rw enough (refl, ground (arith, enough))
]
read_two-Left (c ∷ cs) b = elim (Bool-cases (ltb (length b) 2)) [
  | inr enough ↦ rw enough (refl, ground (arith, enough))
  | inl short ↦ rw short (elim (Bool-cases (is_empty c)) [
    | inl over ↦ rw over tt
    | inr more ↦ rw more (
        subst (λ w. Left 2 w (read_two cs (b ++ c))) (append_assoc b c (flat cs))
          (read_two-Left cs (b ++ c)))
  ])
]
