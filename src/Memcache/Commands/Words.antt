-- ===== src/Memcache/Commands/Words.antt =====
-- The words of a command line (protocol/memcache/protocol.cpp, the first loop of `parse_command`).
use goblin_store.Prelude.{
  ℕ, zero, suc, ◌++◌, ◌==◌, ap, ◌∙◌, ◌<◌, false, List, [], ◌∷◌, length, get_or, ◌≡◌, refl, arith,
  Bool-cases, inl, inr,
}
use goblin_store.Prelude.Bytes.{Bytes, has_byte, before, from_byte, trim_front}
use goblin_store.Common.Config.{is_empty}
use goblin_store.Memcache.Commands.{space, is_space, tokens}

-- A word is not empty and has no space.
pub record IsWord (w : Bytes) : Type 0 where
  pub filled : is_empty w ≡ false
  pub no_space : has_byte space w ≡ false

abbrev pub Words : List Bytes → Type 0
Words [] = Unit
Words (w ∷ ws) = IsWord w × Words ws

unfoldable pub Blank : Bytes → Type 0
Blank [] = Unit
Blank (b ∷ bs) = (b ≡ space) × Blank bs

unfoldable pub Ends : Bytes → Type 0
Ends [] = Unit
Ends (b ∷ bs) = b ≡ space

-- The line has these words first: each after spaces, and up to a space or the end.
unfoldable pub HasWords : Bytes → List Bytes → Type 0
HasWords line [] = Unit
HasWords line (w ∷ ws) =
    (gap : Bytes) × (rest : Bytes) × (line ≡ gap ++ (w ++ rest))
    × Blank gap
    × IsWord w
    × Ends rest
    × HasWords rest ws

before-no_byte : (c : ℕ) (s : Bytes) → has_byte c (before c s) ≡ false
unfolding before has_byte
before-no_byte c [] = refl
before-no_byte c (b ∷ bs) = ground (arith, before-no_byte c bs)

trimmed_word :
    (s : Bytes)
    → is_empty (trim_front is_space s) ≡ false
    → is_empty (before space (trim_front is_space s)) ≡ false
unfolding trim_front before
trimmed_word [] h = cc
trimmed_word (b ∷ bs) h = elim (Bool-cases (is_space b)) [
  | inl blank ↦ rw blank (trimmed_word bs (ground arith))
  | inr letter ↦ rw letter (ground arith)
]

trim_front-Blank : (s : Bytes) → (gap : Bytes) × (s ≡ gap ++ trim_front is_space s) × Blank gap
unfolding trim_front Blank
trim_front-Blank [] = ([], refl, tt)
trim_front-Blank (b ∷ bs) = elim (Bool-cases (is_space b)) [
  | inr letter ↦ rw letter ([], refl, tt)
  | inl blank ↦
      let (gap, e, v) = trim_front-Blank bs in
      rw blank (b ∷ gap, ap (λ z. b ∷ z) e, (ground (arith, blank), v))
]

before-from_byte :
    (s : Bytes) → (s ≡ before space s ++ from_byte space s) × Ends (from_byte space s)
unfolding before from_byte Ends
before-from_byte [] = (refl, tt)
before-from_byte (b ∷ bs) = elim (Bool-cases (b == space)) [
  | inl here ↦ rw here (refl, ground (arith, here))
  | inr later ↦ let (e, v) = before-from_byte bs in rw later (ap (λ z. b ∷ z) e, v)
]

pub tokens-HasWords : (n : ℕ) (line : Bytes) → HasWords line (tokens n line)
unfolding tokens HasWords
tokens-HasWords zero line = tt
tokens-HasWords (suc n) line =
    let rest = trim_front is_space line in
    let (gap, e, blank) = trim_front-Blank line in
    let (cut, ends) = before-from_byte rest in
    elim (Bool-cases (is_empty rest)) [
      | inl done ↦ rw done tt
      | inr more ↦ rw more (
        gap,
        from_byte space rest,
        e ∙ ap (λ z. gap ++ z) cut,
        blank,
        record { filled = trimmed_word line more; no_space = before-no_byte space rest },
        ends,
        tokens-HasWords n (from_byte space rest),
      )
    ]

pub HasWords-Words : (line : Bytes) (ws : List Bytes) → HasWords line ws → Words ws
unfolding HasWords
HasWords-Words line [] h = tt
HasWords-Words line (w ∷ ws) (gap, rest, e, blank, word, ends, h) = (word, HasWords-Words rest ws h)

pub tokens-Words : (n : ℕ) (line : Bytes) → Words (tokens n line)
tokens-Words n line = HasWords-Words line (tokens n line) (tokens-HasWords n line)

pub get_or-IsWord : (ws : List Bytes) (i : ℕ) → Words ws → i < length ws → IsWord (get_or ws i [])
get_or-IsWord [] i v h = absurd (omega arith)
get_or-IsWord (w ∷ ws) zero v h = v.0
get_or-IsWord (w ∷ ws) (suc i) v h = get_or-IsWord ws i v.1 (omega arith)
