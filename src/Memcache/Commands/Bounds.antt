-- ===== src/Memcache/Commands/Bounds.antt =====
-- What a parsed command guarantees (protocol/memcache/protocol.cpp).
use Prim.Native.String.{String}
use goblin_store.Prelude.{
  ℕ, zero, suc, ◌^◌, ◌⊎◌, ◌≢◌, some, get_elem?, ap, ap₂, ◌∙◌, ◌≤◌, ◌<◌, Bool, true, false, ltb,
  List, [], ◌∷◌, length, get_or, ◌≡◌, refl, subst, arith, Bool-cases, Option-cases, inl, inr,
}
use goblin_store.Prelude.Bytes.{Bytes, same, to_unsigned, to_unsigned-lt}
use goblin_store.Common.Errors.{Result, value, error, ◌>>=◌}
use goblin_store.Memcache.Commands.Words.{
  IsWord, Words, HasWords, HasWords-Words, tokens-HasWords, get_or-IsWord,
}
use goblin_store.Memcache.Commands.Decimals.{IsNumeral, to_unsigned-IsNumeral}
use goblin_store.Memcache.Commands.{
  noreply_word, Verb, Command, bare, is_storage, tokens, number, require, parse_key, parse_store,
  parse_verb, parse_tokens, parse_command, verb_of, says_noreply,
}

unfoldable pub has_key : Verb → Bool
unfolding is_storage
has_key Verb.get = true
has_key Verb.gets = true
has_key Verb.del = true
has_key v = is_storage v

-- Where the word "noreply" may stand.
unfoldable pub noreply_at : Verb → ℕ
noreply_at Verb.del = 2
noreply_at Verb.cas = 6
noreply_at v = 5

-- The numeric fields of a storage command, from its words, within their widths.
pub record IsStore (ws : List Bytes) (c : Command) : Type 0 where
  pub flags : IsNumeral (get_or ws 2 []) c.flags × (c.flags < 2 ^ 32)
  pub exptime : IsNumeral (get_or ws 3 []) c.exptime × (c.exptime < 2 ^ 32)
  pub bytes : IsNumeral (get_or ws 4 []) c.bytes × (c.bytes < 2 ^ 64)
  pub cas : c.verb ≡ Verb.cas → IsNumeral (get_or ws 5 []) c.cas × (c.cas < 2 ^ 64)
  pub no_cas : (c.verb ≡ Verb.cas) ⊎ (c.cas ≡ 0)

-- The command that these words are.
pub record IsCommand (ws : List Bytes) (c : Command) : Type 0 where
  pub verb : c.verb ≡ verb_of (get_or ws 0 [])
  pub key : has_key c.verb ≡ true → IsWord c.key × (get_elem? ws 1 ≡ some c.key)
  pub stored : is_storage c.verb ≡ true → IsStore ws c
  pub quiet : c.noreply ≡ true → get_elem? ws (noreply_at c.verb) ≡ some noreply_word

-- A result that has the property if it is a value.
abbrev pub Yields {ℓ} : {A : Type 0} → (A → Type ℓ) → Result A → Type ℓ
Yields P (value a) = P a
Yields P (error e) = Unit

pub >>=-Yields :
    {A B : Type 0} (P : A → Type 0) (Q : B → Type 0) (m : Result A) (f : A → Result B)
    → Yields P m
    → ((a : A) → P a → Yields Q (f a))
    → Yields Q (m >>= f)
>>=-Yields P Q (value a) f h k = k a h
>>=-Yields P Q (error e) f h k = tt

pub Yields-map :
    {A : Type 0} (P Q : A → Type 0) (m : Result A) → Yields P m → ((a : A) → P a → Q a) → Yields Q m
Yields-map P Q (value a) h k = k a h
Yields-map P Q (error e) h k = tt

same-lem : (a b : Bytes) → same a b ≡ true → a ≡ b
unfolding same
same-lem [] [] h = refl
same-lem [] (b ∷ bs) h = absurd (cc)
same-lem (a ∷ xs) [] h = absurd (cc)
same-lem (a ∷ xs) (b ∷ bs) h =
    let first : a ≡ b = ground (arith, h) in
    let rest : same xs bs ≡ true = ground (arith, h) in
    ap₂ (λ x zs. x ∷ zs) first (same-lem xs bs rest)

get_elem?-get_or :
    (ws : List Bytes) (i : ℕ) → i < length ws → get_elem? ws i ≡ some (get_or ws i [])
get_elem?-get_or [] i h = absurd (omega arith)
get_elem?-get_or (w ∷ ws) zero h = refl
get_elem?-get_or (w ∷ ws) (suc i) h = get_elem?-get_or ws i (omega arith)

says_noreply-lem :
    (ws : List Bytes) (i : ℕ) → says_noreply ws i ≡ true → get_elem? ws i ≡ some noreply_word
unfolding says_noreply
says_noreply-lem ws i h =
    let inside : i < length ws = ground (arith, h) in
    let said : same (get_or ws i []) noreply_word ≡ true = ground (arith, h) in
    get_elem?-get_or ws i inside ∙ ap some (same-lem (get_or ws i []) noreply_word said)

key_lem :
    (ws : List Bytes)
    → Words ws
    → 1 < length ws
    → IsWord (get_or ws 1 []) × (get_elem? ws 1 ≡ some (get_or ws 1 []))
key_lem ws words enough = (get_or-IsWord ws 1 words enough, get_elem?-get_or ws 1 enough)

-- A field that is read from a word, within its width.
abbrev Reads : ℕ → Bytes → ℕ → Type 0
Reads bits s n = IsNumeral s n × (n < 2 ^ bits)

number-Reads : (bits : ℕ) (s : Bytes) → Yields (Reads bits s) (number bits s)
unfolding number
number-Reads bits s = elim (Option-cases (to_unsigned bits s)) [
  | inl bad ↦ rw (bad, number) tt
  | inr (n, e) ↦ rw (e, number) (to_unsigned-IsNumeral bits s n e, to_unsigned-lt bits s n e)
]

-- What is read of the cas of a command of the verb.
abbrev ReadsCas : Verb → List Bytes → ℕ → Type 0
ReadsCas v ws n = (v ≡ Verb.cas → Reads 64 (get_or ws 5 []) n) × ((v ≡ Verb.cas) ⊎ (n ≡ 0))

parse_store-IsCommand :
    (v : Verb) (tok : List Bytes) (read_cas : ℕ → Result ℕ) (noreply : Bool)
    → Words tok
    → 1 < length tok
    → v ≡ verb_of (get_or tok 0 [])
    → (noreply ≡ true → get_elem? tok (noreply_at v) ≡ some noreply_word)
    → Yields (ReadsCas v tok) (read_cas 5)
    → Yields (IsCommand tok) (parse_store v tok read_cas noreply)
unfolding parse_store
parse_store-IsCommand v tok read_cas noreply words enough first quiet cas =
    >>=-Yields _ (IsCommand tok) (number 32 (get_or tok 2 [])) _ (number-Reads 32 (get_or tok 2 []))
      λ flags f.
        >>=-Yields _ (IsCommand tok) (number 32 (get_or tok 3 [])) _
          (number-Reads 32 (get_or tok 3 []))
          λ exptime t.
            >>=-Yields _ (IsCommand tok) (number 64 (get_or tok 4 [])) _
              (number-Reads 64 (get_or tok 4 []))
              λ bytes b. >>=-Yields _ (IsCommand tok) (read_cas 5) _ cas λ c k. record {
                verb = first;
                key = λ keyed. key_lem tok words enough;
                stored = λ storage. record {
                  flags = f;
                  exptime = t;
                  bytes = b;
                  cas = k.0;
                  no_cas = k.1;
                };
                quiet = quiet;
              }

require-Yields :
    (n : ℕ) (tok : List Bytes) (detail : String) (k : Result Command)
    → (n ≤ length tok → Yields (IsCommand tok) k)
    → Yields (IsCommand tok) (require n tok detail k)
unfolding require
require-Yields n tok detail k h = elim (Bool-cases (ltb (length tok) n)) [
  | inl few ↦ rw few tt
  | inr enough ↦ rw enough (h (ground arith))
]

-- A command without numeric fields; the key, if it has one, is the second word.
plain-IsCommand :
    (v : Verb) (tok : List Bytes) (key : Bytes) (noreply : Bool)
    → is_storage v ≡ false
    → v ≡ verb_of (get_or tok 0 [])
    → (has_key v ≡ true → IsWord key × (get_elem? tok 1 ≡ some key))
    → (noreply ≡ true → get_elem? tok (noreply_at v) ≡ some noreply_word)
    → IsCommand tok (record (bare v) { key = key; noreply = noreply })
plain-IsCommand v tok key noreply plain first keyed quiet = record {
  verb = first;
  key = keyed;
  stored = λ storage. absurd (ground arith);
  quiet = quiet;
}

-- A storage command other than cas.
store-IsCommand :
    (v : Verb) (tok : List Bytes)
    → Words tok
    → 1 < length tok
    → noreply_at v ≡ 5
    → v ≢ Verb.cas
    → v ≡ verb_of (get_or tok 0 [])
    → Yields (IsCommand tok) (parse_store v tok (λ i. value 0) (says_noreply tok 5))
store-IsCommand v tok w enough at5 other first =
    parse_store-IsCommand v tok (λ i. value 0) (says_noreply tok 5) w enough first
      (λ s. ap (get_elem? tok) at5 ∙ says_noreply-lem tok 5 s) ((λ e. absurd (other e)), inr refl)

parse_verb-IsCommand :
    (v : Verb) (tok : List Bytes)
    → Words tok
    → v ≡ verb_of (get_or tok 0 [])
    → Yields (IsCommand tok) (parse_verb v tok)
unfolding parse_verb parse_key is_storage has_key noreply_at
parse_verb-IsCommand Verb.get tok w first =
    require-Yields 2 tok _ _
      λ n. plain-IsCommand Verb.get tok _ _ refl first (λ k. key_lem tok w (omega arith)) (λ q. cc)
parse_verb-IsCommand Verb.gets tok w first =
    require-Yields 2 tok _ _
      λ n. plain-IsCommand Verb.gets tok _ _ refl first (λ k. key_lem tok w (omega arith)) (λ q. cc)
parse_verb-IsCommand Verb.del tok w first = require-Yields 2 tok _ _ λ n.
    plain-IsCommand Verb.del tok _ _ refl first (λ k. key_lem tok w (omega arith))
      (says_noreply-lem tok 2)
parse_verb-IsCommand Verb.set tok w first =
    require-Yields 5 tok _ _ λ n. store-IsCommand Verb.set tok w (omega arith) refl (λ e. cc) first
parse_verb-IsCommand Verb.add tok w first =
    require-Yields 5 tok _ _ λ n. store-IsCommand Verb.add tok w (omega arith) refl (λ e. cc) first
parse_verb-IsCommand Verb.replace tok w first =
    require-Yields 5 tok _ _
      λ n. store-IsCommand Verb.replace tok w (omega arith) refl (λ e. cc) first
parse_verb-IsCommand Verb.cas tok w first = require-Yields 6 tok _ _ λ n.
    parse_store-IsCommand Verb.cas tok (λ i. number 64 (get_or tok i [])) (says_noreply tok 6) w
      (omega arith) first (says_noreply-lem tok 6)
      (Yields-map _ _ (number 64 (get_or tok 5 [])) (number-Reads 64 (get_or tok 5 []))
        λ k r. ((λ e. r), inl refl))
parse_verb-IsCommand Verb.version tok w first =
    plain-IsCommand Verb.version tok _ _ refl first (λ k. absurd (cc)) (λ q. cc)
parse_verb-IsCommand Verb.quit tok w first =
    plain-IsCommand Verb.quit tok _ _ refl first (λ k. absurd (cc)) (λ q. cc)
parse_verb-IsCommand Verb.stats tok w first =
    plain-IsCommand Verb.stats tok _ _ refl first (λ k. absurd (cc)) (λ q. cc)
parse_verb-IsCommand Verb.unknown tok w first = tt

parse_tokens-IsCommand : (tok : List Bytes) → Words tok → Yields (IsCommand tok) (parse_tokens tok)
unfolding parse_tokens
parse_tokens-IsCommand [] w = tt
parse_tokens-IsCommand (t ∷ ts) w = parse_verb-IsCommand (verb_of t) (t ∷ ts) w refl

-- A line that is parsed as a command starts with words, each of which is not empty, has no space and
-- stands between spaces, and the command is what the words say: the first gives the verb; the key of
-- every command on a key is the second word; the flags, the exptime and the length of a storage
-- command are the numbers that the next three write, below 2 ^ 32, 2 ^ 32 and 2 ^ 64, and the cas of a
-- cas the one that the sixth does, below 2 ^ 64, and 0 for the other storage commands; and a command
-- without reply has the word "noreply" at its place.
pub parse_command-IsCommand :
    (line : Bytes) (c : Command)
    → parse_command line ≡ value c
    → (ws : List Bytes) × HasWords line ws × IsCommand ws c
unfolding parse_command
parse_command-IsCommand line c h =
    let ws = tokens 7 line in
    let words = tokens-HasWords 7 line in
    (
      ws,
      words,
      subst (Yields (IsCommand ws)) h (parse_tokens-IsCommand ws (HasWords-Words line ws words)),
    )
