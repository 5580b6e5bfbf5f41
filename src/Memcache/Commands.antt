-- ===== src/Memcache/Commands.antt =====
-- src/goblin/protocol/memcache/protocol.hpp and protocol.cpp: the classic commands and the headers of
-- values. A string is a list of bytes; a view into the line is the bytes it shows.
pub mod Decimals
pub mod Words
pub mod Bounds
use Prim.Native.String.{String}
use goblin_store.Prelude.{
  ℕ, zero, suc, ◌+◌, ◌-◌, ◌/◌, ◌%◌, Bool, true, false, not, ◌&&◌, ◌||◌, ◌==◌, leb, ltb,
  if◌then◌else◌, Option, none, some, List, [], ◌∷◌, ◌++◌, length, get_or,
}
use goblin_store.Prelude.Bytes.{Bytes, same, before, from_byte, trim_front, to_unsigned}
use goblin_store.Common.Errors.{Result, value, error, err, invalid_protocol, ◌>>=◌}
use goblin_store.Common.Config.{is_empty}

pub data Verb : Type 0 where
  get gets set add replace cas del version quit stats unknown : Verb

pub record Command : Type 0 where
  pub verb : Verb
  pub key : Bytes
  pub flags : ℕ
  pub exptime : ℕ
  pub bytes : ℕ
  pub cas : ℕ
  pub noreply : Bool

-- A command with the default fields.
abbrev pub bare : Verb → Command
bare v = record { verb = v; key = []; flags = 0; exptime = 0; bytes = 0; cas = 0; noreply = false }

unfoldable pub is_storage : Verb → Bool
is_storage Verb.set = true
is_storage Verb.add = true
is_storage Verb.replace = true
is_storage Verb.cas = true
is_storage Verb.get = false
is_storage Verb.gets = false
is_storage Verb.del = false
is_storage Verb.version = false
is_storage Verb.quit = false
is_storage Verb.stats = false
is_storage Verb.unknown = false

unfoldable pub verb_of : Bytes → Verb
unfolding same
verb_of t =
    if same t (b'g' ∷ b'e' ∷ b't' ∷ [])
    then Verb.get
    else if same t (b'g' ∷ b'e' ∷ b't' ∷ b's' ∷ [])
    then Verb.gets
    else if same t (b's' ∷ b'e' ∷ b't' ∷ [])
    then Verb.set
    else if same t (b'a' ∷ b'd' ∷ b'd' ∷ [])
    then Verb.add
    else if same t (b'r' ∷ b'e' ∷ b'p' ∷ b'l' ∷ b'a' ∷ b'c' ∷ b'e' ∷ [])
    then Verb.replace
    else if same t (b'c' ∷ b'a' ∷ b's' ∷ [])
    then Verb.cas
    else if same t (b'd' ∷ b'e' ∷ b'l' ∷ b'e' ∷ b't' ∷ b'e' ∷ [])
    then Verb.del
    else if same t (b'v' ∷ b'e' ∷ b'r' ∷ b's' ∷ b'i' ∷ b'o' ∷ b'n' ∷ [])
    then Verb.version
    else if same t (b'q' ∷ b'u' ∷ b'i' ∷ b't' ∷ [])
    then Verb.quit
    else if same t (b's' ∷ b't' ∷ b'a' ∷ b't' ∷ b's' ∷ [])
    then Verb.stats
    else Verb.unknown

abbrev pub space : ℕ
space = b' '

abbrev pub is_space : ℕ → Bool
is_space c = c == space

-- The words of a line, at most so many.
unfoldable pub tokens : ℕ → Bytes → List Bytes
unfolding trim_front before from_byte
tokens zero line = []
tokens (suc more) line =
    let rest = trim_front is_space line in
    let words = tokens more (from_byte space rest) in
    if is_empty rest then [] else before space rest ∷ words

unfoldable pub number : ℕ → Bytes → Result ℕ
unfolding to_unsigned
number bits s = elim (to_unsigned bits s) [
  | some n ↦ value n
  | none ↦ err invalid_protocol "bad numeric field"
]

abbrev pub noreply_word : Bytes
noreply_word = b'n' ∷ b'o' ∷ b'r' ∷ b'e' ∷ b'p' ∷ b'l' ∷ b'y' ∷ []

unfoldable pub says_noreply : List Bytes → ℕ → Bool
unfolding same
says_noreply tok i = leb (i + 1) (length tok) && same (get_or tok i []) noreply_word

-- `if (ntok < n) return err(Errc::invalid_protocol, detail);`
unfoldable pub require : ℕ → List Bytes → String → Result Command → Result Command
require n tok detail k = if ltb (length tok) n then err invalid_protocol detail else k

unfoldable pub parse_key : Verb → List Bytes → Bool → Result Command
parse_key v tok noreply = value (record (bare v) { key = get_or tok 1 []; noreply = noreply })

-- The numeric fields, the last of which only `cas` has.
unfoldable pub parse_store : Verb → List Bytes → (ℕ → Result ℕ) → Bool → Result Command
unfolding number
parse_store v tok read_cas noreply = number 32 (get_or tok 2 []) >>= λ flags.
    number 32 (get_or tok 3 []) >>= λ exptime. number 64 (get_or tok 4 []) >>= λ bytes.
    read_cas 5 >>= λ cas. value (record {
      verb = v;
      key = get_or tok 1 [];
      flags = flags;
      exptime = exptime;
      bytes = bytes;
      cas = cas;
      noreply = noreply;
    })

unfoldable pub parse_verb : Verb → List Bytes → Result Command
unfolding require parse_key parse_store says_noreply number
parse_verb Verb.get tok = require 2 tok "get needs a key" (parse_key Verb.get tok false)
parse_verb Verb.gets tok = require 2 tok "get needs a key" (parse_key Verb.gets tok false)
parse_verb Verb.del tok =
    require 2 tok "delete needs a key" (parse_key Verb.del tok (says_noreply tok 2))
parse_verb Verb.set tok =
    require 5 tok "storage needs <key> <flags> <exptime> <bytes>"
      (parse_store Verb.set tok (λ i. value 0) (says_noreply tok 5))
parse_verb Verb.add tok =
    require 5 tok "storage needs <key> <flags> <exptime> <bytes>"
      (parse_store Verb.add tok (λ i. value 0) (says_noreply tok 5))
parse_verb Verb.replace tok =
    require 5 tok "storage needs <key> <flags> <exptime> <bytes>"
      (parse_store Verb.replace tok (λ i. value 0) (says_noreply tok 5))
parse_verb Verb.cas tok =
    require 6 tok "cas needs <key> <flags> <exptime> <bytes> <cas>"
      (parse_store Verb.cas tok (λ i. number 64 (get_or tok i [])) (says_noreply tok 6))
parse_verb Verb.version tok = value (bare Verb.version)
parse_verb Verb.quit tok = value (bare Verb.quit)
parse_verb Verb.stats tok = value (bare Verb.stats)
parse_verb Verb.unknown tok = err invalid_protocol "unknown command"

unfoldable pub parse_tokens : List Bytes → Result Command
unfolding verb_of parse_verb
parse_tokens [] = err invalid_protocol "empty command"
parse_tokens (t ∷ ts) = parse_verb (verb_of t) (t ∷ ts)

unfoldable pub parse_command : Bytes → Result Command
unfolding tokens parse_tokens
parse_command line = parse_tokens (tokens 7 line)

-- `std::format` of an unsigned number. A number has no more digits than it counts.
unfoldable pub decimal_digits : ℕ → ℕ → Bytes
decimal_digits zero n = []
decimal_digits (suc fuel) n =
    let rest = decimal_digits fuel (n / 10) in
    if ltb n 10 then (48 + n) ∷ [] else rest ++ (48 + n % 10) ∷ []

unfoldable pub print_decimal : ℕ → Bytes
unfolding decimal_digits
print_decimal n = decimal_digits (suc n) n

abbrev value_word : Bytes
value_word = b'V' ∷ b'A' ∷ b'L' ∷ b'U' ∷ b'E' ∷ b' ' ∷ []

abbrev line_end : Bytes
line_end = 13 ∷ 10 ∷ []

unfoldable pub value_header : Bytes → ℕ → ℕ → Bytes
unfolding print_decimal
value_header key flags bytes =
    value_word ++ key ++ space ∷ (print_decimal flags ++ space ∷ (print_decimal bytes ++ line_end))

unfoldable pub value_header_cas : Bytes → ℕ → ℕ → ℕ → Bytes
unfolding print_decimal
value_header_cas key flags bytes unique =
    value_word
    ++ key
    ++ space
      ∷ (print_decimal flags
          ++ space ∷ (print_decimal bytes ++ space ∷ (print_decimal unique ++ line_end)))
