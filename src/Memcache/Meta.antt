-- ===== src/Memcache/Meta.antt =====
-- src/goblin/protocol/memcache/protocol.hpp and protocol.cpp: the meta commands.
pub mod Flags
use Prim.Native.String.{String}
use goblin_store.Prelude.{
  ℕ, zero, suc, ◌+◌, ◌-◌, ◌^◌, Bool, true, false, not, ◌&&◌, ◌||◌, ◌==◌, leb, ltb, if◌then◌else◌,
  Option, none, some, List, [], ◌∷◌, ◌++◌, length, get_or, drop,
}
use goblin_store.Prelude.Bytes.{Bytes, same, before, from_byte, trim_front, to_unsigned}
use goblin_store.Common.Errors.{Result, value, error, err, invalid_protocol, ◌>>=◌}
use goblin_store.Common.Config.{is_empty}
use goblin_store.Memcache.Commands.{tokens}

pub data MetaVerb : Type 0 where
  mn mg ms md unknown : MetaVerb

pub data ℤ : Type 0 where
  pos negsuc : ℕ → ℤ

pub record MetaCommand : Type 0 where
  pub verb : MetaVerb
  pub key : Bytes
  pub datalen : ℕ
  pub rf_value : Bool
  pub rf_flags : Bool
  pub rf_size : Bool
  pub rf_ttl : Bool
  pub rf_cas : Bool
  pub rf_key : Bool
  pub quiet : Bool
  pub has_set_flags : Bool
  pub set_flags : ℕ
  pub has_ttl : Bool
  pub ttl : ℤ
  pub has_cas : Bool
  pub cas : ℕ
  pub mode : ℕ
  pub opaque : Bytes

-- A command with the default fields.
abbrev pub plain : MetaVerb → MetaCommand
plain v = record {
  verb = v;
  key = [];
  datalen = 0;
  rf_value = false;
  rf_flags = false;
  rf_size = false;
  rf_ttl = false;
  rf_cas = false;
  rf_key = false;
  quiet = false;
  has_set_flags = false;
  set_flags = 0;
  has_ttl = false;
  ttl = pos 0;
  has_cas = false;
  cas = 0;
  mode = b'S';
  opaque = [];
}

unfoldable pub meta_verb_of : Bytes → MetaVerb
unfolding same
meta_verb_of v =
    if same v (b'm' ∷ b'n' ∷ [])
    then MetaVerb.mn
    else if same v (b'm' ∷ b'g' ∷ [])
    then MetaVerb.mg
    else if same v (b'm' ∷ b's' ∷ [])
    then MetaVerb.ms
    else if same v (b'm' ∷ b'd' ∷ [])
    then MetaVerb.md
    else MetaVerb.unknown

unfoldable pub negative : ℕ → ℤ
negative zero = pos 0
negative (suc n) = negsuc n

unfoldable pub signed_part : Bool → Option ℕ → Option ℤ
unfolding negative
signed_part minus none = none
signed_part true (some n) = if leb n (2 ^ 63) then some (negative n) else none
signed_part false (some n) = if ltb n (2 ^ 63) then some (pos n) else none

-- `std::from_chars` of a 64-bit signed number that must take the whole string.
unfoldable pub to_signed : Bytes → Option ℤ
unfolding signed_part to_unsigned
to_signed [] = none
to_signed (b ∷ bs) =
    if b == b'-'
    then signed_part true (to_unsigned 64 bs)
    else signed_part false (to_unsigned 64 (b ∷ bs))

-- The argument of a flag, or an error.
abbrev pub argument {ℓ} : {A : Type ℓ} → String → Option A → Result A
argument detail none = err invalid_protocol detail
argument detail (some a) = value a

-- One flag: its letter and the rest of the word.
unfoldable pub read_flag : MetaCommand → ℕ → Bytes → Result MetaCommand
unfolding to_signed to_unsigned
read_flag m c arg =
    if c == b'v'
    then value (record m { rf_value = true })
    else if c == b'f'
    then value (record m { rf_flags = true })
    else if c == b's'
    then value (record m { rf_size = true })
    else if c == b't'
    then value (record m { rf_ttl = true })
    else if c == b'c'
    then value (record m { rf_cas = true })
    else if c == b'k'
    then value (record m { rf_key = true })
    else if c == b'q'
    then value (record m { quiet = true })
    else if c == b'F'
    then (argument "bad F" (to_unsigned 32 arg) >>= λ n.
        value (record m { set_flags = n; has_set_flags = true }))
    else if c == b'T'
    then (argument "bad T" (to_signed arg) >>= λ n. value (record m { ttl = n; has_ttl = true }))
    else if c == b'C'
    then (argument "bad C" (to_unsigned 64 arg) >>= λ n.
        value (record m { cas = n; has_cas = true }))
    else if c == b'M'
    then if is_empty arg
      then err invalid_protocol "bad M"
      else value (record m { mode = get_or arg 0 0 })
    else if c == b'O'
    then value (record m { opaque = arg })
    else err invalid_protocol "unsupported meta flag"

unfoldable pub read_flags : MetaCommand → List Bytes → Result MetaCommand
unfolding read_flag
read_flags m [] = value m
read_flags m (t ∷ ts) = read_flag m (get_or t 0 0) (drop 1 t) >>= λ m'. read_flags m' ts

-- What follows the key: for `ms` the data length, then the flags.
unfoldable pub read_rest : MetaVerb → MetaCommand → List Bytes → Result MetaCommand
unfolding read_flags to_unsigned
read_rest MetaVerb.ms m ts =
    argument "ms needs <datalen>" (to_unsigned 64 (get_or ts 0 [])) >>= λ n.
    read_flags (record m { datalen = n }) (drop 1 ts)
read_rest MetaVerb.mn m ts = read_flags m ts
read_rest MetaVerb.mg m ts = read_flags m ts
read_rest MetaVerb.md m ts = read_flags m ts
read_rest MetaVerb.unknown m ts = read_flags m ts

unfoldable pub read_key : MetaVerb → List Bytes → Result MetaCommand
unfolding read_rest
read_key v [] = err invalid_protocol "meta needs a key"
read_key v (key ∷ ts) = read_rest v (record (plain v) { key = key }) ts

unfoldable pub read_verb : MetaVerb → List Bytes → Result MetaCommand
unfolding read_key
read_verb MetaVerb.mn ts = value (plain MetaVerb.mn)
read_verb MetaVerb.mg ts = read_key MetaVerb.mg ts
read_verb MetaVerb.ms ts = read_key MetaVerb.ms ts
read_verb MetaVerb.md ts = read_key MetaVerb.md ts
read_verb MetaVerb.unknown ts = err invalid_protocol "unknown meta command"

-- A line has no more words than bytes, and `next` gives them in turn, then empty ones.
unfoldable pub parse_meta : Bytes → Result MetaCommand
unfolding tokens meta_verb_of read_verb
parse_meta line =
    let words = tokens (length line) line in
    read_verb (meta_verb_of (get_or words 0 [])) (drop 1 words)
