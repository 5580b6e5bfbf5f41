-- ===== src/Http/Keys.antt =====
-- src/goblin/http/key_derivation.hpp and key_derivation.cpp: the key of a request or a file. A
-- string is a list of bytes.
pub mod Paths
pub mod Agreement
use goblin_store.Prelude.{
  ℕ, zero, suc, ◌+◌, ◌*◌, ◌-◌, Bool, true, false, not, ◌&&◌, ◌||◌, ◌==◌, leb, if◌then◌else◌, Option,
  none, some, List, [], ◌∷◌, ◌++◌, map, drop, is_some,
}
use goblin_store.Prelude.Bytes.{Bytes, same, has_byte, before, from_byte, ends_in, trim_end}
use goblin_store.Common.Config.{is_empty}

pub data KeyMode : Type 0 where
  path vhost : KeyMode

pub record KeyOptions : Type 0 where
  pub mode : KeyMode
  pub keep_query : Bool
  pub strip_leading_slash : Bool
  pub index_name : Bytes

abbrev pub slash : ℕ
slash = b'/'

abbrev pub dot : ℕ
dot = b'.'

-- The value of a hexadecimal digit; none for -1.
unfoldable pub hexval : ℕ → Option ℕ
hexval c =
    if leb b'0' c && leb c b'9'
    then some (c - b'0')
    else if leb b'a' c && leb c b'f'
    then some (c - b'a' + 10)
    else if leb b'A' c && leb c b'F'
    then some (c - b'A' + 10)
    else none

-- `(hi << 4) | lo`, where both are digits.
unfoldable pub hex_byte : Option ℕ → Option ℕ → Option ℕ
hex_byte (some hi) (some lo) = some (hi * 16 + lo)
hex_byte (some hi) none = none
hex_byte none lo = none

unfoldable pub percent_decode : Bytes → Bytes
unfolding hexval hex_byte
percent_decode [] = []
percent_decode (a ∷ []) = a ∷ []
percent_decode (a ∷ b ∷ []) = a ∷ b ∷ []
percent_decode (a ∷ b ∷ c ∷ s) =
    let plain = a ∷ percent_decode (b ∷ c ∷ s) in
    let rest = percent_decode s in
    if a == b'%'
    then elim (hex_byte (hexval b) (hexval c)) [ some byte ↦ byte ∷ rest | none ↦ plain ]
    else plain

-- The segments between the slashes, in order.
unfoldable pub add_to_first : ℕ → List Bytes → List Bytes
add_to_first c [] = (c ∷ []) ∷ []
add_to_first c (seg ∷ segs) = (c ∷ seg) ∷ segs

unfoldable pub segments : Bytes → List Bytes
unfolding add_to_first
segments [] = [] ∷ []
segments (c ∷ s) = let rest = segments s in if c == slash then [] ∷ rest else add_to_first c rest

unfoldable pub pop_segment : List Bytes → List Bytes
pop_segment [] = []
pop_segment (seg ∷ []) = []
pop_segment (seg ∷ next ∷ segs) = seg ∷ pop_segment (next ∷ segs)

-- One round of the loop of `canonical_path`.
unfoldable pub push_segment : List Bytes → Bytes → List Bytes
unfolding pop_segment same
push_segment stack seg =
    if same seg (dot ∷ dot ∷ [])
    then pop_segment stack
    else if not (is_empty seg) && not (same seg (dot ∷ []))
    then stack ++ seg ∷ []
    else stack

unfoldable pub resolve : List Bytes → List Bytes → List Bytes
unfolding push_segment
resolve stack [] = stack
resolve stack (seg ∷ segs) = resolve (push_segment stack seg) segs

unfoldable pub join_rest : List Bytes → Bytes
join_rest [] = []
join_rest (seg ∷ segs) = slash ∷ (seg ++ join_rest segs)

-- `"/"`, then the segments with a slash between them.
unfoldable pub join : List Bytes → Bytes
unfolding join_rest
join [] = slash ∷ []
join (seg ∷ segs) = join_rest (seg ∷ segs)

unfoldable pub canonical_path : Bytes → Bool → Bytes
unfolding percent_decode segments resolve join
canonical_path raw decode =
    let decoded = if decode then percent_decode raw else raw in join (resolve [] (segments decoded))

-- `std::tolower` in the C locale.
unfoldable pub to_lower : ℕ → ℕ
to_lower c = if leb b'A' c && leb c b'Z' then c + 32 else c

unfoldable pub normalize_host : Bytes → Bytes
unfolding before trim_end to_lower
normalize_host host = map to_lower (trim_end (λ c. c == dot) (before b':' host))

-- The key of the path, with the query if it is kept.
unfoldable pub path_key : Bytes → Bytes → KeyOptions → Bytes
unfolding canonical_path ends_in
path_key path_part query_part opt =
    let key =
      if not (is_empty opt.index_name) && (is_empty path_part || ends_in slash path_part)
      then canonical_path (path_part ++ opt.index_name) true
      else canonical_path path_part true in
    if opt.keep_query && not (is_empty query_part) then key ++ query_part else key

unfoldable pub finish_key : KeyMode → Bytes → Bytes → Bool → Option Bytes
unfolding normalize_host
finish_key KeyMode.vhost host key strip =
    let h = normalize_host host in if is_empty h then none else some (h ++ key)
finish_key KeyMode.path host key strip = if strip then some (drop 1 key) else some key

unfoldable pub derive_key : Bytes → Bytes → KeyOptions → Option Bytes
unfolding before from_byte path_key finish_key
derive_key host uri opt =
    let u = before b'#' uri in
    finish_key opt.mode host (path_key (before b'?' u) (from_byte b'?' u) opt)
      opt.strip_leading_slash

unfoldable pub relpath_key : KeyMode → Bytes → Bool → Bytes
unfolding before from_byte normalize_host canonical_path
relpath_key KeyMode.vhost relpath strip =
    let rest = from_byte slash relpath in
    let tail = if is_empty rest then slash ∷ [] else canonical_path rest false in
    normalize_host (before slash relpath) ++ tail
relpath_key KeyMode.path relpath strip =
    let key = canonical_path (slash ∷ relpath) false in if strip then drop 1 key else key

unfoldable pub derive_key_from_relpath : Bytes → KeyOptions → Bytes
unfolding relpath_key
derive_key_from_relpath relpath opt = relpath_key opt.mode relpath opt.strip_leading_slash
