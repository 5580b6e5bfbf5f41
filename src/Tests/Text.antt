-- ===== src/Tests/Text.antt =====
-- Keys, ranges and commands (http/key_derivation.cpp, http/request.cpp, protocol.cpp) at concrete
-- inputs.
use goblin_store.Prelude.{
  ℕ, ◌+◌, ◌≤◌, ◌<◌, true, false, not, ◌&&◌, ◌==◌, leb, ltb, if◌then◌else◌, some, none, List, [],
  ◌∷◌, ◌≡◌, ◌↔◌, refl, arith,
}
use goblin_store.Prelude.Bytes.{Bytes, same, to_unsigned, has_byte, before, from_byte, starts_with}
use goblin_store.Common.Types.{ByteRange, RangeKind}
use goblin_store.Common.Errors.{value}
use goblin_store.Http.Keys.{
  KeyMode, KeyOptions, canonical_path, join, derive_key, derive_key_from_relpath,
}
use goblin_store.Http.Keys.Paths.{Names, canonical_path-Names}
use goblin_store.Http.Keys.Agreement.{IsPlain, derive_key-derive_key_from_relpath}
use goblin_store.Http.Request.{parse_range, resolve_range, content_type_for}
use goblin_store.Http.Request.Ranges.{Covers, parse_range-resolve_range}
use goblin_store.Memcache.Commands.{Verb, Command, parse_command}
use goblin_store.Memcache.Commands.Bounds.{IsCommand, parse_command-IsCommand}
use goblin_store.Memcache.Commands.Words.{HasWords}
use goblin_store.Memcache.Meta.{MetaVerb, MetaCommand, plain, parse_meta}
use goblin_store.Memcache.Meta.Flags.{IsMeta, parse_meta-IsMeta}
use goblin_store.Memcache.Expiry.{
  relative_max, exptime_to_expiry, exptime_to_expiry-is_expired, exptime_to_expiry_wraps,
}
use goblin_store.Storage.Index.{ObjectMeta, no_head, is_expired}

-- "/a//b/../%63"
abbrev messy : Bytes
messy = b'/' ∷ b'a' ∷ b'/' ∷ b'/' ∷ b'b' ∷ b'/' ∷ b'.' ∷ b'.' ∷ b'/' ∷ b'%' ∷ b'6' ∷ b'3' ∷ []

cleaned : canonical_path messy true ≡ b'/' ∷ b'a' ∷ b'/' ∷ b'c' ∷ []
unfolding canonical_path
cleaned = refl

canonical_path-Names_example :
    ((names : List Bytes) × Names names × (canonical_path messy true ≡ join names))
    × (canonical_path (canonical_path messy true) false ≡ canonical_path messy true)
canonical_path-Names_example = canonical_path-Names messy true

-- "a.b"
abbrev file : Bytes
file = b'a' ∷ b'.' ∷ b'b' ∷ []

file-IsPlain : IsPlain file
unfolding has_byte
file-IsPlain = record { no_percent = refl; no_fragment = refl; no_query = refl }

abbrev options : KeyOptions
options = record {
  mode = KeyMode.path;
  keep_query = false;
  strip_leading_slash = true;
  index_name = [];
}

derive_key-derive_key_from_relpath_example :
    derive_key [] (b'/' ∷ file) options ≡ some (derive_key_from_relpath file options)
derive_key-derive_key_from_relpath_example =
    derive_key-derive_key_from_relpath [] file options file-IsPlain refl refl

-- "bytes=2-9"
abbrev wanted : Bytes
wanted = b'b' ∷ b'y' ∷ b't' ∷ b'e' ∷ b's' ∷ b'=' ∷ b'2' ∷ b'-' ∷ b'9' ∷ []

abbrev two_to_nine : ByteRange
two_to_nine = record { kind = RangeKind.closed; a = 2; b = 9 }

wanted_parsed : parse_range wanted ≡ some two_to_nine
unfolding parse_range starts_with has_byte before to_unsigned from_byte
wanted_parsed = refl

parse_range-resolve_range_example :
    ((off len : ℕ)
      → resolve_range two_to_nine 5 ≡ some (off, len)
      → (0 < len)
        × (off + len ≤ 5)
        × (((off ≤ 4) × (4 < off + len)) ↔ Covers RangeKind.closed 2 9 5 4))
    × (resolve_range two_to_nine 5 ≡ none → Covers RangeKind.closed 2 9 5 4 → ⊥)
parse_range-resolve_range_example = parse_range-resolve_range wanted two_to_nine 5 4 wanted_parsed

page_type : content_type_for (b'/' ∷ b'x' ∷ b'.' ∷ b'P' ∷ b'N' ∷ b'G' ∷ []) ≡ "image/png"
unfolding content_type_for has_byte before same
page_type = refl

-- "set k 1 0 5 noreply"
abbrev store_line : Bytes
store_line =
    b's' ∷ b'e' ∷ b't' ∷ b' ' ∷ b'k' ∷ b' ' ∷ b'1' ∷ b' ' ∷ b'0' ∷ b' ' ∷ b'5' ∷ b' ' ∷ b'n' ∷ b'o'
    ∷ b'r' ∷ b'e' ∷ b'p' ∷ b'l' ∷ b'y' ∷ []

abbrev stored : Command
stored = record {
  verb = Verb.set;
  key = b'k' ∷ [];
  flags = 1;
  exptime = 0;
  bytes = 5;
  cas = 0;
  noreply = true;
}

store_line_parsed : parse_command store_line ≡ value stored
unfolding parse_command
store_line_parsed = refl

parse_command-IsCommand_example : (ws : List Bytes) × HasWords store_line ws × IsCommand ws stored
parse_command-IsCommand_example = parse_command-IsCommand store_line stored store_line_parsed

-- "mg k v q"
abbrev meta_line : Bytes
meta_line = b'm' ∷ b'g' ∷ b' ' ∷ b'k' ∷ b' ' ∷ b'v' ∷ b' ' ∷ b'q' ∷ []

abbrev meta_get : MetaCommand
meta_get = record (plain MetaVerb.mg) { key = b'k' ∷ []; rf_value = true; quiet = true }

meta_line_parsed : parse_meta meta_line ≡ value meta_get
unfolding parse_meta
meta_line_parsed = refl

parse_meta-IsMeta_example : IsMeta meta_get
parse_meta-IsMeta_example = parse_meta-IsMeta meta_line meta_get meta_line_parsed

abbrev entry : ObjectMeta
entry = record { size = 5; flags = 0; expiry = 0; etag = 1; head = no_head }

exptime_to_expiry-is_expired_example :
    is_expired (record entry { expiry = exptime_to_expiry 10 1000 }) 1010
    ≡ (not (10 == 0) && leb (if ltb relative_max 10 then 10 else 1010) 1010)
exptime_to_expiry-is_expired_example = exptime_to_expiry-is_expired entry 10 1000 1010 (omega arith)

exptime_to_expiry_wraps_example :
    is_expired (record entry { expiry = exptime_to_expiry 6 4294967290 }) 4294967295 ≡ false
exptime_to_expiry_wraps_example =
    exptime_to_expiry_wraps entry 6 4294967290 4294967295 (omega arith) (omega arith) (omega arith)
