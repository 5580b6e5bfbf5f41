-- ===== src/Http/Request.antt =====
-- src/goblin/http/request.hpp and request.cpp: ranges, content types, and what a parsed request head
-- gives. What picohttpparser answers is an argument of `parse_request`.
pub mod Ranges
use Prim.Native.String.{String}
use goblin_store.Prelude.{
  ℕ, zero, suc, ◌+◌, ◌-◌, ◌≤◌, min, Bool, true, false, not, ◌&&◌, ◌||◌, ◌==◌, leb, ltb,
  if◌then◌else◌, Option, none, some, List, [], ◌∷◌, ◌++◌, map, drop, length,
}
use goblin_store.Prelude.Bytes.{
  Bytes, same, has_byte, before, from_byte, trim_front, trim_end, starts_with, to_unsigned,
}
use goblin_store.Common.Types.{ByteRange, RangeKind}
use goblin_store.Common.Config.{is_empty}

pub data Method : Type 0 where
  get head other : Method

unfoldable pub lower : ℕ → ℕ
lower c = if leb b'A' c && leb c b'Z' then c - b'A' + b'a' else c

unfoldable pub iequals : Bytes → Bytes → Bool
unfolding lower
iequals [] [] = true
iequals [] (b ∷ bs) = false
iequals (a ∷ xs) [] = false
iequals (a ∷ xs) (b ∷ bs) = lower a == lower b && iequals xs bs

abbrev pub is_blank : ℕ → Bool
is_blank c = c == b' ' || c == 9

unfoldable pub trim : Bytes → Bytes
unfolding trim_front trim_end
trim s = trim_end is_blank (trim_front is_blank s)

unfoldable pub method_of : Bytes → Method
unfolding same
method_of m =
    if same m (b'G' ∷ b'E' ∷ b'T' ∷ [])
    then Method.get
    else if same m (b'H' ∷ b'E' ∷ b'A' ∷ b'D' ∷ [])
    then Method.head
    else Method.other

abbrev pub unit_name : Bytes
unit_name = b'b' ∷ b'y' ∷ b't' ∷ b'e' ∷ b's' ∷ b'=' ∷ []

abbrev pub range : RangeKind → ℕ → ℕ → ByteRange
range kind a b = record { kind = kind; a = a; b = b }

unfoldable pub suffix_range : Option ℕ → Option ByteRange
suffix_range none = none
suffix_range (some n) = if n == 0 then none else some (range RangeKind.suffix n 0)

unfoldable pub closed_range : ℕ → Option ℕ → Option ByteRange
closed_range a none = none
closed_range a (some b) = if ltb b a then none else some (range RangeKind.closed a b)

unfoldable pub range_from : Option ℕ → Bytes → Option ByteRange
unfolding closed_range
range_from none hi = none
range_from (some a) hi =
    if is_empty hi then some (range RangeKind.from a 0) else closed_range a (to_unsigned 64 hi)

-- The part after the unit.
unfoldable pub range_of : Bytes → Option ByteRange
unfolding trim suffix_range range_from
range_of spec =
    let lo = trim (before b'-' spec) in
    let hi = trim (drop 1 (from_byte b'-' spec)) in
    if has_byte b',' spec || not (has_byte b'-' spec)
    then none
    else if is_empty lo
    then suffix_range (to_unsigned 64 hi)
    else range_from (to_unsigned 64 lo) hi

unfoldable pub parse_range : Bytes → Option ByteRange
unfolding trim range_of
parse_range value =
    let v = trim value in if starts_with unit_name v then range_of (drop 6 v) else none

-- The offset and the length; none is unsatisfiable. The subtractions are reached only where they do
-- not wrap.
unfoldable pub resolve_kind : RangeKind → ℕ → ℕ → ℕ → Option (ℕ × ℕ)
resolve_kind RangeKind.closed a b size =
    if leb size a then none else some (a, min b (size - 1) - a + 1)
resolve_kind RangeKind.from a b size = if leb size a then none else some (a, size - a)
resolve_kind RangeKind.suffix a b size =
    if size == 0 then none else let n = min a size in some (size - n, n)

unfoldable pub resolve_range : ByteRange → ℕ → Option (ℕ × ℕ)
unfolding resolve_kind
resolve_range r size = resolve_kind r.kind r.a r.b size

-- What follows the last such byte.
unfoldable pub after_last : ℕ → Bytes → Bytes
after_last c [] = []
after_last c (b ∷ bs) =
    let rest = after_last c bs in if has_byte c bs then rest else if b == c then bs else b ∷ bs

abbrev pub unknown_type : String
unknown_type = "application/octet-stream"

abbrev types : List (Bytes × String)
types =
    (b'h' ∷ b't' ∷ b'm' ∷ b'l' ∷ [], "text/html; charset=utf-8")
    ∷ (b'h' ∷ b't' ∷ b'm' ∷ [], "text/html; charset=utf-8")
    ∷ (b'c' ∷ b's' ∷ b's' ∷ [], "text/css; charset=utf-8")
    ∷ (b'j' ∷ b's' ∷ [], "text/javascript; charset=utf-8")
    ∷ (b'm' ∷ b'j' ∷ b's' ∷ [], "text/javascript; charset=utf-8")
    ∷ (b'j' ∷ b's' ∷ b'o' ∷ b'n' ∷ [], "application/json; charset=utf-8")
    ∷ (b'm' ∷ b'a' ∷ b'p' ∷ [], "application/json; charset=utf-8")
    ∷ (b'x' ∷ b'm' ∷ b'l' ∷ [], "application/xml; charset=utf-8")
    ∷ (b't' ∷ b'x' ∷ b't' ∷ [], "text/plain; charset=utf-8")
    ∷ (b'c' ∷ b's' ∷ b'v' ∷ [], "text/csv; charset=utf-8")
    ∷ (b'm' ∷ b'd' ∷ [], "text/markdown; charset=utf-8")
    ∷ (b's' ∷ b'v' ∷ b'g' ∷ [], "image/svg+xml; charset=utf-8")
    ∷ (b'p' ∷ b'n' ∷ b'g' ∷ [], "image/png")
    ∷ (b'j' ∷ b'p' ∷ b'g' ∷ [], "image/jpeg")
    ∷ (b'j' ∷ b'p' ∷ b'e' ∷ b'g' ∷ [], "image/jpeg")
    ∷ (b'g' ∷ b'i' ∷ b'f' ∷ [], "image/gif")
    ∷ (b'w' ∷ b'e' ∷ b'b' ∷ b'p' ∷ [], "image/webp")
    ∷ (b'a' ∷ b'v' ∷ b'i' ∷ b'f' ∷ [], "image/avif")
    ∷ (b'i' ∷ b'c' ∷ b'o' ∷ [], "image/x-icon")
    ∷ (b'b' ∷ b'm' ∷ b'p' ∷ [], "image/bmp")
    ∷ (b'w' ∷ b'o' ∷ b'f' ∷ b'f' ∷ [], "font/woff")
    ∷ (b'w' ∷ b'o' ∷ b'f' ∷ b'f' ∷ b'2' ∷ [], "font/woff2")
    ∷ (b't' ∷ b't' ∷ b'f' ∷ [], "font/ttf")
    ∷ (b'o' ∷ b't' ∷ b'f' ∷ [], "font/otf")
    ∷ (b'e' ∷ b'o' ∷ b't' ∷ [], "application/vnd.ms-fontobject")
    ∷ (b'w' ∷ b'a' ∷ b's' ∷ b'm' ∷ [], "application/wasm")
    ∷ (b'p' ∷ b'd' ∷ b'f' ∷ [], "application/pdf")
    ∷ (b'z' ∷ b'i' ∷ b'p' ∷ [], "application/zip")
    ∷ (b'g' ∷ b'z' ∷ [], "application/gzip")
    ∷ (b'm' ∷ b'p' ∷ b'4' ∷ [], "video/mp4")
    ∷ (b'w' ∷ b'e' ∷ b'b' ∷ b'm' ∷ [], "video/webm")
    ∷ (b'o' ∷ b'g' ∷ b'g' ∷ [], "audio/ogg")
    ∷ (b'm' ∷ b'p' ∷ b'3' ∷ [], "audio/mpeg")
    ∷ (b'w' ∷ b'a' ∷ b'v' ∷ [], "audio/wav")
    ∷ (b'i' ∷ b'c' ∷ b's' ∷ [], "text/calendar; charset=utf-8")
    ∷ []

unfoldable pub type_in : List (Bytes × String) → Bytes → String
type_in [] ext = unknown_type
type_in ((e, t) ∷ ts) ext = let rest = type_in ts ext in if same e ext then t else rest

-- The extension of a name that has a dot, not first and not last.
unfoldable pub type_of_name : Bytes → String
unfolding after_last type_in lower
type_of_name name =
    let ext = after_last b'.' name in
    if not (has_byte b'.' name) || (length ext + 1 == length name || is_empty ext)
    then unknown_type
    else if ltb 8 (length ext)
    then unknown_type
    else type_in types (map lower ext)

unfoldable pub content_type_for : Bytes → String
unfolding after_last type_of_name
content_type_for key = type_of_name (after_last b'/' (before b'?' key))

pub record Request : Type 0 where
  pub method : Method
  pub target : Bytes
  pub host : Bytes
  pub range : Option ByteRange
  pub if_none_match : Bytes
  pub keep_alive : Bool
  pub minor_version : ℕ

pub data ParseResult : Type 0 where
  parsed : ℕ → Request → ParseResult
  partial_head bad : ParseResult

-- What `phr_parse_request` answers: -2, another negative number, or the length and the parts of the
-- head, its headers by name and value.
pub data PhrAnswer : Type 0 where
  incomplete malformed : PhrAnswer
  complete : ℕ → Bytes → Bytes → ℕ → List (Bytes × Bytes) → PhrAnswer

abbrev host_name : Bytes
host_name = b'h' ∷ b'o' ∷ b's' ∷ b't' ∷ []

abbrev range_name : Bytes
range_name = b'r' ∷ b'a' ∷ b'n' ∷ b'g' ∷ b'e' ∷ []

abbrev match_name : Bytes
match_name =
    b'i' ∷ b'f' ∷ b'-' ∷ b'n' ∷ b'o' ∷ b'n' ∷ b'e' ∷ b'-' ∷ b'm' ∷ b'a' ∷ b't' ∷ b'c' ∷ b'h' ∷ []

abbrev connection_name : Bytes
connection_name = b'c' ∷ b'o' ∷ b'n' ∷ b'n' ∷ b'e' ∷ b'c' ∷ b't' ∷ b'i' ∷ b'o' ∷ b'n' ∷ []

abbrev close_name : Bytes
close_name = b'c' ∷ b'l' ∷ b'o' ∷ b's' ∷ b'e' ∷ []

unfoldable pub read_header : Request → Bytes → Bytes → Request
unfolding iequals trim parse_range
read_header req name value =
    if iequals name host_name
    then record req { host = trim value }
    else if iequals name range_name
    then record req { range = parse_range value }
    else if iequals name match_name
    then record req { if_none_match = trim value }
    else if iequals name connection_name
    then record req { keep_alive = not (iequals (trim value) close_name) }
    else req

unfoldable pub read_headers : Request → List (Bytes × Bytes) → Request
unfolding read_header
read_headers req [] = req
read_headers req ((name, value) ∷ hs) = read_headers (read_header req name value) hs

unfoldable pub parse_request : PhrAnswer → ParseResult
unfolding method_of read_headers
parse_request incomplete = partial_head
parse_request malformed = bad
parse_request (complete rc method path minor headers) =
    let req : Request = record {
      method = method_of method;
      target = path;
      host = [];
      range = none;
      if_none_match = [];
      keep_alive = leb 1 minor;
      minor_version = minor;
    } in
    parsed rc (read_headers req headers)
