-- ===== src/Http/Response.antt =====
-- src/goblin/http/http_loop.cpp: the responses that are framed for GET and HEAD. What is appended to
-- `out` is a list of its pieces, so that no text is built before it is sent.
pub mod Window
use Prim.Native.String.{String}
use goblin_store.Prelude.{
  ℕ, zero, suc, ◌+◌, ◌-◌, ◌/◌, ◌%◌, Bool, true, false, not, ◌&&◌, ◌||◌, ltb, if◌then◌else◌, Option,
  none, some, List, [], ◌∷◌, ◌++◌,
}
use goblin_store.Prelude.Bytes.{Bytes, has_byte, starts_with}
use goblin_store.Common.Types.{ByteRange}
use goblin_store.Common.Config.{is_empty}
use goblin_store.Http.Request.{resolve_range, content_type_for, unknown_type}
use goblin_store.Memcache.Commands.{print_decimal}
use goblin_store.Storage.Index.{ObjectMeta, is_expired}

-- `std::format` of an unsigned number in base 16.
unfoldable pub hex_digit : ℕ → ℕ
hex_digit n = if ltb n 10 then 48 + n else 87 + n

unfoldable pub hex_digits : ℕ → ℕ → Bytes
hex_digits zero n = []
hex_digits (suc fuel) n =
    let rest = hex_digits fuel (n / 16) in
    if ltb n 16 then hex_digit n ∷ [] else rest ++ hex_digit (n % 16) ∷ []

unfoldable pub make_etag : ObjectMeta → Bytes
unfolding hex_digits hex_digit
make_etag m =
    b'"' ∷ (hex_digits (suc m.size) m.size ++ b'-' ∷ (hex_digits (suc m.etag) m.etag ++ b'"' ∷ []))

-- `header.find(tag) != npos`.
unfoldable pub contains : Bytes → Bytes → Bool
contains tag [] = starts_with tag []
contains tag (b ∷ bs) = starts_with tag (b ∷ bs) || contains tag bs

unfoldable pub inm_matches : Bytes → Bytes → Bool
unfolding contains
inm_matches header quoted_etag = has_byte b'*' header || contains quoted_etag header

pub data Piece : Type 0 where
  text : String → Piece
  raw : Bytes → Piece

pub data State : Type 0 where
  idle set_body set_wait get_wait get_header get_send_head get_stream get_trailer : State

-- The fields of a connection that the responses read and write.
pub record Conn : Type 0 where
  pub quit_after : Bool
  pub state : State
  pub out : List Piece
  pub req_range : Option ByteRange
  pub inm : Bytes
  pub get_pos : ℕ
  pub get_size : ℕ

unfoldable pub connection : Bool → Piece
connection true = text "Connection: keep-alive\r\n\r\n"
connection false = text "Connection: close\r\n\r\n"

unfoldable pub append_head : List Piece → String → ℕ → Bool → String → Bytes → List Piece
append_head out status content_length keep_alive content_type etag =
    out
    ++ (text "HTTP/1.1 "
        ∷ text status
        ∷ text "\r\nContent-Length: "
        ∷ raw (print_decimal content_length)
        ∷ text "\r\n"
        ∷ [])
    ++ (if ltb 0 content_length
        then text "Content-Type: " ∷ text content_type ∷ text "\r\nAccept-Ranges: bytes\r\n" ∷ []
        else [])
    ++ (if is_empty etag then [] else text "ETag: " ∷ raw etag ∷ text "\r\n" ∷ [])
    ++ connection keep_alive ∷ []

unfoldable pub not_modified : Conn → Bytes → Bool
not_modified c etag = not (is_empty c.inm) && inm_matches c.inm etag

unfoldable pub append_not_modified : Conn → Bytes → List Piece
append_not_modified c etag =
    c.out
    ++ text "HTTP/1.1 304 Not Modified\r\nETag: "
      ∷ raw etag
      ∷ text "\r\n"
      ∷ connection (not c.quit_after)
      ∷ []

unfoldable pub frame_resolved : Conn → String → Bytes → ℕ → Option (ℕ × ℕ) → Conn
frame_resolved c ct etag size none = record c {
  get_pos = 0;
  get_size = 0;
  out =
      c.out
      ++ text "HTTP/1.1 416 Range Not Satisfiable\r\nContent-Range: bytes */"
        ∷ raw (print_decimal size)
        ∷ text "\r\nContent-Length: 0\r\n"
        ∷ connection (not c.quit_after)
        ∷ [];
}
frame_resolved c ct etag size (some (off, len)) = record c {
  get_pos = off;
  get_size = off + len;
  out =
      c.out
      ++ text "HTTP/1.1 206 Partial Content\r\nContent-Range: bytes "
        ∷ raw (print_decimal off)
        ∷ text "-"
        ∷ raw (print_decimal (off + len - 1))
        ∷ text "/"
        ∷ raw (print_decimal size)
        ∷ text "\r\nContent-Length: "
        ∷ raw (print_decimal len)
        ∷ text "\r\nContent-Type: "
        ∷ text ct
        ∷ text "\r\nETag: "
        ∷ raw etag
        ∷ text "\r\n"
        ∷ connection (not c.quit_after)
        ∷ [];
}

unfoldable pub frame_range : Conn → String → Bytes → ℕ → Option ByteRange → Conn
unfolding frame_resolved
frame_range c ct etag size none = record c {
  get_pos = 0;
  get_size = size;
  out = append_head c.out "200 OK" size (not c.quit_after) ct etag;
}
frame_range c ct etag size (some r) = frame_resolved c ct etag size (resolve_range r size)

unfoldable pub frame_get_hit : Conn → Bytes → ObjectMeta → Conn
frame_get_hit c key meta =
    let etag = make_etag meta in
    if not_modified c etag
    then record c { get_pos = 0; get_size = 0; out = append_not_modified c etag }
    else frame_range c (content_type_for key) etag meta.size c.req_range

unfoldable pub frame_get_miss : Conn → Conn
frame_get_miss c = record c {
  out = append_head c.out "404 Not Found" 0 (not c.quit_after) unknown_type [];
  state = State.idle;
}

-- The branch of HEAD, of what the lookup of its key gives.
unfoldable pub frame_head : Conn → Bytes → ℕ → Option ObjectMeta → Conn
frame_head c key now none = record c {
  out = append_head c.out "404 Not Found" 0 (not c.quit_after) unknown_type [];
}
frame_head c key now (some meta) =
    let etag = make_etag meta in
    record c {
      out =
          if is_expired meta now
          then append_head c.out "404 Not Found" 0 (not c.quit_after) unknown_type []
          else if not_modified c etag
          then append_not_modified c etag
          else append_head c.out "200 OK" meta.size (not c.quit_after) (content_type_for key) etag;
    }
