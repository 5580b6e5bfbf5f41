-- ===== src/Tests/Responses.antt =====
-- Responses (http/http_loop.cpp) at concrete inputs.
use goblin_store.Prelude.{true, false, none, some, [], ◌∷◌, ◌++◌, ◌≢◌, ◌⊎◌, ◌≡◌, ◌↔◌, refl, arith}
use goblin_store.Prelude.Bytes.{Bytes, has_byte, starts_with}
use goblin_store.Common.Types.{ByteRange, RangeKind}
use goblin_store.Storage.Index.{ObjectMeta, no_head, is_expired, create}
use goblin_store.Http.Keys.{KeyMode, KeyOptions, derive_key}
use goblin_store.Http.Request.{Method, Request}
use goblin_store.Http.Dispatch.{leave, k421, host_ok, begin_get, process_request}
use goblin_store.Http.Dispatch.Tenants.{Addressed, process_request-begin_get}
use goblin_store.Http.Response.{
  Conn, Piece, State, make_etag, inm_matches, not_modified, frame_get_hit, frame_head,
}
use goblin_store.Http.Request.Ranges.{Sane}
use goblin_store.Http.Response.Window.{
  Streams, Asked, AllSane, frame_get_hit-Streams, frame_head-frame_get_hit,
}

-- 2000 bytes, the 42nd generation.
abbrev page : ObjectMeta
page = record { size = 2000; flags = 0; expiry = 0; etag = 42; head = no_head }

-- "\"7d0-2a\""
abbrev page_tag : Bytes
page_tag = b'"' ∷ b'7' ∷ b'd' ∷ b'0' ∷ b'-' ∷ b'2' ∷ b'a' ∷ b'"' ∷ []

page_tag_made : make_etag page ≡ page_tag
unfolding make_etag
page_tag_made = refl

weak_tag_matches : inm_matches (b'W' ∷ b'/' ∷ page_tag) page_tag ≡ true
unfolding inm_matches has_byte starts_with
weak_tag_matches = refl

abbrev fresh : Conn
fresh = record {
  quit_after = false;
  state = State.get_header;
  out = [];
  req_range = none;
  inm = [];
  get_pos = 0;
  get_size = 0;
}

abbrev last_bytes : ByteRange
last_bytes = record { kind = RangeKind.closed; a = 1990; b = 5000 }

abbrev ranged : Conn
ranged = record fresh { req_range = some last_bytes }

ranged_sane : AllSane ranged.req_range
unfolding AllSane Sane
ranged_sane = (omega arith, omega arith)

frame_get_hit-Streams_example :
    Streams (frame_get_hit ranged [] page) 1995
    ↔ ((not_modified ranged (make_etag page) ≡ false) × Asked (some last_bytes) 2000 1995)
frame_get_hit-Streams_example = frame_get_hit-Streams ranged [] page 1995 ranged_sane

page_lives : is_expired page 1000 ≡ false
unfolding is_expired
page_lives = refl

frame_head-frame_get_hit_example :
    (frame_head fresh [] 1000 (some page)).out ≡ (frame_get_hit fresh [] page).out
frame_head-frame_get_hit_example = frame_head-frame_get_hit fresh [] page 1000 refl page_lives

-- GET /x of host a.
abbrev asked : Request
asked = record {
  method = Method.get;
  target = b'/' ∷ b'x' ∷ [];
  host = b'A' ∷ [];
  range = none;
  if_none_match = [];
  keep_alive = true;
  minor_version = 1;
}

abbrev by_host : KeyOptions
by_host = record {
  mode = KeyMode.vhost;
  keep_query = false;
  strip_leading_slash = false;
  index_name = [];
}

abbrev host_key : Bytes
host_key = b'a' ∷ b'/' ∷ b'x' ∷ []

asked_reads :
    (process_request fresh (b'a' ∷ []) asked by_host (create 0) 1000).1 ≡ begin_get host_key
unfolding process_request host_ok derive_key
asked_reads = refl

process_request-begin_get_example :
    ((process_request fresh (b'a' ∷ []) asked by_host (create 0) 1000).1 ≡ begin_get host_key ↔ (
      Addressed (b'a' ∷ []) (b'A' ∷ [])
      × (asked.method ≡ Method.get)
      × (derive_key (b'A' ∷ []) (b'/' ∷ b'x' ∷ []) by_host ≡ some host_key)))
    × (((process_request fresh (b'a' ∷ []) asked by_host (create 0) 1000).0.req_range ≡ none)
        ⊎ ((process_request fresh (b'a' ∷ []) asked by_host (create 0) 1000).1
            ≢ begin_get host_key))
    × (Addressed (b'a' ∷ []) (b'A' ∷ [])
        ⊎ (((process_request fresh (b'a' ∷ []) asked by_host (create 0) 1000).1 ≡ leave)
            × ((process_request fresh (b'a' ∷ []) asked by_host (create 0) 1000).0.out
                ≡ fresh.out ++ Piece.text k421 ∷ [])
            × ((process_request fresh (b'a' ∷ []) asked by_host (create 0) 1000).0.quit_after
                ≡ true)))
process_request-begin_get_example =
    process_request-begin_get fresh (b'a' ∷ []) asked by_host (create 0) 1000 host_key
