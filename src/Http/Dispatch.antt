-- ===== src/Http/Dispatch.antt =====
-- src/goblin/http/http_loop.cpp: one round of `HttpLoop::process` on a connection that is idle, up to
-- the call of `begin_get`. What `parse_request` gives is an argument, so the input buffer is not kept.
pub mod Tenants
use Prim.Native.String.{String}
use goblin_store.Prelude.{
  ℕ, Bool, true, false, not, ◌||◌, if◌then◌else◌, Option, none, some, [], ◌∷◌, ◌++◌,
}
use goblin_store.Prelude.Bytes.{Bytes, same}
use goblin_store.Common.Types.{ByteRange}
use goblin_store.Common.Config.{is_empty}
use goblin_store.Http.Keys.{KeyOptions, derive_key, normalize_host}
use goblin_store.Http.Request.{Method, Request, ParseResult, parsed, partial_head, bad}
use goblin_store.Http.Response.{Piece, Conn, frame_head}
use goblin_store.Storage.Index.{Index, lookup}
use goblin_store.Crypto.Sha256.{hash_key}

abbrev pub k400 : String
k400 = "HTTP/1.1 400 Bad Request\r\nContent-Length: 0\r\nConnection: close\r\n\r\n"

abbrev pub k405 : String
k405 =
    "HTTP/1.1 405 Method Not Allowed\r\nContent-Length: 0\r\nAllow: GET, HEAD\r\nConnection: close\r\n\r\n"

abbrev pub k421 : String
k421 = "HTTP/1.1 421 Misdirected Request\r\nContent-Length: 0\r\nConnection: close\r\n\r\n"

-- How the round ends: it leaves the loop, goes on to the next request, or calls `begin_get`.
pub data Next : Type 0 where
  leave again : Next
  begin_get : Bytes → Next

-- `c->out += answer; c->quit_after = true; break;`
unfoldable pub refuse : Conn → String → Conn × Next
refuse c answer = (record c { out = c.out ++ Piece.text answer ∷ []; quit_after = true }, leave)

unfoldable pub dispatch : Conn → Method → Option ByteRange → Option Bytes → Index → ℕ → Conn × Next
unfolding refuse
dispatch c Method.get range none ix now = refuse c k400
dispatch c Method.get range (some key) ix now = (record c { req_range = range }, begin_get key)
dispatch c Method.head range none ix now = refuse c k400
dispatch c Method.head range (some key) ix now =
    (frame_head c key now (lookup ix (hash_key key)), again)
dispatch c Method.other range key ix now = refuse c k405

unfoldable pub host_ok : Bytes → Bytes → Bool
host_ok sni host = is_empty sni || same (normalize_host host) sni

unfoldable pub process_request : Conn → Bytes → Request → KeyOptions → Index → ℕ → Conn × Next
unfolding refuse dispatch
process_request c sni req opt ix now =
    let c1 = record c { quit_after = not req.keep_alive; inm = req.if_none_match } in
    if host_ok sni req.host
    then dispatch c1 req.method req.range (derive_key req.host req.target opt) ix now
    else refuse c1 k421

unfoldable pub process : Conn → Bytes → ParseResult → KeyOptions → Index → ℕ → Conn × Next
unfolding refuse process_request
process c sni partial_head opt ix now = (c, leave)
process c sni bad opt ix now = refuse c k400
process c sni (parsed consumed req) opt ix now = process_request c sni req opt ix now
