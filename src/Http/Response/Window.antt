-- ===== src/Http/Response/Window.antt =====
-- Responses (http/http_loop.cpp): the part of an object that a GET streams, and HEAD beside GET.
use Prim.Native.String.{String}
use goblin_store.Prelude.{
  ℕ, ◌≤◌, ◌<◌, false, Option, none, some, ◌≡◌, ◌↔◌, refl, arith, Bool-cases, Option-cases, inl, inr,
}
use goblin_store.Prelude.Bytes.{Bytes}
use goblin_store.Common.Types.{ByteRange}
use goblin_store.Http.Request.{resolve_range, content_type_for}
use goblin_store.Http.Request.Ranges.{Covers, Sane, resolve_kind-Covers, resolve_kind-none}
use goblin_store.Http.Response.{
  Conn, make_etag, not_modified, frame_resolved, frame_range, frame_get_hit, frame_head,
}
use goblin_store.Storage.Index.{ObjectMeta, is_expired}

-- The byte is in the part that the connection streams.
abbrev pub Streams : Conn → ℕ → Type 0
Streams c x = (c.get_pos ≤ x) × (x < c.get_size)

-- The request asks for the byte of an object of the size.
unfoldable pub Asked : Option ByteRange → ℕ → ℕ → Type 0
Asked none size x = x < size
Asked (some r) size x = Covers r.kind r.a r.b size x

-- The range of a request, if it has one, is one that `parse_range` gives.
unfoldable pub AllSane : Option ByteRange → Type 0
AllSane none = Unit
AllSane (some r) = Sane r.kind r.a r.b

frame_resolved-Streams :
    (c : Conn) (ct : String) (etag : Bytes) (r : ByteRange) (size x : ℕ)
    → Sane r.kind r.a r.b
    → Streams (frame_resolved c ct etag size (resolve_range r size)) x
      ↔ Covers r.kind r.a r.b size x
unfolding frame_resolved resolve_range
frame_resolved-Streams c ct etag r size x sane = elim (Option-cases (resolve_range r size)) [
  | inl unmet ↦
      let never = resolve_kind-none r.kind r.a r.b size x unmet in
      rw (unmet) (λ h. absurd (ground arith), λ asked. absurd (never asked))
  | inr ((off, len), met) ↦
      rw (met) ((resolve_kind-Covers r.kind r.a r.b size off len x sane met).2)
]

frame_range-Streams :
    (c : Conn) (ct : String) (etag : Bytes) (o : Option ByteRange) (size x : ℕ)
    → AllSane o
    → Streams (frame_range c ct etag size o) x ↔ Asked o size x
unfolding frame_range AllSane Asked
frame_range-Streams c ct etag none size x sane = ground arith
frame_range-Streams c ct etag (some r) size x sane = frame_resolved-Streams c ct etag r size x sane

-- A GET of an object that is stored, on a connection whose range, if any, is well formed: a byte is
-- in the part that is streamed exactly when the client's tag is not the current one and the byte is in
-- the object and asked for; so a 304 and a 416 stream nothing, and no other byte is ever streamed.
pub frame_get_hit-Streams :
    (c : Conn) (key : Bytes) (meta : ObjectMeta) (x : ℕ)
    → AllSane c.req_range
    → Streams (frame_get_hit c key meta) x
      ↔ ((not_modified c (make_etag meta) ≡ false) × Asked c.req_range meta.size x)
unfolding frame_get_hit
frame_get_hit-Streams c key meta x sane =
    let etag = make_etag meta in
    let asked = frame_range-Streams c (content_type_for key) etag c.req_range meta.size x sane in
    elim (Bool-cases (not_modified c etag)) [
      | inl same_tag ↦ rw (same_tag) (λ h. absurd (ground arith), λ h. absurd (ground arith))
      | inr other_tag ↦ rw (other_tag) (λ h. (refl, (asked.0) h), λ h. (asked.1) (h.1))
    ]

-- HEAD and GET of the same key with no range, its object stored and not expired: HEAD appends the same
-- bytes as GET sends before the body, whether the answer is 200 or 304.
pub frame_head-frame_get_hit :
    (c : Conn) (key : Bytes) (meta : ObjectMeta) (now : ℕ)
    → c.req_range ≡ none
    → is_expired meta now ≡ false
    → (frame_head c key now (some meta)).out ≡ (frame_get_hit c key meta).out
unfolding frame_head frame_get_hit frame_range
frame_head-frame_get_hit c key meta now no_range live =
    elim (Bool-cases (not_modified c (make_etag meta))) [
      | inl same_tag ↦ rw (live, same_tag) refl
      | inr other_tag ↦ rw (live, other_tag, no_range) refl
    ]
