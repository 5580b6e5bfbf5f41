-- ===== src/Memcache/Server.antt =====
-- src/goblin/protocol/memcache/server.cpp, the blocking server: one connection, `handle_conn` and
-- `stream_value`. The peer is the list `input` of what each `recv` gives, where the end of the list or an
-- empty piece is the end of the stream, and the list `sends` of whether each `send_all` succeeds; `out`
-- has what was sent. The buffer of a worker is free, since it serves one connection at a time. Each
-- reading of the clock is in `Times`. What other workers do to the manager between two attempts to
-- begin a store is a list of functions.
pub mod Values
pub mod Hears
pub mod Storing
pub mod Replies
pub mod Rounds
pub mod Framing
pub mod Requests
use goblin_store.Prelude.{
  ℕ, zero, suc, ◌+◌, ◌-◌, min, Bool, true, false, not, ◌&&◌, ◌||◌, ◌==◌, leb, ltb, if◌then◌else◌,
  Option, none, some, List, [], ◌∷◌, ◌++◌, length, get_or, take, drop, is_some,
}
use goblin_store.Prelude.Bytes.{Bytes}
use goblin_store.Common.Config.{is_empty}
use goblin_store.Common.Errors.{
  Errc, Error, Result, Status, value, error, would_block, cas_mismatch,
}
use goblin_store.Crypto.Digest.{Digest}
use goblin_store.Crypto.Sha256.{hash_key}
use goblin_store.Memcache.Commands.{
  Verb, Command, is_storage, parse_command, value_header, value_header_cas,
}
use goblin_store.Memcache.Expiry.{exptime_to_expiry}
use goblin_store.Storage.Index.{ObjectMeta, lookup, is_expired}
use goblin_store.Storage.TierManager.{TierManager, touch, remove}
use goblin_store.Storage.TierManager.Commit.{commit}
use goblin_store.Storage.TierManager.Handles.{Outcome, abort_uncommitted, write}
use goblin_store.Storage.TierManager.Reading.{read}
use goblin_store.Storage.TierManager.Writes.{StoreHandle, begin_store}

abbrev pub line_end : Bytes
line_end = 13 ∷ 10 ∷ []

abbrev pub k_stored : Bytes
k_stored = b'S' ∷ b'T' ∷ b'O' ∷ b'R' ∷ b'E' ∷ b'D' ∷ line_end

abbrev pub k_not_stored : Bytes
k_not_stored = b'N' ∷ b'O' ∷ b'T' ∷ b'_' ∷ k_stored

abbrev pub k_exists : Bytes
k_exists = b'E' ∷ b'X' ∷ b'I' ∷ b'S' ∷ b'T' ∷ b'S' ∷ line_end

abbrev pub k_deleted : Bytes
k_deleted = b'D' ∷ b'E' ∷ b'L' ∷ b'E' ∷ b'T' ∷ b'E' ∷ b'D' ∷ line_end

abbrev pub k_not_found : Bytes
k_not_found = b'N' ∷ b'O' ∷ b'T' ∷ b'_' ∷ b'F' ∷ b'O' ∷ b'U' ∷ b'N' ∷ b'D' ∷ line_end

abbrev pub k_end : Bytes
k_end = b'E' ∷ b'N' ∷ b'D' ∷ line_end

abbrev pub k_error : Bytes
k_error = b'E' ∷ b'R' ∷ b'R' ∷ b'O' ∷ b'R' ∷ line_end

-- "CLIENT_ERROR bad data chunk"
abbrev pub k_bad_data_chunk : Bytes
k_bad_data_chunk =
    b'C' ∷ b'L' ∷ b'I' ∷ b'E' ∷ b'N' ∷ b'T' ∷ b'_' ∷ b'E' ∷ b'R' ∷ b'R' ∷ b'O' ∷ b'R' ∷ b' ' ∷ b'b'
    ∷ b'a' ∷ b'd' ∷ b' ' ∷ b'd' ∷ b'a' ∷ b't' ∷ b'a' ∷ b' ' ∷ b'c' ∷ b'h' ∷ b'u' ∷ b'n' ∷ b'k'
    ∷ line_end

-- "VERSION goblin-store 0.0.1"
abbrev pub k_version : Bytes
k_version =
    b'V' ∷ b'E' ∷ b'R' ∷ b'S' ∷ b'I' ∷ b'O' ∷ b'N' ∷ b' ' ∷ b'g' ∷ b'o' ∷ b'b' ∷ b'l' ∷ b'i' ∷ b'n'
    ∷ b'-' ∷ b's' ∷ b't' ∷ b'o' ∷ b'r' ∷ b'e' ∷ b' ' ∷ b'0' ∷ b'.' ∷ b'0' ∷ b'.' ∷ b'1' ∷ line_end

pub record Conn : Type 0 where
  pub buf : Bytes
  pub input : List Bytes
  pub sends : List Bool
  pub out : Bytes

unfoldable pub send_all : Conn → Bytes → Conn × Bool
send_all c bytes = elim (c.sends) [
  | [] ↦ (c, false)
  | true ∷ rest ↦ (record c { sends = rest; out = c.out ++ bytes }, true)
  | false ∷ rest ↦ (record c { sends = rest }, false)
]

pub record Times : Type 0 where
  pub arrives : ℕ
  pub stores : ℕ
  pub commits : ℕ

-- What a command leaves: the next one is read, the connection ends, or the worker still waits for a
-- staging buffer.
pub data Flow : Type 0 where
  goes closes waits : TierManager → Conn → Flow

-- `find("\r\n")`
unfoldable pub find_eol : Bytes → Option ℕ
find_eol [] = none
find_eol (a ∷ []) = none
find_eol (a ∷ b ∷ bs) =
    let later : Option ℕ = elim (find_eol (b ∷ bs)) [ none ↦ none | some n ↦ some (n + 1) ] in
    if a == 13 && (b == 10) then some 0 else later

-- The end of the line, with what is buffered and what is to come.
unfoldable pub read_line : List Bytes → Bytes → Option (ℕ × Bytes × List Bytes)
unfolding find_eol
read_line [] buf = elim (find_eol buf) [ none ↦ none | some n ↦ some (n, buf, []) ]
read_line (c ∷ cs) buf =
    let more = read_line cs (buf ++ c) in
    elim (find_eol buf) [
      | none ↦ if is_empty c then none else more
      | some n ↦ some (n, buf, c ∷ cs)
    ]
