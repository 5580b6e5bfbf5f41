-- ===== src/Memcache/Server/Rounds.antt =====
-- src/goblin/protocol/memcache/server.cpp, `handle_conn`: one round of its loop.
use goblin_store.Prelude.{ℕ, ◌+◌, if◌then◌else◌, none, some, List, take, drop}
use goblin_store.Prelude.Bytes.{Bytes}
use goblin_store.Common.Errors.{value, error}
use goblin_store.Memcache.Commands.{is_storage, parse_command}
use goblin_store.Storage.TierManager.{TierManager}
use goblin_store.Memcache.Server.{k_error, Conn, send_all, Times, Flow, read_line, closes}
use goblin_store.Memcache.Server.Storing.{store_command}
use goblin_store.Memcache.Server.Replies.{reply_command, after_reply}

-- One round of `handle_conn`, with the line up to `eol`.
unfoldable pub run_line :
    List (TierManager → TierManager) → TierManager → Conn → Bytes → ℕ → Times → Flow
unfolding store_command reply_command after_reply send_all
run_line others tm c chunk eol t =
    let rest = drop (eol + 2) c.buf in
    elim (parse_command (take eol c.buf)) [
      | error e ↦ let (c', ok) = send_all c k_error in after_reply (tm, c', ok) rest
      | value cmd ↦
          if is_storage cmd.verb
          then store_command others tm (record c { buf = rest }) cmd t
          else after_reply (reply_command tm c chunk cmd t) rest
    ]

unfoldable pub handle_command :
    List (TierManager → TierManager) → TierManager → Conn → Bytes → Times → Flow
unfolding read_line run_line
handle_command others tm c chunk t = elim (read_line c.input c.buf) [
  | none ↦ closes tm c
  | some (eol, buf, input) ↦ run_line others tm (record c { buf = buf; input = input }) chunk eol t
]
