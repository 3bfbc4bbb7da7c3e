-- ===== src/Recovery/Snapshot.antt =====
-- What the controller shows of itself (server_overloaded_recovery.py).
use codex_tmux_session_manag.Common.{ℕ, String, Option, none, some}
use codex_tmux_session_manag.Recovery.{Attempt, Controller}

pub record Snapshot : Type 0 where
  pub root_thread_id : Option String
  pub server_overloaded_count : ℕ
  pub last_server_overloaded_at_utc : Option String
  pub pending_delay_seconds : Option ℕ
  pub pending_failed_turn_id : Option String

abbrev delay_of : Option Attempt → Option ℕ
delay_of none = none
delay_of (some a) = some a.delay_seconds

abbrev failed_turn_of : Option Attempt → Option String
failed_turn_of none = none
failed_turn_of (some a) = some a.failed_turn_id

unfoldable pub snapshot : Controller → Snapshot
snapshot c = record {
  root_thread_id = c.root_thread_id;
  server_overloaded_count = c.server_overloaded_count;
  last_server_overloaded_at_utc = c.last_server_overloaded_at_utc;
  pending_delay_seconds = delay_of c.pending_attempt;
  pending_failed_turn_id = failed_turn_of c.pending_attempt;
}
