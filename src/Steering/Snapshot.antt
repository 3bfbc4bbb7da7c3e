-- ===== src/Steering/Snapshot.antt =====
-- What the controller shows of itself (context_threshold_steering.py).
use codex_tmux_session_manag.Common.{ℕ, String, Bool, not, Option, none, some}
use codex_tmux_session_manag.Steering.{Attempt, Controller, is_empty}

pub record Snapshot : Type 0 where
  pub root_thread_id : Option String
  pub dispatch_ready : Bool
  pub active_turn_id : Option String
  pub context_percent : Option ℕ
  pub threshold_armed : Bool
  pub compacting : Bool
  pub pending_turn_id : Option String
  pub last_completed_dispatch_id : Option String

abbrev turn_of : Option Attempt → Option String
turn_of none = none
turn_of (some a) = some a.turn_id

unfoldable pub snapshot : Controller → Snapshot
snapshot c = record {
  root_thread_id = c.root_thread_id;
  dispatch_ready = c.dispatch_ready;
  active_turn_id = c.active_turn_id;
  context_percent = c.context_percent;
  threshold_armed = c.threshold_armed;
  compacting = not (is_empty c.active_compaction_item_ids);
  pending_turn_id = turn_of c.pending_attempt;
  last_completed_dispatch_id = c.last_completed_dispatch_id;
}
