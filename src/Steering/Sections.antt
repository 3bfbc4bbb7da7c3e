-- ===== src/Steering/Sections.antt =====
-- The controller's locked sections as one step function (context_threshold_steering.py). The timer
-- threads, the protocol reader and the control plane may run them in any order, with any arguments.
use codex_tmux_session_manag.Common.{ℕ, String, Option, none, some, List, [], ◌∷◌}
use codex_tmux_session_manag.Common.Json.{Fields}
use codex_tmux_session_manag.Steering.{
  Attempt, Controller, Outcome, bind_root_thread, bind_primary_thread,
}
use codex_tmux_session_manag.Steering.Dispatch.{
  observe_protocol_event, observe_context_percent, reset_after_disconnect, close, start_failed,
  take_pending, retain_request, admit_dispatch, finish_dispatch, Request, Delivery,
}

pub data Section : Type 0 where
  bind_root : String → Section
  bind_primary : Option String → Option String → Section
  event : Fields → Option String → Section
  percent : String → ℕ → Option String → Section
  start_raises take : ℕ → Section
  retain : String → ℕ → Attempt → Section
  admit : Request → Section
  finish : String → ℕ → Attempt → Delivery → Section
  reset shut : Section

-- a ValueError leaves the controller as it was
abbrev pub outcome_or : Controller → Option Outcome → Controller
outcome_or c none = c
outcome_or c (some o) = o.controller

unfoldable pub apply : Section → Controller → Controller
apply (bind_root thread) c = outcome_or c (bind_root_thread thread c)
apply (bind_primary thread connection) c = (bind_primary_thread thread connection c).controller
apply (event e connection) c = (observe_protocol_event e connection c).controller
apply (percent thread p connection) c = outcome_or c (observe_context_percent thread p connection c)
apply (start_raises call) c = start_failed call c
apply (take generation) c = (take_pending generation c).0
apply (retain request generation attempt) c = (retain_request request generation attempt c).0
apply (admit request) c = (admit_dispatch request c).0
apply (finish request generation attempt delivery) c =
    (finish_dispatch request generation attempt delivery c).0
apply reset c = (reset_after_disconnect c).controller
apply shut c = (close c).controller

unfoldable pub run : List Section → Controller → Controller
unfolding apply
run [] c = c
run (s ∷ ss) c = run ss (apply s c)
