-- ===== src/Steering/Examples.antt =====
-- The steering controller at concrete inputs (context_threshold_steering.py): the percentages are
-- small numbers here, and the threshold is 70.
use codex_tmux_session_manag.Common.{◌≡◌, ◌≢◌, refl, true, none, some, List, [], ◌∷◌, ◌++◌}
use codex_tmux_session_manag.Common.Dict.{lookup, member}
use codex_tmux_session_manag.Common.Decimal.{decimal}
use codex_tmux_session_manag.Common.Json.{Fields, str, obj, end, field, get}
use codex_tmux_session_manag.Steering.{
  Attempt, Controller, init, schedule_if_ready, observe_notice, dispatch_id_of, bind_root_thread,
  bind_primary_thread,
}
use codex_tmux_session_manag.Steering.Dispatch.{
  Request, admit_dispatch, admitted, context_steer_source, current, matches, observe_protocol_event,
  observe_context_percent, take_pending, retain_request, reset_after_disconnect,
}
use codex_tmux_session_manag.Steering.Sections.{
  Section, run, bind_root, bind_primary, event, percent, take, retain, reset,
}
use codex_tmux_session_manag.Steering.Invariant.{Inv}
use codex_tmux_session_manag.Steering.Keeps.{sections-Inv, init-Inv}
use codex_tmux_session_manag.Steering.Crossing.{one_steer_per_crossing}
use codex_tmux_session_manag.Steering.Admission.{IsExact, admit_dispatch-IsExact}

abbrev turn_started_event : Fields
turn_started_event = field "method" (str "turn/started") (
    field "params"
      (obj (field "threadId" (str "main") (field "turn" (obj (field "id" (str "t1") end)) end)))
      end)

abbrev opening : List Section
opening =
    bind_primary (some "main") (some "c1")
    ∷ bind_root "main"
    ∷ event turn_started_event (some "c1")
    ∷ percent "main" 75 (some "c1")
    ∷ []

abbrev attempt : Attempt
attempt = record {
  thread_id = "main";
  turn_id = "t1";
  context_percent = 75;
  threshold_percent = 70;
  dispatch_id = dispatch_id_of "main" "t1" 2;
  serial = 2;
}

abbrev fresh : Controller
fresh = init 70 "update me"

abbrev sending : List Section
sending = opening ++ (take 2 ∷ retain "r" 2 attempt ∷ [])

abbrev retained : Controller
retained = run sending fresh

abbrev request : Request
request = record {
  request_id = "r";
  source = context_steer_source;
  is_steer = true;
  text = some "update me";
  dispatch_id = some attempt.dispatch_id;
  expected_thread_id = some "main";
  expected_turn_id = some "t1";
}

abbrev after_admission : Controller
after_admission = (admit_dispatch request retained).0

crossing_schedules : (run opening fresh).pending_attempt ≡ some attempt
unfolding run init schedule_if_ready get dispatch_id_of bind_root_thread bind_primary_thread
    observe_notice observe_protocol_event observe_context_percent
crossing_schedules = refl

dispatch_id_spelled : attempt.dispatch_id ≡ "rodex:context-threshold:main:t1:2"
unfolding dispatch_id_of decimal
dispatch_id_spelled = refl

request_admitted : admit_dispatch request retained ≡ (after_admission, admitted)
unfolding run init schedule_if_ready get dispatch_id_of decimal admit_dispatch current matches
    lookup bind_root_thread bind_primary_thread observe_notice observe_protocol_event
    observe_context_percent take_pending retain_request reset_after_disconnect
request_admitted = refl

sections-Inv_example : Inv (run sending fresh)
sections-Inv_example = sections-Inv sending fresh (init-Inv 70 "update me")

admit_dispatch-IsExact_example :
    (a : Attempt) × IsExact request retained a
    × (member "r" after_admission.admitted_request_ids ≡ true)
    × (lookup "r" after_admission.dispatch_requests ≡ none)
admit_dispatch-IsExact_example =
    admit_dispatch-IsExact request retained {c' = after_admission} request_admitted

-- The connection is lost and comes back, and the context is still high; the low percentages are of a
-- child thread and of the lost connection.
abbrev reconnecting : List Section
reconnecting =
    reset
    ∷ bind_primary (some "main") (some "c2")
    ∷ event turn_started_event (some "c2")
    ∷ percent "child" 10 (some "c2")
    ∷ percent "main" 10 (some "c1")
    ∷ percent "main" 90 (some "c2")
    ∷ []

one_steer_per_crossing_example :
    (admit_dispatch request (run reconnecting after_admission)).1 ≢ admitted
unfolding run init schedule_if_ready get dispatch_id_of decimal admit_dispatch current matches
    lookup bind_root_thread bind_primary_thread observe_notice observe_protocol_event
    observe_context_percent take_pending retain_request reset_after_disconnect
one_steer_per_crossing_example =
    one_steer_per_crossing request request retained {c' = after_admission} reconnecting
      request_admitted (refl, (refl, (refl, (refl, (refl, (refl, tt))))))
