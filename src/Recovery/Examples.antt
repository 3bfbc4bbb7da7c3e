-- ===== src/Recovery/Examples.antt =====
-- The recovery controller at concrete inputs (server_overloaded_recovery.py).
use mathlib.Core.List.{Memᴰ}
use codex_tmux_session_manag.Common.{
  ℕ, ◌+◌, ◌*◌, ◌^◌, String, ◌≡◌, ◌≢◌, ◌⊎◌, refl, false, Bool, Option, none, some, List, [], ◌∷◌,
  arith, min, map,
}
use codex_tmux_session_manag.Common.Dict.{lookup}
use codex_tmux_session_manag.Common.Json.{Fields, str, obj, end, field, get}
use codex_tmux_session_manag.Recovery.{
  Attempt, Controller, Request, admitted, init, schedule_recovery, bind_root_thread, admit_dispatch,
  recovery_source, recovery_delay_seconds, take_pending, retain_request, cancel_pending,
  user_input_observed, observed, dispatch_id_of, new_attempt,
}
use codex_tmux_session_manag.Recovery.Failure.{
  observe_protocol_event, observe_protocol_event-only_root, overload_failure,
  observe_interaction_outcome,
}
use codex_tmux_session_manag.Recovery.Sections.{
  System, start, Step, Reach, here, next, bind, overload, take, retain, cancel,
}
use codex_tmux_session_manag.Recovery.Once.{Report, report_all, schedule_recovery_once}
use codex_tmux_session_manag.Recovery.Progress.{overload_burst, reports}
use codex_tmux_session_manag.Recovery.Backoff.{recovery_delay_seconds-closed}
use codex_tmux_session_manag.Recovery.Safety.{
  Inv, start-Inv, Reach-Inv, admit_dispatch-authorised, revoked_never_admitted,
}

delays :
    map recovery_delay_seconds (0 ∷ 1 ∷ 2 ∷ 5 ∷ 6 ∷ 7 ∷ 100 ∷ [])
    ≡ 30 ∷ 30 ∷ 60 ∷ 480 ∷ 960 ∷ 960 ∷ 960 ∷ []
unfolding recovery_delay_seconds
delays = refl

recovery_delay_seconds-closed_example : recovery_delay_seconds 6 ≡ min (30 * 2 ^ 5) 960
recovery_delay_seconds-closed_example = recovery_delay_seconds-closed 5

abbrev bound : Controller
bound = record init { root_thread_id = some "root" }

abbrev failure : Fields
failure = field "method" (str "turn/completed") (
    field "params"
      (obj (
        field "threadId" (str "root") (
          field "turn"
            (obj (
              field "id" (str "t1") (
                field "status" (str "failed")
                  (field "error" (obj (field "codexErrorInfo" (str "serverOverloaded") end)) end))))
            end)))
      end)

failure_is_overload : overload_failure failure ≡ some ("root", "t1")
unfolding overload_failure get
failure_is_overload = refl

failure_schedules :
    (observe_protocol_event (some failure) 0 "now" bound).0
    ≡ (schedule_recovery "root" "t1" 0 "now" bound).0
unfolding observe_protocol_event schedule_recovery get
failure_schedules = refl

typing_cancels :
    (observe_interaction_outcome "terminal_input" "terminal-gateway"
      (schedule_recovery "root" "t1" 0 "now" bound).0).0.pending_attempt
    ≡ none
unfolding observe_interaction_outcome cancel_pending schedule_recovery observed
typing_cancels = refl

observe_protocol_event-only_root_example :
    (observe_protocol_event (some failure) 0 "now" bound ≡ (bound, []))
    ⊎ ((e : Fields) × (turn : String) × ◌≡◌ {A = Option Fields} (some failure) (some e)
        × (overload_failure e ≡ some ("root", turn))
        × ◌≡◌ {A = Bool} false false
        × (observe_protocol_event (some failure) 0 "now" bound
            ≡ schedule_recovery "root" turn 0 "now" bound))
observe_protocol_event-only_root_example =
    observe_protocol_event-only_root (some failure) 0 "now" "root" bound refl

abbrev overloaded : Controller
overloaded = (schedule_recovery "root" "t1" 0 "now" bound).0

abbrev between : List Report
between = ("root", "t2", 3, "then") ∷ ("child", "t1", 4, "then") ∷ ("root", "t3", 5, "then") ∷ []

schedule_recovery_once_example :
    schedule_recovery "root" "t1" 7 "later" (report_all between overloaded)
    ≡ (report_all between overloaded, [])
unfolding observed
schedule_recovery_once_example =
    schedule_recovery_once "root" "t1" 0 7 "now" "later" between bound refl (omega arith)

abbrev second_reports : List (String × ℕ)
second_reports = ("t2", 1000) ∷ ("t3", 300 * 10 ^ 9) ∷ []

overload_burst_example :
    (p : Attempt) × ((reports "root" "now" 5 (("t1", 0) ∷ second_reports) bound).pending_attempt
      ≡ some p)
    × (p.thread_id ≡ "root")
    × (p.delay_seconds ≡ min (30 * 2 ^ 2) 960)
unfolding schedule_recovery observed
overload_burst_example =
    overload_burst "root" "now" "t1" 5 second_reports bound refl refl refl
      (omega arith, refl, (omega arith, refl, (omega arith, refl, tt)))

-- A run: the root is bound, a turn is overloaded, its timer fires, and its request is retained.
abbrev attempt : Attempt
attempt = new_attempt "root" "t1" 0 "now" bound

abbrev bound_system : System
bound_system = record { controller = bound; taken = [] }

abbrev waiting : System
waiting = record bound_system { controller = overloaded }

abbrev fired : System
fired = record { controller = record overloaded { pending_call = none }; taken = attempt ∷ [] }

abbrev retained : System
retained = record fired { controller = retain_request "r" attempt.serial attempt fired.controller }

start-bound : Step start bound_system
unfolding bind_root_thread
start-bound = bind start "root" {c' = bound} {effects = []} refl

waiting-fired : Step waiting fired
unfolding schedule_recovery take_pending observed
waiting-fired = take waiting 1 {c' = fired.controller} {attempt = attempt} refl

retained-Reach : Reach start retained
retained-Reach =
    next
      (next (next (next here start-bound) (overload bound_system "root" "t1" 0 "now"))
        waiting-fired)
      (retain fired "r" attempt (Memᴰ.head refl))

retained-Inv : Inv retained
retained-Inv = Reach-Inv retained-Reach start-Inv

Reach-Inv_example : Inv retained
Reach-Inv_example = Reach-Inv retained-Reach start-Inv

abbrev request : Request
request = record {
  request_id = "r";
  source = recovery_source;
  dispatch_id = some attempt.dispatch_id;
  expected_thread_id = some "root";
}

abbrev after_admission : Controller
after_admission = (admit_dispatch request retained.controller).0

request_admitted : admit_dispatch request retained.controller ≡ (after_admission, admitted)
unfolding admit_dispatch schedule_recovery retain_request observed dispatch_id_of
request_admitted = refl

admit_dispatch-authorised_example :
    let c = retained.controller in
    (p : Attempt) × (c.pending_attempt ≡ some p)
    × (lookup "r" c.dispatch_requests ≡ some (p.serial, p))
    × (c.closed ≡ false)
    × ◌≡◌ {A = Option String} (some attempt.dispatch_id) (some p.dispatch_id)
    × (some "root" ≡ c.root_thread_id)
    × (after_admission.pending_attempt ≡ none)
    × (after_admission.generation ≡ c.generation + 1)
    × (lookup "r" after_admission.dispatch_requests ≡ none)
admit_dispatch-authorised_example =
    admit_dispatch-authorised request retained {c' = after_admission} retained-Inv request_admitted

-- The user types while the request waits for admission.
abbrev cancelled : System
cancelled = record retained {
  controller = (cancel_pending user_input_observed retained.controller).0;
}

revoked_never_admitted_example : (admit_dispatch request cancelled.controller).1 ≢ admitted
unfolding schedule_recovery retain_request cancel_pending observed lookup
revoked_never_admitted_example =
    revoked_never_admitted {s = retained} {t = cancelled} {u = cancelled} attempt request
      retained-Inv refl (cancel retained user_input_observed) (λ e. cc) here refl
