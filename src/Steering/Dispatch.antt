-- ===== src/Steering/Dispatch.antt =====
-- The observations and the dispatch of context_threshold_steering.py: events and percentages that
-- arrive, and the timer thread's way to the send boundary.
use codex_tmux_session_manag.Common.{
  ℕ, ◌+◌, String, Bool, true, false, not, ◌&&◌, ◌||◌, Option, none, some, [], ltb, ◌==◌, nat_eq,
  string_eq, option_eq, is_none, is_some, if◌then◌else◌,
}
use codex_tmux_session_manag.Common.Dict.{lookup, without, insert, member, discard, add}
use codex_tmux_session_manag.Common.Json.{
  Value, Fields, get, get_in, as_obj, as_str, as_nonempty_str, is_str,
}
use codex_tmux_session_manag.Steering.{
  Attempt, Controller, Outcome, Scheduled, Notice, started, completed, ended, compaction_begins,
  compaction_ends, irrelevant, quiet, cleared, with_schedule, clear_pending, schedule_if_ready,
  accept_binding, observe_notice, is_empty, crossed,
}

-- _turn_id
abbrev pub turn_id : Option Fields → Option String
turn_id params = as_nonempty_str (get_in (as_obj (get_in params "turn")) "id")

abbrev status_of : Option Fields → Option Value
status_of params =
    let thread = as_obj (get_in params "thread") in
    if is_some thread then get_in thread "status" else get_in params "status"

-- status_type in {"idle", "systemError", "notLoaded"}; where the type is a mapping or a list, Python
-- raises a TypeError, with the controller as it was
abbrev is_resting : Option Value → Bool
is_resting kind = is_str kind "idle" || is_str kind "systemError" || is_str kind "notLoaded"

abbrev start_notice : Option String → Notice
start_notice none = irrelevant
start_notice (some turn) = started turn

abbrev item_notice : Bool → Option String → Notice
item_notice begins none = irrelevant
item_notice true (some item) = compaction_begins item
item_notice false (some item) = compaction_ends item

unfoldable pub notice : Option Value → Option Fields → Notice
notice method params =
    if is_str method "turn/started"
    then start_notice (turn_id params)
    else if is_str method "turn/completed"
    then completed (turn_id params)
    else if is_str method "thread/status/changed"
    then (if is_resting (get_in (as_obj (status_of params)) "type") then ended else irrelevant)
    else if is_str method "item/started" || is_str method "item/completed"
    then (let item = as_obj (get_in params "item") in
        if is_str (get_in item "type") "contextCompaction"
        then item_notice (is_str method "item/started") (as_nonempty_str (get_in item "id"))
        else irrelevant)
    else irrelevant

abbrev pub observe_thread : Option String → Option String → Notice → Controller → Outcome
observe_thread none connection n c = quiet c
observe_thread (some thread) connection n c =
    if c.closed || not (accept_binding thread connection c) then quiet c else observe_notice n c

-- observe_protocol_event, on a decoded event
unfoldable pub observe_protocol_event : Fields → Option String → Controller → Outcome
unfolding notice
observe_protocol_event event connection c =
    let params = as_obj (get "params" event) in
    if is_none (as_str (get "method" event)) || is_none params
    then quiet c
    else observe_thread (as_nonempty_str (get_in params "threadId")) connection
        (notice (get "method" event) params) c

abbrev pub below : ℕ → Controller → Outcome
below percent c = cleared c (record (clear_pending c) {
  context_percent = some percent;
  threshold_armed = true;
  binding_retry_count = 0;
})

abbrev pub note_percent : ℕ → Controller → Outcome
note_percent percent c =
    if ltb percent c.threshold_percent
    then below percent c
    else with_schedule none (record c { context_percent = some percent })

-- observe_context_percent of a finite percentage that is not negative; `none` is the ValueError
unfoldable pub observe_context_percent : String → ℕ → Option String → Controller → Option Outcome
unfolding accept_binding clear_pending
observe_context_percent thread percent connection c =
    if thread == ""
    then none
    else if c.closed
        || not (accept_binding thread connection c)
        || not (is_empty c.active_compaction_item_ids)
    then some (quiet c)
    else some (note_percent percent c)

-- reset_after_disconnect
unfoldable pub reset_after_disconnect : Controller → Outcome
unfolding clear_pending
reset_after_disconnect c =
    if c.closed
    then quiet c
    else cleared c (record (clear_pending c) {
      root_thread_id = none;
      connection_generation = none;
      dispatch_ready = false;
      active_turn_id = none;
      context_percent = none;
      active_compaction_item_ids = [];
    })

-- close
unfoldable pub close : Controller → Outcome
unfolding clear_pending
close c =
    if c.closed
    then quiet c
    else cleared c (record (clear_pending c) {
      closed = true;
      active_turn_id = none;
      context_percent = none;
      active_compaction_item_ids = [];
    })

-- the handler of an exception from deferred_call.start()
unfoldable pub start_failed : ℕ → Controller → Controller
unfolding clear_pending
start_failed call c =
    if c.pending_call == some call then record (clear_pending c) { threshold_armed = true } else c

abbrev pub is_attempt : Option Attempt → Attempt → Bool
is_attempt none attempt = false
is_attempt (some pending) attempt = pending.serial == attempt.serial

-- _dispatch_pending, first section
unfoldable pub take_pending : ℕ → Controller → Controller × Option Attempt
take_pending generation c =
    if c.closed
      || not (generation == c.generation)
      || is_none c.pending_attempt
      || is_none c.pending_call
    then (c, none)
    else (record c { pending_call = none }, c.pending_attempt)

-- second section: whether the request goes on to be executed
unfoldable pub retain_request : String → ℕ → Attempt → Controller → Controller × Bool
unfolding insert
retain_request request_id generation attempt c =
    if c.closed || not (generation == c.generation) || not (is_attempt c.pending_attempt attempt)
    then (c, false)
    else (
      record c { dispatch_requests = insert request_id (generation, attempt) c.dispatch_requests },
      true,
    )

pub record Request : Type 0 where
  pub request_id : String
  pub source : String
  pub is_steer : Bool
  pub text : Option String
  pub dispatch_id : Option String
  pub expected_thread_id : Option String
  pub expected_turn_id : Option String

abbrev pub context_steer_source : String
context_steer_source = "context-threshold-steer"

pub data Admission : Type 0 where
  not_ours admitted no_pending_admission stale : Admission

-- the state's part of the test at the send boundary
unfoldable pub current : ℕ → Attempt → Controller → Bool
current generation attempt c =
    not c.closed
    && generation == c.generation
    && is_attempt c.pending_attempt attempt
    && c.dispatch_ready
    && c.root_thread_id == some attempt.thread_id
    && c.active_turn_id == some attempt.turn_id
    && is_empty c.active_compaction_item_ids
    && crossed c

-- the request's part
unfoldable pub matches : Request → Attempt → String → Bool
matches request attempt message =
    request.is_steer
    && request.expected_thread_id == some attempt.thread_id
    && request.expected_turn_id == some attempt.turn_id
    && request.dispatch_id == some attempt.dispatch_id
    && request.text == some message

unfoldable pub admit_retained : Request → Option (ℕ × Attempt) → Controller → Controller × Admission
unfolding clear_pending
admit_retained request none c = (c, no_pending_admission)
admit_retained request (some (generation, attempt)) c =
    let popped = record c { dispatch_requests = without request.request_id c.dispatch_requests } in
    if current generation attempt c && matches request attempt c.message
    then (
      record (clear_pending popped) {
        admitted_request_ids = add request.request_id c.admitted_request_ids;
        threshold_armed = false;
      },
      admitted,
    )
    else (popped, stale)

-- admit_dispatch
unfoldable pub admit_dispatch : Request → Controller → Controller × Admission
unfolding admit_retained
admit_dispatch request c =
    if request.source == context_steer_source
    then admit_retained request (lookup request.request_id c.dispatch_requests) c
    else (c, not_ours)

pub data Status : Type 0 where
  completed_status delivered queued model_turn_started rejected failed indeterminate : Status

pub data RejectionReason : Type 0 where
  unspecified model_thread_unbound : RejectionReason

-- What pipeline.execute gave: an exception, or a result.
pub data Delivery : Type 0 where
  raised : Delivery
  returned : Status → Option RejectionReason → Delivery

-- a local refusal before delivery, which alone may be tried again
abbrev pub unbound : Delivery → Bool
unbound (returned rejected (some model_thread_unbound)) = true
unbound _ = false

abbrev pub is_completed : Delivery → Bool
is_completed (returned completed_status _) = true
is_completed _ = false

-- CONTEXT_BINDING_RETRY_DELAYS_SECONDS, in ms
abbrev pub retry_delay : ℕ → Option ℕ
retry_delay n =
    if n == 0 then some 250 else if n == 1 then some 1000 else if n == 2 then some 2000 else none

abbrev pub give_up : Controller → Scheduled
give_up c = (record c { threshold_armed = false }, none)

abbrev pub retry : Option ℕ → Controller → Scheduled
retry none c = give_up c
retry (some delay) c =
    schedule_if_ready delay (record c { binding_retry_count = c.binding_retry_count + 1 })

-- the branch for the attempt that is still pending
unfoldable pub conclude : Bool → Delivery → Controller → Scheduled
unfolding clear_pending
conclude was_admitted delivery c =
    let c' = clear_pending c in
    if not was_admitted && unbound delivery
    then retry (retry_delay c.binding_retry_count) c'
    else give_up c'

abbrev pub conclude_if : Bool → Bool → Delivery → Controller → Scheduled
conclude_if still_pending was_admitted delivery c =
    if still_pending then conclude was_admitted delivery c else (c, none)

abbrev pub complete : Bool → Attempt → Scheduled → Scheduled
complete done attempt (c, scheduled) = (
  if done then record c { last_completed_dispatch_id = some attempt.dispatch_id } else c,
  scheduled,
)

-- the `finally` section: the attempt scheduled anew, if any
unfoldable pub finish_dispatch : String → ℕ → Attempt → Delivery → Controller → Scheduled
unfolding conclude without discard member
finish_dispatch request_id generation attempt delivery c =
    let was_admitted = member request_id c.admitted_request_ids in
    let c' = record c {
      dispatch_requests = without request_id c.dispatch_requests;
      admitted_request_ids = discard request_id c.admitted_request_ids;
    } in
    complete (was_admitted && is_completed delivery) attempt (
      conclude_if (generation == c.generation && is_attempt c.pending_attempt attempt) was_admitted
        delivery c')
