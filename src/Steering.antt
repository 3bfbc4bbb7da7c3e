-- ===== src/Steering.antt =====
-- context_threshold_steering.py: one exact steer of the main turn when its context crosses a limit.
-- A method is split where it leaves its lock: each function below is one locked section, with what
-- the method does outside the lock in its outcome.
--
-- A percentage is a finite float that is not negative. It is only ever compared and passed on, so
-- it is given by its bit pattern, a number with the same order.
pub mod Dispatch
pub mod Sections
mod Invariant
mod Keeps
mod Crossing
mod Admission
mod Snapshot
mod Examples
use codex_tmux_session_manag.Common.{
  ℕ, ◌+◌, String, Bool, true, false, not, ◌&&◌, ◌||◌, Option, none, some, List, [], ltb, leb, ◌==◌,
  nat_eq, string_eq, option_eq, is_none, is_some, concat, if◌then◌else◌,
}
use codex_tmux_session_manag.Common.Dict.{member, discard, add}
use codex_tmux_session_manag.Common.Decimal.{decimal}
use codex_tmux_session_manag.Common.Json.{
  Value, Fields, get, get_in, as_obj, as_str, as_nonempty_str, is_str,
}

-- `serial`, the generation at which the object was made, is its identity under `is`.
pub record Attempt : Type 0 where
  pub thread_id : String
  pub turn_id : String
  pub context_percent : ℕ
  pub threshold_percent : ℕ
  pub dispatch_id : String
  pub serial : ℕ

pub record Controller : Type 0 where
  pub threshold_percent : ℕ
  pub message : String
  pub root_thread_id : Option String
  pub registered_thread_id : Option String
  pub connection_generation : Option String
  pub dispatch_ready : Bool
  pub active_turn_id : Option String
  pub context_percent : Option ℕ
  pub threshold_armed : Bool
  pub binding_retry_count : ℕ
  pub active_compaction_item_ids : List String
  pub pending_attempt : Option Attempt
  pub pending_call : Option ℕ
  pub dispatch_requests : List (String × (ℕ × Attempt))
  pub admitted_request_ids : List String
  pub last_completed_dispatch_id : Option String
  pub generation : ℕ
  pub closed : Bool

unfoldable pub init : ℕ → String → Controller
init threshold message = record {
  threshold_percent = threshold;
  message = message;
  root_thread_id = none;
  registered_thread_id = none;
  connection_generation = none;
  dispatch_ready = false;
  active_turn_id = none;
  context_percent = none;
  threshold_armed = true;
  binding_retry_count = 0;
  active_compaction_item_ids = [];
  pending_attempt = none;
  pending_call = none;
  dispatch_requests = [];
  admitted_request_ids = [];
  last_completed_dispatch_id = none;
  generation = 0;
  closed = false;
}

-- What a section leaves for the method to do outside the lock: a deferred call, named by the
-- generation that its callback captured, to cancel; an attempt to start, with its delay in ms.
pub record Outcome : Type 0 where
  pub controller : Controller
  pub cancelled_call : Option ℕ
  pub scheduled : Option (Attempt × ℕ)

abbrev pub quiet : Controller → Outcome
quiet c = record { controller = c; cancelled_call = none; scheduled = none }

-- _clear_pending_locked
unfoldable pub clear_pending : Controller → Controller
clear_pending c = record c {
  generation = c.generation + 1;
  pending_attempt = none;
  pending_call = none;
}

abbrev pub is_empty : List String → Bool
is_empty [] = true
is_empty _ = false

abbrev pub crossed : Controller → Bool
crossed c = elim c.context_percent [ none ↦ false | some percent ↦ leb c.threshold_percent percent ]

-- the test of _schedule_if_ready_locked, past the identities that an attempt is made of
unfoldable pub ready : Controller → Bool
ready c =
    not c.closed
    && c.dispatch_ready
    && crossed c
    && c.threshold_armed
    && is_empty c.active_compaction_item_ids
    && is_none c.pending_attempt

-- f"rodex:context-threshold:{thread}:{turn}:{generation}"
unfoldable pub dispatch_id_of : String → String → ℕ → String
dispatch_id_of thread turn generation =
    concat (concat (concat (concat (concat "rodex:context-threshold:" thread) ":") turn) ":")
      (decimal generation)

abbrev pub new_attempt : String → String → ℕ → Controller → Attempt
new_attempt thread turn percent c = record {
  thread_id = thread;
  turn_id = turn;
  context_percent = percent;
  threshold_percent = c.threshold_percent;
  dispatch_id = dispatch_id_of thread turn (c.generation + 1);
  serial = c.generation + 1;
}

abbrev pub Scheduled : Type 0
Scheduled = Controller × Option (Attempt × ℕ)

unfoldable pub reserve : Option String → Option String → Option ℕ → ℕ → Controller → Scheduled
reserve (some thread) (some turn) (some percent) delay c =
    let attempt = new_attempt thread turn percent c in
    (
      record c {
        generation = c.generation + 1;
        pending_attempt = some attempt;
        pending_call = some (c.generation + 1);
      },
      some (attempt, delay),
    )
reserve _ _ _ delay c = (c, none)

-- _schedule_if_ready_locked
unfoldable pub schedule_if_ready : ℕ → Controller → Scheduled
unfolding ready reserve
schedule_if_ready delay c =
    if ready c
    then reserve c.root_thread_id c.active_turn_id c.context_percent delay c
    else (c, none)

abbrev pub with_schedule : Option ℕ → Controller → Outcome
with_schedule cancelled c =
    let (c', scheduled) = schedule_if_ready 0 c in
    record { controller = c'; cancelled_call = cancelled; scheduled = scheduled }

abbrev pub cleared : Controller → Controller → Outcome
cleared before after = record {
  controller = after;
  cancelled_call = before.pending_call;
  scheduled = none;
}

abbrev pub register : String → Bool → Controller → Controller
register thread_id authorised c = record c {
  registered_thread_id = some thread_id;
  dispatch_ready = authorised;
}

abbrev pub registered : String → Bool → Controller → Outcome
registered thread_id true c = with_schedule none (register thread_id true c)
registered thread_id false c =
    with_schedule c.pending_call (clear_pending (register thread_id false c))

-- bind_root_thread; `none` is the ValueError
unfoldable pub bind_root_thread : String → Controller → Option Outcome
unfolding clear_pending
bind_root_thread thread_id c =
    if thread_id == ""
    then none
    else if c.closed
    then some (quiet c)
    else some (
        registered thread_id (c.root_thread_id == some thread_id && is_some c.connection_generation)
          c)

abbrev pub is_other_thread : Option String → Option String → Bool
is_other_thread none registered = false
is_other_thread (some thread) registered = not (registered == some thread)

-- bind_primary_thread
unfoldable pub bind_primary_thread : Option String → Option String → Controller → Outcome
unfolding clear_pending
bind_primary_thread thread_id connection c =
    if c.closed || (thread_id == c.root_thread_id && connection == c.connection_generation)
    then quiet c
    else cleared c (record (clear_pending c) {
      threshold_armed = is_other_thread thread_id c.registered_thread_id || c.threshold_armed;
      root_thread_id = thread_id;
      connection_generation = connection;
      dispatch_ready =
          is_some connection && is_some thread_id && thread_id == c.registered_thread_id;
      active_turn_id = none;
      context_percent = none;
      binding_retry_count = 0;
      active_compaction_item_ids = [];
    })

-- _accept_binding_locked
unfoldable pub accept_binding : String → Option String → Controller → Bool
accept_binding thread_id connection c =
    is_some connection
    && connection == c.connection_generation
    && c.root_thread_id == some thread_id

abbrev turn_started : String → Controller → Outcome
turn_started turn c =
    if is_none c.active_turn_id || c.active_turn_id == some turn
    then with_schedule none (record c { active_turn_id = some turn })
    else with_schedule c.pending_call (record (clear_pending c) { active_turn_id = some turn })

abbrev pub turn_over : Controller → Outcome
turn_over c =
    cleared c (record (clear_pending c) { active_turn_id = none; active_compaction_item_ids = [] })

abbrev turn_completed : Option String → Controller → Outcome
turn_completed turn c =
    if is_none c.active_turn_id || turn == c.active_turn_id then turn_over c else quiet c

abbrev compaction_started : String → Controller → Outcome
compaction_started item c = cleared c (record (clear_pending c) {
  active_compaction_item_ids = add item c.active_compaction_item_ids;
  context_percent = none;
  threshold_armed = false;
})

abbrev compaction_completed : String → Controller → Outcome
compaction_completed item c =
    quiet (record c { active_compaction_item_ids = discard item c.active_compaction_item_ids })

-- What an event of the bound thread says.
pub data Notice : Type 0 where
  started : String → Notice
  completed : Option String → Notice
  ended : Notice
  compaction_begins compaction_ends : String → Notice
  irrelevant : Notice

-- the locked section of observe_protocol_event
unfoldable pub observe_notice : Notice → Controller → Outcome
unfolding clear_pending add discard
observe_notice (started turn) c = turn_started turn c
observe_notice (completed turn) c = turn_completed turn c
observe_notice ended c = turn_over c
observe_notice (compaction_begins item) c = compaction_started item c
observe_notice (compaction_ends item) c = compaction_completed item c
observe_notice _ c = quiet c
