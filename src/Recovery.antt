-- ===== src/Recovery.antt =====
-- server_overloaded_recovery.py: the controller that schedules one guarded continuation of a turn
-- which the model server refused. A method is split where it leaves its lock: each function below
-- is one locked section, with what the method does outside the lock as its list of effects. The
-- interleavings of the sections are in `Recovery.Sections`.
mod Backoff
pub mod Failure
pub mod Sections
pub mod Laws
mod Movement
mod Ownership
pub mod Safety
mod Once
mod Progress
mod Snapshot
mod Examples
unfoldable pub use Backoff.{recovery_delay_seconds}
use codex_tmux_session_manag.Common.{
  ℕ, ◌+◌, ◌-◌, ◌*◌, ◌^◌, String, Bool, true, false, not, ◌&&◌, ◌||◌, Option, none, some, List, [],
  ◌∷◌, ◌++◌, ltb, leb, ◌==◌, nat_eq, string_eq, option_eq, is_none, concat, if◌then◌else◌, length,
  drop,
}
use codex_tmux_session_manag.Common.Dict.{lookup, without, insert}

-- Times are nanoseconds of the monotonic clock.
abbrev pub reset_window : ℕ
reset_window = 300 * 10 ^ 9

abbrev pub observed_turn_limit : ℕ
observed_turn_limit = 256

-- An attempt object. `serial`, the generation at which it was made, is its identity under `is`.
pub record Attempt : Type 0 where
  pub thread_id : String
  pub failed_turn_id : String
  pub server_overloaded_count : ℕ
  pub delay_seconds : ℕ
  pub last_server_overloaded_at_utc : String
  pub dispatch_id : String
  pub serial : ℕ

-- A deferred call is named by the generation that its callback captured.
pub record Controller : Type 0 where
  pub root_thread_id : Option String
  pub server_overloaded_count : ℕ
  pub last_server_overloaded_monotonic : Option ℕ
  pub last_server_overloaded_at_utc : Option String
  pub observed_terminal_turns : List (String × String)
  pub pending_attempt : Option Attempt
  pub pending_call : Option ℕ
  pub dispatch_requests : List (String × (ℕ × Attempt))
  pub generation : ℕ
  pub closed : Bool

abbrev pub init : Controller
init = record {
  root_thread_id = none;
  server_overloaded_count = 0;
  last_server_overloaded_monotonic = none;
  last_server_overloaded_at_utc = none;
  observed_terminal_turns = [];
  pending_attempt = none;
  pending_call = none;
  dispatch_requests = [];
  generation = 0;
  closed = false;
}

pub data Reason : Type 0 where
  root_thread_changed user_input_observed primary_connection_disconnected runtime_closed : Reason

-- What a section does once it has left the lock.
pub data Effect : Type 0 where
  cancel_call : ℕ → Effect
  log_cancelled : Attempt → Reason → Effect
  log_observed : Attempt → Effect
  start_call : ℕ → ℕ → Effect  -- the call and its delay in seconds

abbrev pub cancel_effects : Option ℕ → List Effect
cancel_effects none = []
cancel_effects (some call) = cancel_call call ∷ []

abbrev pub cancelled_effects : Option Attempt → Reason → List Effect
cancelled_effects none reason = []
cancelled_effects (some attempt) reason = log_cancelled attempt reason ∷ []

-- _clear_pending_locked
unfoldable pub clear_pending : Controller → Controller
clear_pending c = record c {
  generation = c.generation + 1;
  pending_attempt = none;
  pending_call = none;
}

-- bind_root_thread; `none` is the ValueError
unfoldable pub bind_root_thread : String → Controller → Option (Controller × List Effect)
unfolding clear_pending
bind_root_thread thread_id c =
    if thread_id == ""
    then none
    else if c.closed || c.root_thread_id == some thread_id
    then some (c, [])
    else if is_none c.root_thread_id
    then some (record c { root_thread_id = some thread_id }, [])
    else some (
      record (clear_pending c) {
        server_overloaded_count = 0;
        last_server_overloaded_monotonic = none;
        last_server_overloaded_at_utc = none;
        observed_terminal_turns = [];
        root_thread_id = some thread_id;
      },
      cancel_effects c.pending_call ++ cancelled_effects c.pending_attempt root_thread_changed,
    )

-- turn_key in self._observed_terminal_turns
unfoldable pub observed : String × String → List (String × String) → Bool
observed key [] = false
observed (thread, turn) ((thread', turn') ∷ rest) =
    (thread' == thread && turn' == turn) || observed (thread, turn) rest

-- 0 <= observed - last <= window, where there is a last
unfoldable pub within_window : Option ℕ → ℕ → Bool
within_window none now = false
within_window (some last) now = leb last now && leb (now - last) reset_window

-- the insertion, with popitem(last=False) past the limit
unfoldable pub remember : String × String → List (String × String) → List (String × String)
remember key turns =
    let turns' = turns ++ key ∷ [] in
    if ltb observed_turn_limit (length turns') then drop 1 turns' else turns'

-- the count after one more overload
unfoldable pub next_count : Controller → ℕ → ℕ
unfolding within_window
next_count c now =
    if within_window c.last_server_overloaded_monotonic now
    then c.server_overloaded_count + 1
    else 1

-- f"rodex:server-overloaded:{thread_id}:{failed_turn_id}"
unfoldable pub dispatch_id_of : String → String → String
dispatch_id_of thread_id failed_turn_id =
    concat (concat (concat "rodex:server-overloaded:" thread_id) ":") failed_turn_id

abbrev pub new_attempt : String → String → ℕ → String → Controller → Attempt
new_attempt thread_id failed_turn_id now now_utc c =
    let count = next_count c now in
    record {
      thread_id = thread_id;
      failed_turn_id = failed_turn_id;
      server_overloaded_count = count;
      delay_seconds = recovery_delay_seconds count;
      last_server_overloaded_at_utc = now_utc;
      dispatch_id = dispatch_id_of thread_id failed_turn_id;
      serial = c.generation + 1;
    }

-- _schedule_recovery, up to the start of the deferred call
unfoldable pub schedule_recovery :
    String → String → ℕ → String → Controller → Controller × List Effect
unfolding remember next_count
schedule_recovery thread_id failed_turn_id now now_utc c =
    if c.closed || not (c.root_thread_id == some thread_id)
    then (c, [])
    else if observed (thread_id, failed_turn_id) c.observed_terminal_turns
    then (c, [])
    else let attempt = new_attempt thread_id failed_turn_id now now_utc c in
      (
        record c {
          observed_terminal_turns = remember (thread_id, failed_turn_id) c.observed_terminal_turns;
          server_overloaded_count = attempt.server_overloaded_count;
          last_server_overloaded_monotonic = some now;
          last_server_overloaded_at_utc = some now_utc;
          generation = c.generation + 1;
          pending_attempt = some attempt;
          pending_call = some (c.generation + 1);
        },
        cancel_effects c.pending_call
            ++ log_observed attempt ∷ start_call (c.generation + 1) attempt.delay_seconds ∷ [],
      )

-- the handler of an exception from deferred_call.start()
unfoldable pub start_failed : ℕ → Controller → Controller
start_failed call c =
    if c.pending_call == some call
    then record c { generation = c.generation + 1; pending_attempt = none; pending_call = none }
    else c

-- _dispatch_pending, first section: the attempt that the timer thread goes on with
unfoldable pub take_pending : ℕ → Controller → Controller × Option Attempt
take_pending generation c =
    if c.closed
      || not (generation == c.generation)
      || is_none c.pending_attempt
      || is_none c.pending_call
    then (c, none)
    else (record c { pending_call = none }, c.pending_attempt)

-- second section: the request is retained before it is executed
unfoldable pub retain_request : String → ℕ → Attempt → Controller → Controller
unfolding insert
retain_request request_id generation attempt c = record c {
  dispatch_requests = insert request_id (generation, attempt) c.dispatch_requests;
}

-- the `finally` section
unfoldable pub finish_dispatch : String → ℕ → Controller → Controller
unfolding clear_pending without
finish_dispatch request_id generation c =
    let popped = record c { dispatch_requests = without request_id c.dispatch_requests } in
    if generation == c.generation then clear_pending popped else popped

-- The fields of an interaction request that admission reads.
pub record Request : Type 0 where
  pub request_id : String
  pub source : String
  pub dispatch_id : Option String
  pub expected_thread_id : Option String

abbrev pub recovery_source : String
recovery_source = "server-overloaded-recovery"

pub data Admission : Type 0 where
  not_ours admitted no_pending_admission cancelled_before_admission : Admission

abbrev is_attempt : Option Attempt → Attempt → Bool
is_attempt none attempt = false
is_attempt (some pending) attempt = pending.serial == attempt.serial

-- the test of a retained request at the last boundary before the RPC is sent
unfoldable pub admissible : Request → ℕ → Attempt → Controller → Bool
admissible request generation attempt c =
    not c.closed
    && generation == c.generation
    && is_attempt c.pending_attempt attempt
    && request.dispatch_id == some attempt.dispatch_id
    && request.expected_thread_id == some attempt.thread_id

unfoldable pub admit_retained : Request → Option (ℕ × Attempt) → Controller → Controller × Admission
unfolding clear_pending admissible
admit_retained request none c = (c, no_pending_admission)
admit_retained request (some (generation, attempt)) c =
    let popped = record c { dispatch_requests = without request.request_id c.dispatch_requests } in
    if admissible request generation attempt c
    then (clear_pending popped, admitted)
    else (popped, cancelled_before_admission)

-- admit_dispatch
unfoldable pub admit_dispatch : Request → Controller → Controller × Admission
unfolding admit_retained lookup without
admit_dispatch request c =
    if request.source == recovery_source
    then admit_retained request (lookup request.request_id c.dispatch_requests) c
    else (c, not_ours)

-- _cancel_pending
unfoldable pub cancel_pending : Reason → Controller → Controller × List Effect
unfolding clear_pending
cancel_pending reason c = if c.closed || is_none c.pending_attempt then (c, []) else (
  clear_pending c,
  cancel_effects c.pending_call ++ cancelled_effects c.pending_attempt reason,
)

-- close
unfoldable pub close : Controller → Controller × List Effect
unfolding clear_pending
close c = if c.closed then (c, []) else (
  record (clear_pending c) { closed = true },
  cancel_effects c.pending_call ++ cancelled_effects c.pending_attempt runtime_closed,
)
