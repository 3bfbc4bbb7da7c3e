-- ===== src/Recovery/Failure.antt =====
-- The controller as the protocol reader calls it (server_overloaded_recovery.py): which decoded
-- events it takes for the overload of a turn, and which for the start of a thread.
use codex_tmux_session_manag.Common.{
  ℕ, String, ◌≡◌, refl, arith, eq_iff, ◌⊎◌, inl, inr, Bool-cases, false, not, ◌&&◌, ◌||◌, Option,
  none, some, List, [], ◌==◌, string_eq, option_eq, is_none, if◌then◌else◌,
}
use codex_tmux_session_manag.Common.Json.{Fields, get, as_obj, as_nonempty_str, get_in, is_str}
use codex_tmux_session_manag.Recovery.{
  Controller, Effect, bind_root_thread, schedule_recovery, cancel_pending, user_input_observed,
  primary_connection_disconnected,
}

abbrev pub thread_started_method : String
thread_started_method = "thread/started"

abbrev pub turn_completed_method : String
turn_completed_method = "turn/completed"

abbrev pub server_overloaded_error_code : String
server_overloaded_error_code = "serverOverloaded"

-- the turn of a failed completion whose error is the overload code
unfoldable pub overloaded_turn : Option Fields → Option String
overloaded_turn none = none
overloaded_turn (some turn) =
    let error = as_obj (get "error" turn) in
    if is_str (get "status" turn) "failed"
      && not (is_none error)
      && is_str (get_in error "codexErrorInfo") server_overloaded_error_code
    then as_nonempty_str (get "id" turn)
    else none

abbrev both : Option String → Option String → Option (String × String)
both (some thread) (some turn) = some (thread, turn)
both _ _ = none

-- the identities that a terminal failure by overload carries, whatever the controller's state
unfoldable pub overload_failure : Fields → Option (String × String)
unfolding overloaded_turn
overload_failure event =
    if is_str (get "method" event) turn_completed_method
    then (let params = as_obj (get "params" event) in
        both (as_nonempty_str (get_in params "threadId"))
          (overloaded_turn (as_obj (get_in params "turn"))))
    else none

abbrev of_root : Option (String × String) → Controller → Option (String × String)
of_root none c = none
of_root (some (thread, turn)) c =
    if c.closed || not (c.root_thread_id == some thread) then none else some (thread, turn)

-- _server_overloaded_terminal_failure
unfoldable pub server_overloaded_terminal_failure : Fields → Controller → Option (String × String)
unfolding overload_failure
server_overloaded_terminal_failure event c = of_root (overload_failure event) c

abbrev started_thread : Fields → Option String
started_thread event =
    as_nonempty_str (get_in (as_obj (get_in (as_obj (get "params" event)) "thread")) "id")

abbrev bind_first : Option String → Controller → Controller
bind_first none c = c
bind_first (some thread) c =
    if not c.closed && is_none c.root_thread_id
    then elim (bind_root_thread thread c) [ none ↦ c | some (c', _) ↦ c' ]
    else c

-- _bind_first_started_thread; no root means that nothing is pending to be cancelled
unfoldable pub bind_first_started_thread : Fields → Controller → Controller
unfolding bind_root_thread
bind_first_started_thread event c = bind_first (started_thread event) c

abbrev schedule : Option (String × String) → ℕ → String → Controller → Controller × List Effect
schedule none now now_utc c = (c, [])
schedule (some (thread, turn)) now now_utc c = schedule_recovery thread turn now now_utc c

-- observe_protocol_event; `none` is an event that did not decode
unfoldable pub observe_protocol_event :
    Option Fields → ℕ → String → Controller → Controller × List Effect
unfolding bind_first_started_thread server_overloaded_terminal_failure
observe_protocol_event none now now_utc c = (c, [])
observe_protocol_event (some event) now now_utc c =
    if is_str (get "method" event) thread_started_method
    then (bind_first_started_thread event c, [])
    else schedule (server_overloaded_terminal_failure event c) now now_utc c

-- observe_interaction_outcome, on the operation and the source of the record
unfoldable pub observe_interaction_outcome : String → String → Controller → Controller × List Effect
observe_interaction_outcome operation source c =
    if operation == "terminal_input" && source == "terminal-gateway"
    then cancel_pending user_input_observed c
    else (c, [])

-- reset_after_disconnect
unfoldable pub reset_after_disconnect : Controller → Controller × List Effect
reset_after_disconnect c = cancel_pending primary_connection_disconnected c

bind_first-bound :
    (o : Option String) (root : String) (c : Controller)
    → c.root_thread_id ≡ some root
    → bind_first o c ≡ c
unfolding bind_root_thread
bind_first-bound none root c r = refl
bind_first-bound (some thread) root c r = ground arith

of_root-cases :
    (o : Option (String × String)) (root : String) (c : Controller)
    → c.root_thread_id ≡ some root
    → (of_root o c ≡ none)
      ⊎ ((turn : String) × (of_root o c ≡ some (root, turn))
          × (o ≡ some (root, turn))
          × (c.closed ≡ false))
of_root-cases none root c r = inl refl
of_root-cases (some (thread, turn)) root c r = elim (Bool-cases (root == thread)) [
  | inl same ↦ elim (Bool-cases c.closed) [
    | inl shut ↦ inl (ground arith)
    | inr is_open ↦
        inr (turn, ground (arith, eq_iff root thread), ground (arith, eq_iff root thread), is_open)
  ]
  | inr other ↦ inl (ground (arith, eq_iff root thread))
]

-- Once a root thread is bound, an event either changes nothing and has no effect, or it is the
-- completion of a turn of that very thread which failed by overload, the controller is open, and
-- the event is scheduled as that turn's recovery. Starts of other threads and failures of child
-- threads are among the ignored.
pub observe_protocol_event-only_root :
    (event : Option Fields) (now : ℕ) (now_utc root : String) (c : Controller)
    → c.root_thread_id ≡ some root
    → (observe_protocol_event event now now_utc c ≡ (c, []))
      ⊎ ((e : Fields) × (turn : String) × (event ≡ some e)
          × (overload_failure e ≡ some (root, turn))
          × (c.closed ≡ false)
          × (observe_protocol_event event now now_utc c
              ≡ schedule_recovery root turn now now_utc c))
unfolding observe_protocol_event
observe_protocol_event-only_root none now now_utc root c r = inl refl
observe_protocol_event-only_root (some e) now now_utc root c r =
    elim (Bool-cases (is_str (get "method" e) thread_started_method)) [
      | inl start ↦ inl (rw start (rw (bind_first-bound (started_thread e) root c r)))
      | inr other ↦ elim (of_root-cases (overload_failure e) root c r) [
        | inl nothing ↦ inl (rw other (rw nothing))
        | inr (turn, found, failure, is_open) ↦
            inr (e, turn, refl, failure, is_open, rw other (rw found))
      ]
    ]
