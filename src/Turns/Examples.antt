-- ===== src/Turns/Examples.antt =====
-- The turn lifecycle and the admission of records at concrete records (rollout_turn_lifecycle.py).
use codex_tmux_session_manag.Common.{
  ◌≤◌, String, ◌≡◌, refl, false, Option, none, some, List, [], ◌∷◌, string_eq,
}
use codex_tmux_session_manag.Common.Dict.{member, add}
use codex_tmux_session_manag.Common.Json.{Fields, field, end, int, str, get, as_str}
use codex_tmux_session_manag.Turns.{
  find_fingerprint, changed, admit, fresh, observe, start, initialize, end_turn,
}
use codex_tmux_session_manag.Turns.Laws.{
  Event, observed, run, closings, closes_once, EndedWereStarted, IsEligible, only_explicit_starts,
}
use codex_tmux_session_manag.Turns.Admission.{admit_all, admitted_once}

abbrev event : String → Option String → Option String → Event
event record_type payload_type id = record {
  record_type = some record_type;
  payload_type = payload_type;
  explicit_turn_id = id;
}

abbrev turn : List Event
turn =
    event "event_msg" (some "task_started") (some "t1")
    ∷ event "turn_context" none (some "t2")
    ∷ event "event_msg" (some "task_complete") (some "t1")
    ∷ event "event_msg" (some "turn_aborted") (some "t1")
    ∷ []

turn_closes_once : closings "t1" turn fresh ≡ 1
unfolding closings observe start initialize end_turn member add
turn_closes_once = refl

closes_once_example : closings "t1" turn fresh ≤ 1
unfolding member
closes_once_example = closes_once "t1" turn fresh

only_explicit_starts_example :
    EndedWereStarted (run turn fresh)
    × IsEligible
        (event "event_msg" (some "task_started") (some "t3"))
        (observed (event "event_msg" (some "task_started") (some "t3")) (run turn fresh))
only_explicit_starts_example =
    only_explicit_starts turn (event "event_msg" (some "task_started") (some "t3"))

abbrev text_of : Option String → String
text_of none = ""
text_of (some text) = text

-- A fingerprint that reads one field of the record.
abbrev by_text : Fields → String
by_text fields = text_of (as_str (get "text" fields))

abbrev at_three : String → Fields
at_three text = field "ordinal" (int false 3) (field "text" (str text) end)

admitted_once_example :
    admit by_text (at_three "b") none (admit_all by_text [] ((3, "a") ∷ [])) ≡ changed
unfolding admit find_fingerprint get
admitted_once_example =
    admitted_once by_text (at_three "a") none 3 [] ((3, "a") ∷ []) [] (at_three "b") (some 9) refl
      refl refl
