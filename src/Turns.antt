-- ===== src/Turns.antt =====
-- rodex/rollout_turn_lifecycle.py: the admission of rollout records by their source coordinate,
-- and the turn context that a sequence of records carries.
mod Laws
mod Admission
mod Examples
use codex_tmux_session_manag.Common.{
  ℕ, String, Bool, true, false, not, ◌&&◌, ◌||◌, Option, none, some, List, [], ◌∷◌, ◌==◌, nat_eq,
  string_eq, text_eq_iff, option_eq, is_none, is_some, if◌then◌else◌,
}
use codex_tmux_session_manag.Common.Json.{Value, int, Fields, get}
use codex_tmux_session_manag.Common.Dict.{member, add}

-- self.fingerprints, from the coordinate of a record to what it was admitted as
abbrev pub Fingerprints : Type 0
Fingerprints = List (ℕ × String)

unfoldable pub find_fingerprint : ℕ → Fingerprints → Option String
find_fingerprint k [] = none
find_fingerprint k ((j, f) ∷ fs) = if j == k then some f else find_fingerprint k fs

abbrev supplied : Option Value → Option ℕ → Option ℕ
supplied (some (int false n)) physical = some n
supplied _ physical = physical

-- The coordinate of a record: its own ordinal, if that is a number from 0 up, or the physical one.
abbrev pub ordinal_of : Fields → Option ℕ → Option ℕ
ordinal_of record_fields physical = supplied (get "ordinal" record_fields) physical

-- What `admit` does with a record: it raises ValueError, or returns a Boolean.
pub data Admitted : Type 0 where
  changed : Admitted
  answer : Bool → Fingerprints → Admitted

abbrev compared : ℕ → String → Option String → Fingerprints → Admitted
compared ordinal print none prints = answer true ((ordinal, print) ∷ prints)
compared ordinal print (some previous) prints =
    if previous == print then answer false prints else changed

abbrev at_ordinal : Option ℕ → String → Fingerprints → Admitted
at_ordinal none print prints = answer true prints
at_ordinal (some ordinal) print prints =
    compared ordinal print (find_fingerprint ordinal prints) prints

-- admit; `fingerprint` is the SHA-256 of the record's canonical JSON text
unfoldable pub admit : (Fields → String) → Fields → Option ℕ → Fingerprints → Admitted
admit fingerprint record_fields physical prints =
    at_ordinal (ordinal_of record_fields physical) (fingerprint record_fields) prints

pub record Observation : Type 0 where
  pub codex_turn_id : Option String
  pub lifecycle_eligible : Bool

pub record Lifecycle : Type 0 where
  pub active_turn_id : Option String
  pub started_turn_ids : List String
  pub terminal_turn_ids : List String

abbrev pub fresh : Lifecycle
fresh = record { active_turn_id = none; started_turn_ids = []; terminal_turn_ids = [] }

-- explicit_turn_id or self.active_turn_id: an empty text is no identity
abbrev pub event_turn : Option String → Option String → Option String
event_turn none active = active
event_turn (some id) active = if id == "" then active else some id

abbrev pub is_text : Option String → String → Bool
is_text value text = value == some text

abbrev pub is_start : Option String → Option String → Option String → Bool
is_start record_type payload_type id =
    is_text record_type "event_msg" && is_text payload_type "task_started" && is_some id

abbrev pub is_context : Option String → Lifecycle → Bool
is_context record_type life = is_text record_type "turn_context" && is_none life.active_turn_id

abbrev in_set : Option String → List String → Bool
in_set none ids = false
in_set (some id) ids = member id ids

abbrev pub is_terminal : Option String → Option String → Option String → Lifecycle → Bool
is_terminal record_type payload_type id life =
    is_text record_type "event_msg"
    && (is_text payload_type "task_complete" || is_text payload_type "turn_aborted")
    && in_set id life.started_turn_ids
    && not (in_set id life.terminal_turn_ids)

abbrev add_to : Option String → List String → List String
add_to none ids = ids
add_to (some id) ids = add id ids

unfoldable pub start : Option String → Lifecycle → Lifecycle
start id life = record life {
  active_turn_id = id;
  started_turn_ids = add_to id life.started_turn_ids;
}

unfoldable pub initialize : Option String → Lifecycle → Lifecycle
initialize id life = record life { active_turn_id = id }

unfoldable pub end_turn : Option String → Lifecycle → Lifecycle
end_turn id life = record life {
  active_turn_id = if life.active_turn_id == id then none else life.active_turn_id;
  terminal_turn_ids = add_to id life.terminal_turn_ids;
}

-- observe
unfoldable pub observe :
    Option String → Option String → Option String → Lifecycle → Lifecycle × Observation
observe record_type payload_type id life =
    let turn = event_turn id life.active_turn_id in
    let saw : Bool → Observation =
      λ eligible. record { codex_turn_id = turn; lifecycle_eligible = eligible } in
    if is_start record_type payload_type id
    then (start id life, saw true)
    else if is_context record_type life
    then (initialize id life, saw false)
    else if is_terminal record_type payload_type id life
    then (end_turn id life, saw true)
    else (life, saw false)
