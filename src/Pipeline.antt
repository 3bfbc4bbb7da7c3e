-- ===== src/Pipeline.antt =====
-- rodex/interaction_pipeline.py: the validation of a request, and the two halves of _execute, before
-- and after the hooks. What the target and the registry answer to the code's calls, one after the
-- other, is given as a record; whether a text is blank is Python's own, a parameter.
mod Structure
mod Controls
mod Hooks
mod Execution
mod Registry
mod Authority
mod Content
mod Outcomes
mod Examples
use codex_tmux_session_manag.Common.{
  ℕ, String, Bool, true, false, not, ◌&&◌, ◌||◌, Option, none, some, ◌==◌, nat_eq, string_eq,
  option_eq, if◌then◌else◌, leb, is_none, is_some,
}

pub data Operation : Type 0 where
  message display_state protocol_input protocol_output terminal_input terminal_output
        interactive_input submitted_command input_configuration_error input_release
        select_presentation_policy open_pane locate focus resize close_pane steer interrupt :
      Operation

pub data Payload : Type 0 where
  text_payload : String → Payload
  bytes_payload : String → Payload

pub record Request : Type 0 where
  pub target : String
  pub operation : Operation
  pub source : String
  pub text : Option String
  pub start_model_turn : Bool
  pub payload : Option Payload
  pub open_if_missing : Bool
  pub size_percent : Option ℕ
  pub dispatch_id : Option String
  pub expected_turn_id : Option String
  pub expected_thread_id : Option String
  pub expected_binding : Option String
  pub request_id : String

abbrev pub is_lookup : Operation → Bool
is_lookup open_pane = true
is_lookup locate = true
is_lookup _ = false

abbrev pub is_turn_operation : Operation → Bool
is_turn_operation steer = true
is_turn_operation interrupt = true
is_turn_operation _ = false

abbrev pub is_open : Operation → Bool
is_open open_pane = true
is_open _ = false

abbrev nonempty : Option String → Bool
nonempty none = false
nonempty (some text) = not (text == "")

abbrev pub is_bytes : Option Payload → Bool
is_bytes (some (bytes_payload _)) = true
is_bytes _ = false

abbrev is_text : Option Payload → Bool
is_text (some (text_payload _)) = true
is_text _ = false

abbrev is_percentage : Option ℕ → Bool
is_percentage none = false
is_percentage (some n) = leb 1 n && leb n 99

module _ (blank : String → Bool) where
  abbrev pub says : Option String → Bool
  says none = false
  says (some text) = not (blank text)

  -- the tests of one operation
  abbrev pub operation_ok : Operation → Request → Bool
  operation_ok message r = nonempty r.text && (not r.start_model_turn || says r.text)
  operation_ok steer r = not r.start_model_turn && says r.expected_turn_id && says r.text
  operation_ok interrupt r = not r.start_model_turn && says r.expected_turn_id
  operation_ok resize r = not r.start_model_turn && is_percentage r.size_percent
  operation_ok terminal_input r = not r.start_model_turn && is_bytes r.payload
  operation_ok terminal_output r = not r.start_model_turn && is_bytes r.payload
  operation_ok interactive_input r = not r.start_model_turn && is_some r.text
  operation_ok submitted_command r = not r.start_model_turn && is_some r.text
  operation_ok input_configuration_error r = not r.start_model_turn && is_some r.text
  operation_ok input_release r = not r.start_model_turn && is_some r.text
  operation_ok select_presentation_policy r = not r.start_model_turn && is_text r.payload
  operation_ok _ r = not r.start_model_turn

  -- _validate_request; false is an InteractionRejected
  unfoldable pub validate_request : Request → Bool
  validate_request r = not (r.target == "") && not (r.source == "") && operation_ok r.operation r

abbrev pub model_operation : Request → Bool
model_operation r = r.start_model_turn || is_turn_operation r.operation

-- What the registry and the target answer before the hooks.
pub record Before : Type 0 where
  pub registered : Bool
  pub supports : Operation → Bool
  pub exists : Bool
  pub binding_identity : Option String
  pub model_thread_id : Option String

pub data Refusal : Type 0 where
  unspecified model_thread_unbound : Refusal

-- What the second half goes on with: what the locals hold.
pub record Admitted : Type 0 where
  pub request : Request
  pub target_exists : Bool
  pub binding : Option String
  pub bound_thread_id : Option String

pub data First : Type 0 where
  refused : Refusal → First
  goes_on : Admitted → First

abbrev pub bound_thread : Request → Before → Option String
bound_thread r w = if model_operation r then w.model_thread_id else none

abbrev pub admitted : Request → Before → Admitted
admitted r w = record {
  request = record r {
    expected_binding = w.binding_identity;
    expected_thread_id = if model_operation r then w.model_thread_id else none;
  };
  target_exists = is_lookup r.operation || w.exists;
  binding = w.binding_identity;
  bound_thread_id = if model_operation r then w.model_thread_id else none;
}

abbrev pub stale : Option String → Option String → Bool
stale expected actual = is_some expected && not (expected == actual)

-- _execute, before the hooks
unfoldable pub resolve : (String → Bool) → Request → Before → First
resolve blank r w =
    if not (validate_request blank r) || not w.registered || not (w.supports r.operation)
    then refused unspecified
    else if stale r.expected_binding w.binding_identity
    then refused unspecified
    else if model_operation r && is_none w.model_thread_id
    then refused model_thread_unbound
    else if stale r.expected_thread_id (bound_thread r w)
    then refused unspecified
    else if not (is_lookup r.operation || w.exists)
        && not (r.open_if_missing || is_open r.operation)
    then refused unspecified
    else goes_on (admitted r w)

pub data Status : Type 0 where
  completed delivered_status queued model_turn_started rejected_status failed indeterminate : Status

-- InteractionResult.accepted
abbrev pub is_accepted : Status → Bool
is_accepted rejected_status = false
is_accepted failed = false
is_accepted indeterminate = false
is_accepted _ = true

-- What they answer after the hooks, in the order of the calls.
pub record After : Type 0 where
  pub still_registered : Bool
  pub model_thread_after_hooks : Option String
  pub hooked : Bool  -- whether there are hooks, so that existence is asked again
  pub exists_after_hooks : Bool
  pub can_open : Bool
  pub opened : Status
  pub exists_opened : Bool
  pub binding_opened : Option String
  pub registered_at_last : Bool
  pub binding_at_last : Option String
  pub model_thread_at_last : Option String

pub data Second : Type 0 where
  rejected : Second
  open_refused : Second
  delivered : Request → Second

-- the last checks before target.deliver
abbrev pub send : Request → Option String → Admitted → After → Second
send r binding a w =
    if not w.registered_at_last
      || not (w.binding_at_last == binding)
      || (model_operation a.request && not (w.model_thread_at_last == a.bound_thread_id))
    then rejected
    else delivered r

abbrev rebound : Request → Admitted → After → Second
rebound r a w =
    if is_none a.binding
    then send (record r { expected_binding = w.binding_opened }) w.binding_opened a w
    else send r a.binding a w

abbrev pub open_target : Request → Admitted → After → Second
open_target r a w =
    if a.target_exists || not a.request.open_if_missing || not w.can_open
    then rejected
    else if not (is_accepted w.opened)
    then open_refused
    else if not w.exists_opened
    then rejected
    else rebound r a w

abbrev pub still_exists : Admitted → After → Bool
still_exists a w =
    if is_lookup a.request.operation || not w.hooked then a.target_exists else w.exists_after_hooks

-- _execute, after the hooks have made r of the admitted request
unfoldable pub deliver : Request → Admitted → After → Second
deliver r a w =
    if not w.still_registered
      || (model_operation a.request && not (w.model_thread_after_hooks == a.bound_thread_id))
    then rejected
    else if not (still_exists a w) && not (is_lookup a.request.operation)
    then open_target r a w
    else send r a.binding a w
