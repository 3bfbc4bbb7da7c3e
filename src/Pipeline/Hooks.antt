-- ===== src/Pipeline/Hooks.antt =====
-- interaction_pipeline.py: the hooks of _execute, and the check of what each makes of a request. What
-- json.loads makes of a payload is the parameter `decode`.
use codex_tmux_session_manag.Common.{
  String, Bool, true, false, not, ◌&&◌, ◌||◌, Option, List, [], ◌∷◌, ◌==◌, nat_eq, string_eq,
  option_eq, if◌then◌else◌, ◌⊎◌, inl, inr,
}
use codex_tmux_session_manag.Common.Json.{Value}
use codex_tmux_session_manag.Pipeline.{
  Operation, message, display_state, protocol_input, protocol_output, terminal_input,
  terminal_output, interactive_input, submitted_command, input_configuration_error, input_release,
  select_presentation_policy, open_pane, locate, focus, resize, close_pane, steer, interrupt,
  Payload, Request, Refusal, unspecified, validate_request, is_bytes,
}
use codex_tmux_session_manag.Pipeline.Structure.{same_raw, same_structure}

-- the value of the enumeration, by which StrEnum compares
abbrev pub value_of : Operation → String
value_of message = "message"
value_of display_state = "display_state"
value_of protocol_input = "protocol_input"
value_of protocol_output = "protocol_output"
value_of terminal_input = "terminal_input"
value_of terminal_output = "terminal_output"
value_of interactive_input = "interactive_input"
value_of submitted_command = "submitted_command"
value_of input_configuration_error = "input_configuration_error"
value_of input_release = "input_release"
value_of select_presentation_policy = "select_presentation_policy"
value_of open_pane = "open"
value_of locate = "locate"
value_of focus = "focus"
value_of resize = "resize"
value_of close_pane = "close"
value_of steer = "steer"
value_of interrupt = "interrupt"

-- What a callback raises: an InteractionRejected, a UserPromptHookError, an
-- InteractionDeliveryIndeterminate, or another exception.
pub data Fault : Type 0 where
  rejection : Refusal → Fault
  prompt_error : Fault
  indeterminate_delivery : Fault
  other_exception : Fault

pub data HookResult : Type 0 where
  raises : Fault → HookResult
  no_request : HookResult
  request : Request → HookResult

abbrev pub Hook : Type 0
Hook = Request → HookResult

abbrev pub same_flag : Bool → Bool → Bool
same_flag true b = b
same_flag false b = not b

abbrev pub same_authority : Request → Request → Bool
same_authority r s =
    r.expected_turn_id == s.expected_turn_id
    && r.expected_thread_id == s.expected_thread_id
    && r.expected_binding == s.expected_binding
    && r.dispatch_id == s.dispatch_id
    && r.request_id == s.request_id

-- replace(transformed, text=original.text, payload=original.payload) == original
abbrev pub same_intent : Request → Request → Bool
same_intent r s =
    r.target == s.target
    && value_of r.operation == value_of s.operation
    && r.source == s.source
    && same_flag r.start_model_turn s.start_model_turn
    && same_flag r.open_if_missing s.open_if_missing
    && r.size_percent == s.size_percent
    && same_authority r s

abbrev pub is_protocol : Operation → Bool
is_protocol protocol_input = true
is_protocol protocol_output = true
is_protocol _ = false

abbrev pub is_input : Operation → Bool
is_input protocol_input = true
is_input _ = false

abbrev pub is_terminal : Operation → Bool
is_terminal terminal_input = true
is_terminal terminal_output = true
is_terminal _ = false

module _ (decode : Payload → Option Value) where
  abbrev pub payload_ok : Operation → Option Payload → Option Payload → Bool
  payload_ok op before after =
      if is_terminal op
      then is_bytes after
      else is_protocol op && same_structure decode before after

  -- _validate_transform; false is an InteractionRejected
  unfoldable pub validate_transform : Request → Request → Bool
  unfolding same_structure
  validate_transform original transformed =
      same_intent transformed original
      && (same_raw original.payload transformed.payload
          || payload_ok original.operation original.payload transformed.payload)

  -- the loop over the hooks, on what the hooks before have made of the original
  unfoldable pub run_hooks : (String → Bool) → List Hook → Request → Request → Fault ⊎ Request
  unfolding validate_request validate_transform
  run_hooks blank [] original current = inr current
  run_hooks blank (hook ∷ hooks) original current = elim (hook current) [
    | raises fault ↦ inl fault
    | no_request ↦ inl (rejection unspecified)
    | request transformed ↦
        let rest = run_hooks blank hooks original transformed in
        if validate_transform original transformed && validate_request blank transformed
        then rest
        else inl (rejection unspecified)
  ]
