-- ===== src/Pipeline/Examples.antt =====
-- A steer through the pipeline (interaction_pipeline.py).
use codex_tmux_session_manag.Common.{
  String, refl, Bool, true, false, none, some, ◌==◌, string_eq, ◌||◌,
}
use codex_tmux_session_manag.Common.{◌≡◌, Option, [], ◌∷◌, inl, inr, nat_eq, if◌then◌else◌}
use codex_tmux_session_manag.Common.Json.{Value, int, str, obj, end, field, get}
use codex_tmux_session_manag.Common.Dict.{lookup, insert, without}
use codex_tmux_session_manag.Pipeline.Structure.{same_structure}
use codex_tmux_session_manag.Pipeline.Hooks.{HookResult, request, run_hooks, rejection}
use codex_tmux_session_manag.Pipeline.Controls.{control, control_of, run_hooks-control}
use codex_tmux_session_manag.Pipeline.Execution.{Setting, execute_request, execute}
use codex_tmux_session_manag.Pipeline.Content.{Kept, sent-Authorised}
use codex_tmux_session_manag.Pipeline.Outcomes.{IsHonest, execute-IsHonest}
use codex_tmux_session_manag.Pipeline.Registry.{Target, register, unregister, unregister-register}
use codex_tmux_session_manag.Pipeline.{
  protocol_input, unspecified, Payload, text_payload, bytes_payload, completed, Request, Before,
  After, steer, failed,
}
use codex_tmux_session_manag.Pipeline.Authority.{Authorised}

abbrev blank : String → Bool
blank text = text == "" || text == " "

abbrev steering : Request
steering = record {
  target = "main";
  operation = steer;
  source = "context-threshold-steer";
  text = some "wind up";
  start_model_turn = false;
  payload = none;
  open_if_missing = false;
  size_percent = none;
  dispatch_id = some "d1";
  expected_turn_id = some "turn";
  expected_thread_id = some "thread";
  expected_binding = none;
  request_id = "r1";
}

abbrev before : Before
before = record {
  registered = true;
  supports = λ _. true;
  exists = true;
  binding_identity = some "pane";
  model_thread_id = some "thread";
}

abbrev after : After
after = record {
  still_registered = true;
  model_thread_after_hooks = some "thread";
  hooked = false;
  exists_after_hooks = true;
  can_open = false;
  opened = failed;
  exists_opened = false;
  binding_opened = none;
  registered_at_last = true;
  binding_at_last = some "pane";
  model_thread_at_last = some "thread";
}

-- A protocol request through a hook that rewrites its text.
abbrev message_of : String → Value
message_of text = obj (
    field "method" (str "turn/start") (
      field "id" (int false 7)
        (field "params" (obj (field "threadId" (str "thread") (field "text" (str text) end))) end)))

abbrev decode : Payload → Option Value
decode (text_payload text) = some (message_of text)
decode (bytes_payload text) = none

abbrev protocol_request : Request
protocol_request = record steering {
  operation = protocol_input;
  text = none;
  payload = some (text_payload "hello");
  expected_turn_id = none;
  expected_thread_id = none;
}

abbrev shout : Request → HookResult
shout r = request (record r { payload = some (text_payload "HELLO") })

abbrev retarget : Request → HookResult
retarget r = request (record r { target = "other" })

abbrev setting : Setting
setting = record {
  blank = blank;
  decode = decode;
  hooks = shout ∷ [];
  input_hook = none;
  reply = λ r. inr completed;
}

abbrev open_world : Before
open_world = record before { model_thread_id = none }

abbrev sent_request : Request
sent_request = record protocol_request {
  payload = some (text_payload "HELLO");
  expected_binding = some "pane";
}

run_shouts : (execute_request setting protocol_request open_world after).sent ≡ some sent_request
unfolding execute_request same_structure
run_shouts = refl

run_retargets :
    (execute_request
      (record setting { hooks = retarget ∷ [] })
      protocol_request
      open_world
      after).sent
    ≡ none
unfolding execute_request same_structure
run_retargets = refl

sent-Authorised_example :
    Authorised blank protocol_request open_world after sent_request
    × Kept protocol_request sent_request
sent-Authorised_example =
    sent-Authorised setting protocol_request open_world after sent_request run_shouts

run_hooks-control_example :
    control_of decode ("id" ∷ []) (some (text_payload "HELLO")) ≡ some (int false 7)
unfolding run_hooks same_structure control get
run_hooks-control_example =
    run_hooks-control decode blank (shout ∷ []) ("id" ∷ []) protocol_request
      (record protocol_request { payload = some (text_payload "HELLO") }) (int false 7) refl refl
      refl

-- A hook that changes the numeric identity of an RPC is refused.
abbrev decode_id : Payload → Option Value
decode_id (text_payload text) =
    some (obj (field "id" (int false (if text == "a" then 1 else 2)) end))
decode_id (bytes_payload text) = none

abbrev numbered_request : Request
numbered_request = record protocol_request { payload = some (text_payload "a") }

abbrev renumber : Request → HookResult
renumber r = request (record r { payload = some (text_payload "b") })

run_renumbers :
    run_hooks decode_id blank (renumber ∷ []) numbered_request numbered_request
    ≡ inl (rejection unspecified)
unfolding run_hooks same_structure get
run_renumbers = refl

execute-IsHonest_example :
    IsHonest setting protocol_request open_world after []
      (execute setting protocol_request open_world after [])
execute-IsHonest_example = execute-IsHonest setting protocol_request open_world after []

abbrev pane : Target
pane = record { serial = 1; name = "main"; runtime_identity = "%1" }

abbrev replacement : Target
replacement = record { serial = 2; name = "main"; runtime_identity = "%2" }

unregister-register_example :
    ((name : String) → lookup name (unregister pane (("main", pane) ∷ [])) ≡ lookup name [])
    × ((u : Target)
        → (1 == u.serial) ≡ false
        → lookup "main" (unregister u (("main", pane) ∷ [])) ≡ some pane)
unfolding register insert without
unregister-register_example = unregister-register pane [] (("main", pane) ∷ []) refl
