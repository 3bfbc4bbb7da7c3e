-- ===== src/Pipeline/Execution.antt =====
-- interaction_pipeline.py: _execute from end to end, and execute with the record of each outcome. The
-- calls of the registry and the target before the delivery answer as they are told; what a hook and the
-- delivery itself raise is told apart.
use codex_tmux_session_manag.Common.{
  String, Bool, true, false, Option, none, some, List, [], ◌∷◌, ◌⊎◌, inl, inr, ◌||◌, is_some, take,
}
use codex_tmux_session_manag.Common.Json.{Value}
use codex_tmux_session_manag.Pipeline.{
  Operation, Payload, Request, Refusal, unspecified, Before, After, Admitted, First, refused,
  goes_on, Second, rejected, open_refused, delivered, Status, rejected_status, failed,
  indeterminate, resolve, deliver,
}
use codex_tmux_session_manag.Pipeline.Hooks.{
  Fault, rejection, prompt_error, indeterminate_delivery, other_exception, Hook, run_hooks,
  is_input,
}

abbrev pub InputHook : Type 0
InputHook = Option Payload → Fault ⊎ Option Payload

pub data Ended : Type 0 where
  faulted : Fault → Ended
  returned : Status → Ended

-- How an execution ended, and the request that was given to the target, if one was.
pub record Run : Type 0 where
  pub ended : Ended
  pub sent : Option Request

abbrev pub not_sent : Fault → Run
not_sent fault = record { ended = faulted fault; sent = none }

abbrev pub answer : Fault ⊎ Status → Ended
answer (inl fault) = faulted fault
answer (inr status) = returned status

abbrev pub hook_for : Operation → Option InputHook → Option InputHook
hook_for op hook = elim (is_input op) [ true ↦ hook | false ↦ none ]

abbrev pub with_payload : Request → Fault ⊎ Option Payload → Fault ⊎ Request
with_payload r (inl fault) = inl fault
with_payload r (inr payload) = inr (record r { payload = payload })

abbrev pub prompted : Option InputHook → Request → Fault ⊎ Request
prompted none r = inr r
prompted (some hook) r = with_payload r (hook r.payload)

abbrev pub has_any {ℓ} : {A : Type ℓ} → List A → Bool
has_any [] = false
has_any (x ∷ xs) = true

-- What the code around a request knows: the hooks, and what the target makes of a delivery.
pub record Setting : Type 0 where
  pub blank : String → Bool
  pub decode : Payload → Option Value
  pub hooks : List Hook
  pub input_hook : Option InputHook
  pub reply : Request → Fault ⊎ Status

abbrev pub finish : Setting → After → Second → Run
finish g w rejected = not_sent (rejection unspecified)
finish g w open_refused = record { ended = returned w.opened; sent = none }
finish g w (delivered r) = record { ended = answer (g.reply r); sent = some r }

abbrev pub after_hooks : Setting → Admitted → After → Fault ⊎ Request → Run
after_hooks g a w (inl fault) = not_sent fault
after_hooks g a w (inr r) = finish g w (
    deliver r a (record w {
      hooked = has_any g.hooks || is_some (hook_for a.request.operation g.input_hook);
    }))

abbrev pub after_prompt : Setting → Admitted → After → Fault ⊎ Request → Run
after_prompt g a w (inl fault) = not_sent fault
after_prompt g a w (inr r) = after_hooks g a w (run_hooks g.decode g.blank g.hooks r r)

abbrev pub proceed : Setting → After → First → Run
proceed g w (refused reason) = not_sent (rejection reason)
proceed g w (goes_on a) =
    after_prompt g a w (prompted (hook_for a.request.operation g.input_hook) a.request)

-- _execute
unfoldable pub execute_request : Setting → Request → Before → After → Run
unfolding resolve run_hooks deliver
execute_request g r w w' = proceed g w' (resolve g.blank r w)

-- What execute returns or raises.
pub data Answer : Type 0 where
  answers : Status → Option Refusal → Answer
  raises_again : Fault → Answer

abbrev pub answer_of : Ended → Answer
answer_of (returned status) = answers status none
answer_of (faulted (rejection reason)) = answers rejected_status (some reason)
answer_of (faulted prompt_error) = answers rejected_status none
answer_of (faulted fault) = raises_again fault

abbrev pub status_of : Ended → Status
status_of (returned status) = status
status_of (faulted (rejection reason)) = rejected_status
status_of (faulted prompt_error) = rejected_status
status_of (faulted indeterminate_delivery) = indeterminate
status_of (faulted other_exception) = failed

pub record Record : Type 0 where
  pub request_id : String
  pub target : String
  pub source : String
  pub operation : Operation
  pub start_model_turn : Bool
  pub status : Status

abbrev pub record_of : Request → Status → Record
record_of r status = record {
  request_id = r.request_id;
  target = r.target;
  source = r.source;
  operation = r.operation;
  start_model_turn = r.start_model_turn;
  status = status;
}

-- _record: a deque of the 256 newest, the newest first
unfoldable pub remember : Record → List Record → List Record
remember entry records = take 256 (entry ∷ records)

-- execute
unfoldable pub execute : Setting → Request → Before → After → List Record → Answer × List Record
unfolding execute_request remember
execute g r w w' records =
    let run = execute_request g r w w' in
    (answer_of run.ended, remember (record_of r (status_of run.ended)) records)
