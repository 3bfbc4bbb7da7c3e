-- ===== src/Pipeline/Content.antt =====
-- What the hooks of interaction_pipeline.py leave of a request, from execute_request to its target.
use mathlib.Core.Path.{subst}
use codex_tmux_session_manag.Common.{
  String, ◌≡◌, ◌∙◌, refl, sym, ap, Bool, true, false, not, ◌&&◌, ◌||◌, Option, none, some, List, [],
  ◌∷◌, ◌==◌, nat_eq, string_eq, option_eq, if◌then◌else◌, is_none, is_some, arith, text_eq_iff,
  eq_iff, if_intro, ◌⊎◌, inl, inr, both,
}
use codex_tmux_session_manag.Common.Json.{Value}
use codex_tmux_session_manag.Pipeline.{
  Operation, message, display_state, protocol_input, protocol_output, terminal_input,
  terminal_output, interactive_input, submitted_command, input_configuration_error, input_release,
  select_presentation_policy, open_pane, locate, focus, resize, close_pane, steer, interrupt,
  Payload, Request, unspecified, Before, After, Admitted, admitted, First, refused, goes_on, Second,
  rejected, is_accepted, open_refused, delivered, validate_request, model_operation, is_lookup,
  still_exists, resolve, send, open_target, deliver,
}
use codex_tmux_session_manag.Pipeline.Hooks.{
  value_of, same_flag, same_authority, Fault, rejection, HookResult, raises, no_request, request,
  Hook, same_intent, validate_transform, run_hooks,
}
use codex_tmux_session_manag.Pipeline.Execution.{
  InputHook, Setting, hook_for, has_any, prompted, with_payload, finish, after_hooks, after_prompt,
  proceed, execute_request,
}
use codex_tmux_session_manag.Pipeline.Authority.{
  Resolved, resolve-Resolved, Delivers, deliver-Delivers, Authorised, authorised,
}

abbrev of_value : String → Operation
of_value text =
    if text == "message"
    then message
    else if text == "display_state"
    then display_state
    else if text == "protocol_input"
    then protocol_input
    else if text == "protocol_output"
    then protocol_output
    else if text == "terminal_input"
    then terminal_input
    else if text == "terminal_output"
    then terminal_output
    else if text == "interactive_input"
    then interactive_input
    else if text == "submitted_command"
    then submitted_command
    else if text == "input_configuration_error"
    then input_configuration_error
    else if text == "input_release"
    then input_release
    else if text == "select_presentation_policy"
    then select_presentation_policy
    else if text == "open"
    then open_pane
    else if text == "locate"
    then locate
    else if text == "focus"
    then focus
    else if text == "resize"
    then resize
    else if text == "close"
    then close_pane
    else if text == "steer"
    then steer
    else interrupt

of_value-value_of : (op : Operation) → of_value (value_of op) ≡ op
of_value-value_of op = elim op as (λ k. of_value (value_of k) ≡ k) [
  | message ↦ refl
  | display_state ↦ refl
  | protocol_input ↦ refl
  | protocol_output ↦ refl
  | terminal_input ↦ refl
  | terminal_output ↦ refl
  | interactive_input ↦ refl
  | submitted_command ↦ refl
  | input_configuration_error ↦ refl
  | input_release ↦ refl
  | select_presentation_policy ↦ refl
  | open_pane ↦ refl
  | locate ↦ refl
  | focus ↦ refl
  | resize ↦ refl
  | close_pane ↦ refl
  | steer ↦ refl
  | interrupt ↦ refl
]

value_of_injective : (a b : Operation) → value_of a ≡ value_of b → a ≡ b
value_of_injective a b e = sym (of_value-value_of a) ∙ ap of_value e ∙ of_value-value_of b

-- The same target, operation, source, intent and identity, whatever the content and the binding.
abbrev pub Kept : Request → Request → Type 0
Kept r s =
    (s.target ≡ r.target)
    × (s.operation ≡ r.operation)
    × (s.source ≡ r.source)
    × (s.start_model_turn ≡ r.start_model_turn)
    × (s.open_if_missing ≡ r.open_if_missing)
    × (s.expected_turn_id ≡ r.expected_turn_id)
    × (s.dispatch_id ≡ r.dispatch_id)
    × (s.request_id ≡ r.request_id)

same_flag-eq : (a b : Bool) → same_flag a b ≡ true → a ≡ b
same_flag-eq true b h = sym h
same_flag-eq false b h = ground arith

same_intent-Kept :
    (r s : Request) → same_intent s r ≡ true → Kept r s × (s.expected_binding ≡ r.expected_binding)
same_intent-Kept r s h =
    let (h1, authority) = both {b = same_authority s r} h in
    let (h2, size) = both {b = s.size_percent == r.size_percent} h1 in
    let (h3, missing) = both {b = same_flag s.open_if_missing r.open_if_missing} h2 in
    let (h4, turn) = both {b = same_flag s.start_model_turn r.start_model_turn} h3 in
    let (h5, source) = both {b = s.source == r.source} h4 in
    let (target, operation) = both {b = value_of s.operation == value_of r.operation} h5 in
    let (a1, id) = both {b = s.request_id == r.request_id} authority in
    let (a2, dispatch) = both {b = s.dispatch_id == r.dispatch_id} a1 in
    let (a3, binding) = both {b = s.expected_binding == r.expected_binding} a2 in
    let (turn_id, thread_id) = both {b = s.expected_thread_id == r.expected_thread_id} a3 in
    (
      (
        (eq_iff s.target r.target).0 target,
        value_of_injective s.operation r.operation
            ((eq_iff (value_of s.operation) (value_of r.operation)).0 operation),
        (eq_iff s.source r.source).0 source,
        same_flag-eq s.start_model_turn r.start_model_turn turn,
        same_flag-eq s.open_if_missing r.open_if_missing missing,
        (text_eq_iff s.expected_turn_id r.expected_turn_id).0 turn_id,
        (text_eq_iff s.dispatch_id r.dispatch_id).0 dispatch,
        (eq_iff s.request_id r.request_id).0 id,
      ),
      (text_eq_iff s.expected_binding r.expected_binding).0 binding,
    )

abbrev Keeps : Request → Fault ⊎ Request → Type 0
Keeps r (inl fault) = Unit
Keeps r (inr s) = Kept r s × (s.expected_binding ≡ r.expected_binding)

same : (r : Request) → Kept r r × (r.expected_binding ≡ r.expected_binding)
same r = ((refl, refl, refl, refl, refl, refl, refl, refl), refl)

prompted-Keeps : (hook : Option InputHook) (r : Request) → Keeps r (prompted hook r)
prompted-Keeps none r = same r
prompted-Keeps (some hook) r = by_result (hook r.payload)
  where
    by_result : (o : Fault ⊎ Option Payload) → Keeps r (with_payload r o)
    by_result (inl fault) = tt
    by_result (inr payload) = same r

run_hooks-Keeps :
    (decode : Payload → Option Value) (blank : String → Bool) (hooks : List Hook) (r s : Request)
    → Keeps r (inr s)
    → Keeps r (run_hooks decode blank hooks r s)
unfolding run_hooks validate_transform
run_hooks-Keeps decode blank [] r s h = h
run_hooks-Keeps decode blank (hook ∷ hooks) r s h =
    by_result (hook s) refl (λ t k. run_hooks-Keeps decode blank hooks r t k)
  where
    by_result :
        (o : HookResult)
        → hook s ≡ o
        → ((t : Request) → Keeps r (inr t) → Keeps r (run_hooks decode blank hooks r t))
        → Keeps r (run_hooks decode blank (hook ∷ hooks) r s)
    by_result (raises fault) e next = rw (run_hooks, e) tt
    by_result no_request e next = rw (run_hooks, e) tt
    by_result (request t) e next =
        rw (run_hooks, e)
          (if_intro (Keeps r) (validate_transform decode r t && validate_request blank t)
            (run_hooks decode blank hooks r t) (inl (rejection unspecified))
            (λ ok. next t (same_intent-Kept r t (intent_of ok))) (λ _. tt))
      where
        intent_of :
            validate_transform decode r t && validate_request blank t ≡ true
            → same_intent t r ≡ true
        intent_of ok =
            (both {a = same_intent t r} (both {a = validate_transform decode r t} ok).0).0

Keeps-trans : (q t : Request) (o : Fault ⊎ Request) → Keeps q (inr t) → Keeps t o → Keeps q o
Keeps-trans q t (inl fault) h k = tt
Keeps-trans q t (inr s) ((h1, h2, h3, h4, h5, h6, h7, h8), h)
      ((k1, k2, k3, k4, k5, k6, k7, k8), k) =
    ((k1 ∙ h1, k2 ∙ h2, k3 ∙ h3, k4 ∙ h4, k5 ∙ h5, k6 ∙ h6, k7 ∙ h7, k8 ∙ h8), k ∙ h)

abbrev Delivered : Request → Second → Type 0
Delivered r (delivered s) = Kept r s
Delivered r _ = Unit

send-Delivered :
    (r t : Request) (binding : Option String) (a : Admitted) (w : After)
    → Kept r t
    → Delivered r (send t binding a w)
send-Delivered r t binding a w k =
    if_intro (Delivered r)
      (not w.registered_at_last
        || not (w.binding_at_last == binding)
        || (model_operation a.request && not (w.model_thread_at_last == a.bound_thread_id)))
      rejected (delivered t) (λ _. tt) (λ _. k)

open_target-Delivered :
    (r t : Request) (a : Admitted) (w : After) → Kept r t → Delivered r (open_target t a w)
open_target-Delivered r t a w k =
    if_intro (Delivered r) (a.target_exists || not a.request.open_if_missing || not w.can_open) _ _
      (λ _. tt)
      (λ _.
        if_intro (Delivered r) (not (is_accepted w.opened)) _ _ (λ _. tt)
          (λ _.
            if_intro (Delivered r) (not w.exists_opened) _ _ (λ _. tt)
              (λ _.
                if_intro (Delivered r) (is_none a.binding) _ _
                  (λ _.
                    send-Delivered r (record t { expected_binding = w.binding_opened })
                      w.binding_opened a w k)
                  (λ _. send-Delivered r t a.binding a w k))))

deliver-Delivered :
    (r t : Request) (a : Admitted) (w : After) → Kept r t → Delivered r (deliver t a w)
unfolding deliver
deliver-Delivered r t a w k =
    if_intro (Delivered r)
      (not w.still_registered
        || (model_operation a.request && not (w.model_thread_after_hooks == a.bound_thread_id)))
      _ _ (λ _. tt)
      (λ _.
        if_intro (Delivered r) (not (still_exists a w) && not (is_lookup a.request.operation)) _ _
          (λ _. open_target-Delivered r t a w k) (λ _. send-Delivered r t a.binding a w k))

-- What is given to the target, if anything is.
abbrev Sends : Setting → Request → Before → After → Option Request → Type 0
Sends g r w w' none = Unit
Sends g r w w' (some s) = Authorised g.blank r w w' s × Kept r s

module _ (g : Setting) (r : Request) (w : Before) (w' : After)
    (h : Resolved g.blank r w (goes_on (admitted r w))) where
  after_hooks-Sends :
      (o : Fault ⊎ Request)
      → Keeps (admitted r w).request o
      → Sends g r w w' (after_hooks g (admitted r w) w' o).sent
  after_hooks-Sends (inl fault) k = tt
  after_hooks-Sends (inr t) (kept, binding) =
      by_second (deliver t (admitted r w) after) (deliver-Delivered r t (admitted r w) after kept)
        (deliver-Delivers t (admitted r w) after binding)
    where
      after : After
      after = record w' { hooked = has_any g.hooks || is_some (hook_for r.operation g.input_hook) }

      by_second :
          (o : Second)
          → Delivered r o
          → Delivers t (admitted r w) after o
          → Sends g r w w' (finish g after o).sent
      by_second rejected d e = tt
      by_second open_refused d e = tt
      by_second (delivered s) d e = (authorised g.blank r w w' (admitted r w) s h e, d)

  after_prompt-Sends :
      (o : Fault ⊎ Request)
      → Keeps (admitted r w).request o
      → Sends g r w w' (after_prompt g (admitted r w) w' o).sent
  after_prompt-Sends (inl fault) k = tt
  after_prompt-Sends (inr t) k = after_hooks-Sends (run_hooks g.decode g.blank g.hooks t t) (
      Keeps-trans (admitted r w).request t (run_hooks g.decode g.blank g.hooks t t) k
        (run_hooks-Keeps g.decode g.blank g.hooks t t (same t)))

proceed-Sends :
    (g : Setting) (r : Request) (w : Before) (w' : After) (f : First)
    → Resolved g.blank r w f
    → Sends g r w w' (proceed g w' f).sent
proceed-Sends g r w w' (refused reason) h = tt
proceed-Sends g r w w' (goes_on a) (valid, known, supported, bound, model, same_as) =
    subst (λ (b : Admitted). Sends g r w w' (proceed g w' (goes_on b)).sent) (sym same_as)
      (after_prompt-Sends g r w w' (valid, known, supported, bound, model, refl)
        (prompted (hook_for r.operation g.input_hook) (admitted r w).request)
        (prompted-Keeps (hook_for r.operation g.input_hook) (admitted r w).request))

-- Whatever the hooks are, a request that is given to the target is the one that was asked for, in its
-- target, operation, source, intent and identity, and reaches it with its authority: it is valid, its
-- target was and still is registered, the binding that it carries is the target's at that moment, and
-- for a model operation the target's thread is the same before and after the hooks and the one that
-- the sender expected, if any.
pub sent-Authorised :
    (g : Setting) (r : Request) (w : Before) (w' : After) (s : Request)
    → (execute_request g r w w').sent ≡ some s
    → Authorised g.blank r w w' s × Kept r s
unfolding execute_request
sent-Authorised g r w w' s e =
    subst (Sends g r w w') e
      (proceed-Sends g r w w' (resolve g.blank r w) (resolve-Resolved g.blank r w))
