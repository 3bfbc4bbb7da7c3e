-- ===== src/Pipeline/Outcomes.antt =====
-- What execute of interaction_pipeline.py reports and records of a request.
use mathlib.Core.Path.{subst}
use codex_tmux_session_manag.Common.{
  String, ◌≡◌, ◌∙◌, refl, sym, true, false, Option, none, some, List, ◌∷◌, if_intro, ◌⊎◌, inl, inr,
  take, is_some, is_none, not, ◌||◌, ◌&&◌, ◌==◌, string_eq, option_eq, arith,
}
use codex_tmux_session_manag.Pipeline.{
  Request, Before, After, Admitted, First, refused, goes_on, Second, rejected, open_refused,
  delivered, Status, is_accepted, resolve, deliver, is_lookup, still_exists, send, model_operation,
}
use codex_tmux_session_manag.Pipeline.Hooks.{
  Fault, rejection, prompt_error, indeterminate_delivery, other_exception, run_hooks,
}
use codex_tmux_session_manag.Pipeline.Execution.{
  Ended, faulted, returned, Run, Setting, hook_for, prompted, has_any, finish, after_hooks,
  after_prompt, proceed, execute_request, Answer, answers, raises_again, answer_of, status_of,
  Record, record_of, remember, execute, answer,
}
use codex_tmux_session_manag.Pipeline.Content.{sent-Authorised, Kept}
use codex_tmux_session_manag.Pipeline.Authority.{Authorised}

-- The end of a run that gave nothing to the target: a fault before it, or the opening's own refusal.
abbrev IsRefusal : Ended → Type 0
IsRefusal (faulted fault) = Unit
IsRefusal (returned status) = is_accepted status ≡ false

-- A run that gave a request to the target ends with the target's answer; any other with a refusal.
abbrev IsTold : Setting → Run → Type 0
IsTold g run = elim run.sent [
  | none ↦ IsRefusal run.ended
  | some s ↦ run.ended ≡ answer (g.reply s)
]

-- An opening whose result is returned was not accepted.
abbrev Opened : After → Second → Type 0
Opened w open_refused = is_accepted w.opened ≡ false
Opened w _ = Unit

deliver-Opened : (r : Request) (a : Admitted) (w : After) → Opened w (deliver r a w)
unfolding deliver
deliver-Opened r a w =
    if_intro (Opened w)
      (not w.still_registered
        || (model_operation a.request && not (w.model_thread_after_hooks == a.bound_thread_id)))
      _ _ (λ _. tt)
      (λ _.
        if_intro (Opened w) (not (still_exists a w) && not (is_lookup a.request.operation)) _ _
          (λ _.
            if_intro (Opened w) (a.target_exists || not a.request.open_if_missing || not w.can_open)
              _ _ (λ _. tt)
              (λ _.
                if_intro (Opened w) (not (is_accepted w.opened)) _ _ (λ declined. ground arith)
                  (λ _.
                    if_intro (Opened w) (not w.exists_opened) _ _ (λ _. tt)
                      (λ _.
                        if_intro (Opened w) (is_none a.binding) _ _
                          (λ _.
                            sent_or_not (record r { expected_binding = w.binding_opened })
                              w.binding_opened)
                          (λ _. sent_or_not r a.binding)))))
          (λ _. sent_or_not r a.binding))
  where
    sent_or_not : (t : Request) (binding : Option String) → Opened w (send t binding a w)
    sent_or_not t binding =
        if_intro (Opened w)
          (not w.registered_at_last
            || not (w.binding_at_last == binding)
            || (model_operation a.request && not (w.model_thread_at_last == a.bound_thread_id)))
          rejected (delivered t) (λ _. tt) (λ _. tt)

finish-IsTold : (g : Setting) (w : After) (o : Second) → Opened w o → IsTold g (finish g w o)
finish-IsTold g w rejected h = tt
finish-IsTold g w open_refused h = h
finish-IsTold g w (delivered s) h = refl

execute_request-IsTold :
    (g : Setting) (r : Request) (w : Before) (w' : After) → IsTold g (execute_request g r w w')
unfolding execute_request
execute_request-IsTold g r w w' = by_first (resolve g.blank r w)
  where
    by_hooks : (a : Admitted) (o : Fault ⊎ Request) → IsTold g (after_hooks g a w' o)
    by_hooks a (inl fault) = tt
    by_hooks a (inr t) = finish-IsTold g after (deliver t a after) (deliver-Opened t a after)
      where
        after : After
        after = record w' {
          hooked = has_any g.hooks || is_some (hook_for a.request.operation g.input_hook);
        }

    by_prompt : (a : Admitted) (o : Fault ⊎ Request) → IsTold g (after_prompt g a w' o)
    by_prompt a (inl fault) = tt
    by_prompt a (inr t) = by_hooks a (run_hooks g.decode g.blank g.hooks t t)

    by_first : (f : First) → IsTold g (proceed g w' f)
    by_first (refused reason) = tt
    by_first (goes_on a) =
        by_prompt a (prompted (hook_for a.request.operation g.input_hook) a.request)

-- What is returned is what is recorded; where execute raises, no acceptance is recorded.
abbrev pub Recorded : Answer → Status → Type 0
Recorded (answers status reason) s = status ≡ s
Recorded (raises_again fault) s = is_accepted s ≡ false

answer_of-Recorded : (e : Ended) → Recorded (answer_of e) (status_of e)
answer_of-Recorded (returned status) = refl
answer_of-Recorded (faulted (rejection reason)) = refl
answer_of-Recorded (faulted prompt_error) = refl
answer_of-Recorded (faulted indeterminate_delivery) = refl
answer_of-Recorded (faulted other_exception) = refl

abbrev pub Accepts : Setting → Request → Before → After → Status → Type 0
Accepts g r w w' s = (t : Request) × Authorised g.blank r w w' t × Kept r t × (g.reply t ≡ inr s)

-- One outcome of execute, next to the records before it.
abbrev pub IsHonest :
    Setting → Request → Before → After → List Record → Answer × List Record → Type 0
IsHonest g r w w' before (told, records) =
    (s : Status) × (records ≡ take 256 (record_of r s ∷ before))
    × Recorded told s
    × (is_accepted s ≡ true → Accepts g r w w' s)

refused_status : (e : Ended) → IsRefusal e → is_accepted (status_of e) ≡ false
refused_status (returned status) h = h
refused_status (faulted (rejection reason)) h = refl
refused_status (faulted prompt_error) h = refl
refused_status (faulted indeterminate_delivery) h = refl
refused_status (faulted other_exception) h = refl

accepted_reply :
    (o : Fault ⊎ Status)
    → is_accepted (status_of (answer o)) ≡ true
    → o ≡ inr (status_of (answer o))
accepted_reply (inr status) h = refl
accepted_reply (inl (rejection reason)) h = cc
accepted_reply (inl prompt_error) h = cc
accepted_reply (inl indeterminate_delivery) h = cc
accepted_reply (inl other_exception) h = cc

accepted_run :
    (g : Setting) (r : Request) (w : Before) (w' : After)
    → is_accepted (status_of (execute_request g r w w').ended) ≡ true
    → Accepts g r w w' (status_of (execute_request g r w w').ended)
accepted_run g r w w' h =
    by_sent (execute_request g r w w').ended (execute_request g r w w').sent refl
      (execute_request-IsTold g r w w') h
  where
    by_sent :
        (e : Ended) (o : Option Request)
        → (execute_request g r w w').sent ≡ o
        → IsTold g (record { ended = e; sent = o })
        → is_accepted (status_of e) ≡ true
        → Accepts g r w w' (status_of e)
    by_sent e none q told h = let bad : true ≡ false = sym h ∙ refused_status e told in cc
    by_sent e (some t) q told h =
        let (authority, kept) = sent-Authorised g r w w' t q in
        (
          t,
          authority,
          kept,
          subst (λ d. g.reply t ≡ inr (status_of d)) (sym told)
              (accepted_reply (g.reply t) (subst (λ d. is_accepted (status_of d) ≡ true) told h)),
        )

-- Every request that is executed leaves exactly one record in front of those before it, of which 256
-- are kept; the status recorded is the one returned, and no acceptance where execute raises; and an
-- acceptance is recorded only if a request of the same intent was given to the target under its
-- authority, and the target answered with that status.
pub execute-IsHonest :
    (g : Setting) (r : Request) (w : Before) (w' : After) (records : List Record)
    → IsHonest g r w w' records (execute g r w w' records)
unfolding execute remember
execute-IsHonest g r w w' records =
    let e = (execute_request g r w w').ended in
    (status_of e, refl, answer_of-Recorded e, accepted_run g r w w')
