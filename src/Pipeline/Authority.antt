-- ===== src/Pipeline/Authority.antt =====
-- What holds of a request that reaches its target (interaction_pipeline.py).
use mathlib.Core.Path.{subst}
use codex_tmux_session_manag.Common.{
  String, ◌≡◌, refl, Bool, true, false, not, ◌&&◌, ◌||◌, Option, none, some, ◌==◌, nat_eq,
  string_eq, option_eq, if◌then◌else◌, is_none, arith, text_eq_iff, if_intro,
}
use codex_tmux_session_manag.Pipeline.{
  Request, Before, After, Admitted, admitted, First, refused, goes_on, Second, rejected,
  open_refused, delivered, is_accepted, validate_request, model_operation, is_lookup, is_open,
  stale, bound_thread, still_exists, resolve, send, open_target, deliver,
}

-- What a request must be, and its target say, for the hooks to see it.
abbrev pub Resolved : (String → Bool) → Request → Before → First → Type 0
Resolved blank r w (refused reason) = Unit
Resolved blank r w (goes_on a) =
    (validate_request blank r ≡ true)
    × (w.registered ≡ true)
    × (w.supports r.operation ≡ true)
    × (stale r.expected_binding w.binding_identity ≡ false)
    × (model_operation r ≡ true
        → (t : String) × (w.model_thread_id ≡ some t)
          × (stale r.expected_thread_id (some t) ≡ false))
    × (a ≡ admitted r w)

model_bound :
    (m : Bool) (expected actual : Option String)
    → m ≡ true
    → m && is_none actual ≡ false
    → stale expected (if m then actual else none) ≡ false
    → (t : String) × (actual ≡ some t) × (stale expected (some t) ≡ false)
model_bound false expected actual e h s = cc
model_bound true expected none e h s = cc
model_bound true expected (some t) e h s = (t, refl, s)

pub resolve-Resolved :
    (blank : String → Bool) (r : Request) (w : Before) → Resolved blank r w (resolve blank r w)
unfolding resolve
resolve-Resolved blank r w =
    if_intro (Resolved blank r w)
      (not (validate_request blank r) || not w.registered || not (w.supports r.operation)) _ _
      (λ _. tt)
      (λ first.
        if_intro (Resolved blank r w) (stale r.expected_binding w.binding_identity) _ _ (λ _. tt)
          (λ bound.
            if_intro (Resolved blank r w) (model_operation r && is_none w.model_thread_id) _ _
              (λ _. tt)
              (λ model.
                if_intro (Resolved blank r w) (stale r.expected_thread_id (bound_thread r w)) _ _
                  (λ _. tt)
                  (λ thread.
                    if_intro (Resolved blank r w)
                      (not (is_lookup r.operation || w.exists)
                        && not (r.open_if_missing || is_open r.operation))
                      _ _ (λ _. tt)
                      (λ _. (
                        ground arith,
                        ground arith,
                        ground arith,
                        bound,
                        λ m.
                            model_bound (model_operation r) r.expected_thread_id w.model_thread_id m
                              model thread,
                        refl,
                      ))))))

-- At the moment of delivery the target is registered, its binding and its model thread are those
-- that the request was admitted under; only a target that had none is bound by being opened.
abbrev pub Delivers : Request → Admitted → After → Second → Type 0
Delivers r a w rejected = Unit
Delivers r a w open_refused = Unit
Delivers r a w (delivered r') =
    (w.registered_at_last ≡ true)
    × (r'.expected_binding ≡ w.binding_at_last)
    × (model_operation a.request ≡ true → w.model_thread_at_last ≡ a.bound_thread_id)

send-Delivers :
    (r : Request) (binding : Option String) (a : Admitted) (w : After)
    → r.expected_binding ≡ binding
    → Delivers r a w (send r binding a w)
send-Delivers r binding a w e =
    if_intro (Delivers r a w)
      (not w.registered_at_last
        || not (w.binding_at_last == binding)
        || (model_operation a.request && not (w.model_thread_at_last == a.bound_thread_id)))
      _ _ (λ _. tt)
      (λ h. (
        ground arith,
        ground (arith, text_eq_iff w.binding_at_last binding),
        λ m. ground (arith, text_eq_iff w.model_thread_at_last a.bound_thread_id),
      ))

open_target-Delivers :
    (r : Request) (a : Admitted) (w : After)
    → r.expected_binding ≡ a.binding
    → Delivers r a w (open_target r a w)
open_target-Delivers r a w e =
    if_intro (Delivers r a w) (a.target_exists || not a.request.open_if_missing || not w.can_open) _
      _ (λ _. tt)
      (λ _.
        if_intro (Delivers r a w) (not (is_accepted w.opened)) _ _ (λ _. tt)
          (λ _.
            if_intro (Delivers r a w) (not w.exists_opened) _ _ (λ _. tt)
              (λ _.
                if_intro (Delivers r a w) (is_none a.binding) _ _
                  (λ _.
                    send-Delivers (record r { expected_binding = w.binding_opened })
                      w.binding_opened a w refl)
                  (λ _. send-Delivers r a.binding a w e))))

pub deliver-Delivers :
    (r : Request) (a : Admitted) (w : After)
    → r.expected_binding ≡ a.binding
    → Delivers r a w (deliver r a w)
unfolding deliver
deliver-Delivers r a w e =
    if_intro (Delivers r a w)
      (not w.still_registered
        || (model_operation a.request && not (w.model_thread_after_hooks == a.bound_thread_id)))
      _ _ (λ _. tt)
      (λ _.
        if_intro (Delivers r a w) (not (still_exists a w) && not (is_lookup a.request.operation)) _
          _ (λ _. open_target-Delivers r a w e) (λ _. send-Delivers r a.binding a w e))

-- What the sender may rely on for a request that is delivered.
abbrev pub Authorised : (String → Bool) → Request → Before → After → Request → Type 0
Authorised blank r w w' sent =
    (validate_request blank r ≡ true)
    × (w.registered ≡ true)
    × (w'.registered_at_last ≡ true)
    × (stale r.expected_binding w.binding_identity ≡ false)
    × (sent.expected_binding ≡ w'.binding_at_last)
    × (model_operation r ≡ true
        → (t : String) × (w.model_thread_id ≡ some t)
          × (w'.model_thread_at_last ≡ some t)
          × (stale r.expected_thread_id (some t) ≡ false))

pub authorised :
    (blank : String → Bool) (r : Request) (w : Before) (w' : After) (a : Admitted) (sent : Request)
    → Resolved blank r w (goes_on a)
    → Delivers sent a w' (delivered sent)
    → Authorised blank r w w' sent
authorised blank r w w' a sent (valid, known, supported, bound, model, same)
      (last, binding, thread) =
    (
      valid,
      known,
      last,
      bound,
      binding,
      λ m.
          let (t, e, s) = model m in
          let thread' : model_operation r ≡ true
              → w'.model_thread_at_last ≡ (if model_operation r then w.model_thread_id else none) =
            subst
              (λ (b : Admitted).
                model_operation b.request ≡ true → w'.model_thread_at_last ≡ b.bound_thread_id)
              same thread in
          let here = thread' m in (t, e, (rw (m, e) at here), s),
    )
