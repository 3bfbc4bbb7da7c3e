-- ===== src/Steering/Keeps.antt =====
-- Every locked section of context_threshold_steering.py keeps the invariant.
use codex_tmux_session_manag.Common.{
  ℕ, ◌+◌, String, ◌≡◌, refl, Bool, Option, none, some, List, [], ◌∷◌, arith, ◌==◌, ◌&&◌, string_eq,
  option_eq, ◌||◌, not, if_intro, is_none, ltb, nat_eq,
}
use codex_tmux_session_manag.Common.Json.{Fields, get, as_obj, as_str, as_nonempty_str, get_in}
use codex_tmux_session_manag.Common.Dict.{discard, lookup, without, member}
use codex_tmux_session_manag.Steering.{
  Attempt, Scheduled, is_empty, Controller, Outcome, Notice, init, clear_pending, accept_binding,
}
use codex_tmux_session_manag.Steering.Dispatch.{
  observe_protocol_event, observe_context_percent, reset_after_disconnect, close, start_failed,
  take_pending, retain_request, admit_dispatch, finish_dispatch, conclude, admit_retained, current,
  Request, Delivery, observe_thread, notice, retry, retry_delay, conclude_if, is_completed, unbound,
  complete, note_percent, is_attempt, matches, Admission, context_steer_source,
}
use codex_tmux_session_manag.Steering.Sections.{
  outcome_or, Section, apply, run, bind_root, bind_primary, event, percent, start_raises, take,
  retain, admit, finish, reset, shut,
}
use codex_tmux_session_manag.Steering.Invariant.{
  Inv, schedule-Inv, notice-Inv, with_schedule-Inv, bind_root-Inv, bind_primary-Inv, idle-Inv,
}

thread-Inv :
    (t : Option String) (g : Option String) (n : Notice) (c : Controller)
    → Inv c
    → Inv (observe_thread t g n c).controller
thread-Inv none g n c h = h
thread-Inv (some t) g n c h =
    if_intro (λ (o : Outcome). Inv o.controller) (c.closed || not (accept_binding t g c)) _ _
      (λ _. h) (λ _. notice-Inv n c h)

note_percent-Inv : (x : ℕ) (c : Controller) → Inv c → Inv (note_percent x c).controller
unfolding clear_pending
note_percent-Inv x c h =
    if_intro (λ (o : Outcome). Inv o.controller) (ltb x c.threshold_percent) _ _
      (λ _. idle-Inv _ refl refl h.ready_root)
      (λ above.
        with_schedule-Inv none (record c { context_percent = some x })
          record {
            pending =
                λ p e. let a = h.pending p e in (a.0, a.1, a.2, a.3, ground arith, a.5, a.6, a.7);
            call = h.call;
            ready_root = h.ready_root;
          })

event-Inv :
    (e : Fields) (g : Option String) (c : Controller)
    → Inv c
    → Inv (observe_protocol_event e g c).controller
unfolding observe_protocol_event
event-Inv e g c h =
    let params = as_obj (get "params" e) in
    let thread = as_nonempty_str (get_in params "threadId") in
    if_intro (λ (o : Outcome). Inv o.controller)
      (is_none (as_str (get "method" e)) || is_none params) _ _ (λ _. h)
      (λ _. thread-Inv thread g (notice (get "method" e) params) c h)

percent-Inv :
    (t : String) (x : ℕ) (g : Option String) (c : Controller)
    → Inv c
    → Inv (outcome_or c (observe_context_percent t x g c))
unfolding observe_context_percent
percent-Inv t x g c h =
    if_intro (λ o. Inv (outcome_or c o)) (t == "") _ _ (λ _. h)
      (λ _.
        if_intro (λ o. Inv (outcome_or c o))
          (c.closed || not (accept_binding t g c) || not (is_empty c.active_compaction_item_ids)) _
          _ (λ _. h) (λ _. note_percent-Inv x c h))

reset-Inv : (c : Controller) → Inv c → Inv (reset_after_disconnect c).controller
unfolding reset_after_disconnect
reset-Inv c h =
    if_intro (λ (o : Outcome). Inv o.controller) c.closed _ _ (λ _. h)
      (λ _. idle-Inv _ refl refl (λ e. cc))

close-Inv : (c : Controller) → Inv c → Inv (close c).controller
unfolding close
close-Inv c h =
    if_intro (λ (o : Outcome). Inv o.controller) c.closed _ _ (λ _. h)
      (λ _. idle-Inv _ refl refl h.ready_root)

start_failed-Inv : (k : ℕ) (c : Controller) → Inv c → Inv (start_failed k c)
unfolding start_failed
start_failed-Inv k c h =
    if_intro Inv (c.pending_call == some k) _ _ (λ _. idle-Inv _ refl refl h.ready_root) (λ _. h)

take-Inv : (g : ℕ) (c : Controller) → Inv c → Inv (take_pending g c).0
unfolding take_pending
take-Inv g c h =
    if_intro (λ (r : Controller × Option Attempt). Inv r.0)
      (c.closed || not (g == c.generation) || is_none c.pending_attempt || is_none c.pending_call) _
      _ (λ _. h) (λ _. record { pending = h.pending; call = λ e. cc; ready_root = h.ready_root })

-- sections that touch neither the pending attempt nor what authorises it
same-Inv :
    (c : Controller) (requests : List (String × (ℕ × Attempt))) (ids : List String)
    (last : Option String)
    → Inv c
    → Inv (record c {
      dispatch_requests = requests;
      admitted_request_ids = ids;
      last_completed_dispatch_id = last;
    })
same-Inv c requests ids last h = record {
  pending = h.pending;
  call = h.call;
  ready_root = h.ready_root;
}

retain-Inv :
    (r : String) (g : ℕ) (a : Attempt) (c : Controller) → Inv c → Inv (retain_request r g a c).0
unfolding retain_request
retain-Inv r g a c h =
    if_intro (λ (x : Controller × Bool). Inv x.0)
      (c.closed || not (g == c.generation) || not (is_attempt c.pending_attempt a)) _ _ (λ _. h)
      (λ _. same-Inv c _ c.admitted_request_ids c.last_completed_dispatch_id h)

admit_retained-Inv :
    (q : Request) (o : Option (ℕ × Attempt)) (c : Controller) → Inv c → Inv (admit_retained q o c).0
unfolding admit_retained
admit_retained-Inv q none c h = h
admit_retained-Inv q (some (g, a)) c h =
    if_intro (λ (x : Controller × Admission). Inv x.0) (current g a c && matches q a c.message) _ _
      (λ _. idle-Inv _ refl refl h.ready_root)
      (λ _. same-Inv c _ c.admitted_request_ids c.last_completed_dispatch_id h)

admit-Inv : (q : Request) (c : Controller) → Inv c → Inv (admit_dispatch q c).0
unfolding admit_dispatch
admit-Inv q c h =
    if_intro (λ (x : Controller × Admission). Inv x.0) (q.source == context_steer_source) _ _
      (λ _. admit_retained-Inv q (lookup q.request_id c.dispatch_requests) c h) (λ _. h)

complete-Inv : (done : Bool) (a : Attempt) (s : Scheduled) → Inv s.0 → Inv (complete done a s).0
complete-Inv done a (c, scheduled) h =
    if_intro Inv done _ _
      (λ _. same-Inv c c.dispatch_requests c.admitted_request_ids (some a.dispatch_id) h) (λ _. h)

retry-Inv :
    (o : Option ℕ) (c : Controller)
    → c.pending_attempt ≡ none
    → c.pending_call ≡ none
    → Inv c
    → Inv (retry o c).0
retry-Inv none c e k h = idle-Inv _ e k h.ready_root
retry-Inv (some d) c e k h =
    schedule-Inv d (record c { binding_retry_count = c.binding_retry_count + 1 })
      (idle-Inv _ e k h.ready_root)

conclude-Inv : (b : Bool) (d : Delivery) (c : Controller) → Inv c → Inv (conclude b d c).0
unfolding conclude
conclude-Inv b d c h =
    if_intro (λ (s : Scheduled). Inv s.0) (not b && unbound d) _ _
      (λ _.
        retry-Inv (retry_delay c.binding_retry_count) (clear_pending c) refl refl
          (idle-Inv _ refl refl h.ready_root))
      (λ _. idle-Inv _ refl refl h.ready_root)

finish-Inv :
    (r : String) (g : ℕ) (a : Attempt) (d : Delivery) (c : Controller)
    → Inv c
    → Inv (finish_dispatch r g a d c).0
unfolding finish_dispatch
finish-Inv r g a d c h =
    let c' = record c {
      dispatch_requests = without r c.dispatch_requests;
      admitted_request_ids = discard r c.admitted_request_ids;
    } in
    let kept : Inv c' = same-Inv c _ _ c.last_completed_dispatch_id h in
    let still = g == c.generation && is_attempt c.pending_attempt a in
    let was_admitted = member r c.admitted_request_ids in
    complete-Inv (was_admitted && is_completed d) a (conclude_if still was_admitted d c') (
      if_intro (λ (s : Scheduled). Inv s.0) still _ _ (λ _. conclude-Inv was_admitted d c' kept)
        (λ _. kept))

pub apply-Inv : (s : Section) (c : Controller) → Inv c → Inv (apply s c)
unfolding apply
apply-Inv (bind_root t) c h = bind_root-Inv t c h
apply-Inv (bind_primary t g) c h = bind_primary-Inv t g c h
apply-Inv (event e g) c h = event-Inv e g c h
apply-Inv (percent t x g) c h = percent-Inv t x g c h
apply-Inv (start_raises k) c h = start_failed-Inv k c h
apply-Inv (take g) c h = take-Inv g c h
apply-Inv (retain r g a) c h = retain-Inv r g a c h
apply-Inv (admit q) c h = admit-Inv q c h
apply-Inv (finish r g a d) c h = finish-Inv r g a d c h
apply-Inv reset c h = reset-Inv c h
apply-Inv shut c h = close-Inv c h

pub init-Inv : (threshold : ℕ) (message : String) → Inv (init threshold message)
unfolding init
init-Inv threshold message = idle-Inv _ refl refl (λ e. cc)

-- Whatever sections run, in whatever order and with whatever arguments, a pending attempt is always
-- authorised: the controller is open, the registered thread is the root of a live connection, the
-- attempt's thread and turn are the root and the active turn, the context is at the threshold or
-- above, the crossing is not consumed, no compaction is under way, and the attempt is of the
-- current generation.
pub sections-Inv : (ss : List Section) (c : Controller) → Inv c → Inv (run ss c)
unfolding run
sections-Inv [] c h = h
sections-Inv (s ∷ ss) c h = sections-Inv ss (apply s c) (apply-Inv s c h)
