-- ===== src/Steering/Crossing.antt =====
-- At most one steer for each crossing of the threshold (context_threshold_steering.py).
use codex_tmux_session_manag.Common.{
  ℕ, String, ◌≡◌, ◌≢◌, refl, Bool, true, false, Option, none, some, List, [], ◌∷◌, arith, ltb, ◌||◌,
  not, ◌&&◌, is_none, is_some, if_intro, ◌==◌, string_eq, nat_eq, option_eq,
}
use codex_tmux_session_manag.Common.Json.{Fields, get, as_obj, as_str, as_nonempty_str, get_in}
use codex_tmux_session_manag.Steering.{
  Attempt, Controller, Outcome, Notice, started, completed, ended, compaction_begins,
  compaction_ends, irrelevant, clear_pending, schedule_if_ready, bind_root_thread,
  bind_primary_thread, observe_notice, accept_binding, is_other_thread, with_schedule, register,
  registered, is_empty,
}
use codex_tmux_session_manag.Steering.Dispatch.{
  observe_protocol_event, observe_context_percent, reset_after_disconnect, close, start_failed,
  take_pending, retain_request, admit_dispatch, finish_dispatch, current, Request, Delivery,
  observe_thread, notice, note_percent, admitted,
}
use codex_tmux_session_manag.Steering.Sections.{
  outcome_or, Section, apply, run, bind_root, bind_primary, event, percent, start_raises, take,
  retain, admit, finish, reset, shut,
}

-- The crossing is consumed, and nothing is pending.
abbrev pub Spent : Controller → Type 0
Spent c = (c.threshold_armed ≡ false) × (c.pending_attempt ≡ none) × (c.pending_call ≡ none)

-- The sections that arm the threshold anew, on an open controller: a percentage below it, of the root
-- thread on the live connection while no compaction is under way, and a change of the primary thread
-- or of its connection to another thread than the registered one.
abbrev pub rearms : Section → Controller → Bool
rearms (percent thread x connection) c =
    not c.closed
    && ltb x c.threshold_percent
    && not (thread == "")
    && c.root_thread_id == some thread
    && (is_some connection && connection == c.connection_generation)
    && is_empty c.active_compaction_item_ids
rearms (bind_primary thread connection) c =
    not c.closed
    && not (thread == c.root_thread_id && connection == c.connection_generation)
    && is_other_thread thread c.registered_thread_id
rearms _ c = false

abbrev pub NoRearm : List Section → Controller → Type 0
NoRearm [] c = Unit
NoRearm (s ∷ ss) c = (rearms s c ≡ false) × NoRearm ss (apply s c)

schedule-Spent : (d : ℕ) (c : Controller) → Spent c → Spent (schedule_if_ready d c).0
unfolding schedule_if_ready
schedule-Spent d c h = ground arith

with_schedule-Spent :
    (k : Option ℕ) (c : Controller) → Spent c → Spent (with_schedule k c).controller
with_schedule-Spent k c h = schedule-Spent 0 c h

registered-Spent :
    (t : String) (b : Bool) (c : Controller) → Spent c → Spent (registered t b c).controller
unfolding clear_pending
registered-Spent t true c h = with_schedule-Spent none _ h
registered-Spent t false c h =
    with_schedule-Spent c.pending_call (clear_pending (register t false c)) (h.0, refl, refl)

bind_root-Spent :
    (t : String) (c : Controller) → Spent c → Spent (outcome_or c (bind_root_thread t c))
unfolding bind_root_thread
bind_root-Spent t c h =
    if_intro (λ o. Spent (outcome_or c o)) (t == "") _ _ (λ _. h)
      (λ _.
        if_intro (λ o. Spent (outcome_or c o)) c.closed _ _ (λ _. h)
          (λ _. registered-Spent t _ c h))

bind_primary-Spent :
    (t g : Option String) (c : Controller)
    → rearms (bind_primary t g) c ≡ false
    → Spent c
    → Spent (bind_primary_thread t g c).controller
unfolding bind_primary_thread
bind_primary-Spent t g c n h = ground arith

notice-Spent : (n : Notice) (c : Controller) → Spent c → Spent (observe_notice n c).controller
unfolding observe_notice
notice-Spent (started turn) c h =
    if_intro (λ (o : Outcome). Spent o.controller)
      (is_none c.active_turn_id || c.active_turn_id == some turn) _ _
      (λ _. with_schedule-Spent none (record c { active_turn_id = some turn }) h)
      (λ _.
        with_schedule-Spent c.pending_call (record (clear_pending c) { active_turn_id = some turn })
          (h.0, refl, refl))
notice-Spent (completed turn) c h = ground arith
notice-Spent ended c h = ground arith
notice-Spent (compaction_begins item) c h = ground arith
notice-Spent (compaction_ends item) c h = h
notice-Spent irrelevant c h = h

thread-Spent :
    (t : Option String) (g : Option String) (n : Notice) (c : Controller)
    → Spent c
    → Spent (observe_thread t g n c).controller
thread-Spent none g n c h = h
thread-Spent (some t) g n c h =
    if_intro (λ (o : Outcome). Spent o.controller) (c.closed || not (accept_binding t g c)) _ _
      (λ _. h) (λ _. notice-Spent n c h)

event-Spent :
    (e : Fields) (g : Option String) (c : Controller)
    → Spent c
    → Spent (observe_protocol_event e g c).controller
unfolding observe_protocol_event
event-Spent e g c h =
    let params = as_obj (get "params" e) in
    let thread = as_nonempty_str (get_in params "threadId") in
    if_intro (λ (o : Outcome). Spent o.controller)
      (is_none (as_str (get "method" e)) || is_none params) _ _ (λ _. h)
      (λ _. thread-Spent thread g (notice (get "method" e) params) c h)

note_percent-Spent :
    (x : ℕ) (c : Controller)
    → ltb x c.threshold_percent ≡ false
    → Spent c
    → Spent (note_percent x c).controller
note_percent-Spent x c n h =
    if_intro (λ (o : Outcome). Spent o.controller) (ltb x c.threshold_percent) _ _ (λ under. cc)
      (λ _. with_schedule-Spent none (record c { context_percent = some x }) h)

not_low :
    (closed low nameless root some_live live quiet_item : Bool)
    → not closed && low && not nameless && root && (some_live && live) && quiet_item ≡ false
    → nameless ≡ false
    → closed || not (some_live && live && root) || not quiet_item ≡ false
    → low ≡ false
not_low true low nameless root some_live live q n e h = cc
not_low false false nameless root some_live live q n e h = refl
not_low false true true root some_live live q n e h = cc
not_low false true false false some_live live q n e h = ground arith
not_low false true false true some_live live q n e h = ground arith

percent-Spent :
    (t : String) (x : ℕ) (g : Option String) (c : Controller)
    → rearms (percent t x g) c ≡ false
    → Spent c
    → Spent (outcome_or c (observe_context_percent t x g c))
unfolding observe_context_percent accept_binding
percent-Spent t x g c n h =
    if_intro (λ o. Spent (outcome_or c o)) (t == "") _ _ (λ _. h)
      (λ named.
        if_intro (λ o. Spent (outcome_or c o))
          (c.closed || not (accept_binding t g c) || not (is_empty c.active_compaction_item_ids)) _
          _ (λ _. h)
          (λ heeded.
            note_percent-Spent x c
              (not_low c.closed (ltb x c.threshold_percent) (t == "") (c.root_thread_id == some t)
                (is_some g) (g == c.connection_generation) (is_empty c.active_compaction_item_ids) n
                named heeded)
              h))

start_failed-Spent : (k : ℕ) (c : Controller) → Spent c → Spent (start_failed k c)
unfolding start_failed
start_failed-Spent k c h = ground arith

take-Spent : (g : ℕ) (c : Controller) → Spent c → Spent (take_pending g c).0
unfolding take_pending
take-Spent g c h = ground arith

retain-Spent :
    (r : String) (g : ℕ) (a : Attempt) (c : Controller) → Spent c → Spent (retain_request r g a c).0
unfolding retain_request
retain-Spent r g a c h = ground arith

admit-Spent : (q : Request) (c : Controller) → Spent c → Spent (admit_dispatch q c).0
unfolding admit_dispatch
admit-Spent q c h = ground arith

finish-Spent :
    (r : String) (g : ℕ) (a : Attempt) (d : Delivery) (c : Controller)
    → Spent c
    → Spent (finish_dispatch r g a d c).0
unfolding finish_dispatch
finish-Spent r g a d c h = ground arith

reset-Spent : (c : Controller) → Spent c → Spent (reset_after_disconnect c).controller
unfolding reset_after_disconnect
reset-Spent c h = ground arith

close-Spent : (c : Controller) → Spent c → Spent (close c).controller
unfolding close
close-Spent c h = ground arith

apply-Spent : (s : Section) (c : Controller) → rearms s c ≡ false → Spent c → Spent (apply s c)
unfolding apply
apply-Spent (bind_root t) c n h = bind_root-Spent t c h
apply-Spent (bind_primary t g) c n h = bind_primary-Spent t g c n h
apply-Spent (event e g) c n h = event-Spent e g c h
apply-Spent (percent t x g) c n h = percent-Spent t x g c n h
apply-Spent (start_raises k) c n h = start_failed-Spent k c h
apply-Spent (take g) c n h = take-Spent g c h
apply-Spent (retain r g a) c n h = retain-Spent r g a c h
apply-Spent (admit q) c n h = admit-Spent q c h
apply-Spent (finish r g a d) c n h = finish-Spent r g a d c h
apply-Spent reset c n h = reset-Spent c h
apply-Spent shut c n h = close-Spent c h

run-Spent : (ss : List Section) (c : Controller) → NoRearm ss c → Spent c → Spent (run ss c)
unfolding run
run-Spent [] c n h = h
run-Spent (s ∷ ss) c n h = run-Spent ss (apply s c) n.1 (apply-Spent s c n.0 h)

admitted-Spent : (q : Request) (c c' : Controller) → admit_dispatch q c ≡ (c', admitted) → Spent c'
unfolding admit_dispatch
admitted-Spent q c c' e = ground arith

Spent-ne-admitted : (q : Request) (c : Controller) → Spent c → (admit_dispatch q c).1 ≢ admitted
unfolding admit_dispatch current
Spent-ne-admitted q c h e = ground arith

-- One steer for each crossing: after an admission no further request is admitted, through any
-- sections (retries, reconnections, disconnects, compactions, failed starts), until the controller,
-- still open, is given a percentage below the threshold that is of the root thread, on the live
-- connection and outside a compaction, or is bound to a primary thread other than the registered one.
-- A percentage of another thread, of another connection or during a compaction does not count.
pub one_steer_per_crossing :
    (request request' : Request) (c : Controller) {c' : Controller} (ss : List Section)
    → admit_dispatch request c ≡ (c', admitted)
    → NoRearm ss c'
    → (admit_dispatch request' (run ss c')).1 ≢ admitted
one_steer_per_crossing q q' c {c'} ss e n =
    Spent-ne-admitted q' (run ss c') (run-Spent ss c' n (admitted-Spent q c c' e))
