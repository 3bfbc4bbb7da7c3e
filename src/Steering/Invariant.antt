-- ===== src/Steering/Invariant.antt =====
-- What holds of the steering controller between any two locked sections
-- (context_threshold_steering.py).
use mathlib.Core.Path.{subst}
use codex_tmux_session_manag.Common.{
  ℕ, String, ◌≡◌, refl, ap, Bool, true, false, Option, none, some, [], sym, ◌∙◌, arith, text_eq_iff,
  ◌==◌, ◌&&◌, string_eq, option_eq, is_some, ◌||◌, if_intro, is_none, nat_eq,
}
use codex_tmux_session_manag.Common.Dict.{discard}
use codex_tmux_session_manag.Steering.{
  Attempt, Scheduled, new_attempt, Controller, Outcome, Notice, started, completed, ended,
  compaction_begins, compaction_ends, irrelevant, clear_pending, schedule_if_ready,
  bind_root_thread, bind_primary_thread, register, registered, with_schedule, crossed,
  observe_notice, ready, reserve,
}
use codex_tmux_session_manag.Steering.Sections.{outcome_or}

-- Only an open controller whose dispatch authority is established, with the exact turn active,
-- its context at the threshold or above, the crossing not consumed and no compaction under way, has
-- a pending attempt; and the attempt is for that thread and turn, in the current generation.
abbrev pub Authorised : Controller → Attempt → Type 0
Authorised c p =
    (c.closed ≡ false)
    × (c.dispatch_ready ≡ true)
    × (c.root_thread_id ≡ some p.thread_id)
    × (c.active_turn_id ≡ some p.turn_id)
    × (crossed c ≡ true)
    × (c.threshold_armed ≡ true)
    × (c.active_compaction_item_ids ≡ [])
    × (p.serial ≡ c.generation)

abbrev pub Authority : Controller → Type 0
Authority c = (p : Attempt) → c.pending_attempt ≡ some p → Authorised c p

pub record Inv (c : Controller) : Type 0 where
  pub pending : Authority c
  pub call : is_some c.pending_call ≡ true → is_some c.pending_attempt ≡ true
  pub ready_root :
      c.dispatch_ready ≡ true
      → (c.root_thread_id ≡ c.registered_thread_id) × (is_some c.connection_generation ≡ true)

clear-Inv : (c : Controller) → Inv c → Inv (clear_pending c)
unfolding clear_pending
clear-Inv c h = grind arith

some_injective {ℓ} : {A : Type ℓ} {x y : A} → some x ≡ some y → x ≡ y
some_injective e = cc

-- A controller that holds one attempt, which is authorised.
pub holding-Inv :
    (c : Controller) (p : Attempt)
    → c.pending_attempt ≡ some p
    → Authorised c p
    → (c.dispatch_ready ≡ true
        → (c.root_thread_id ≡ c.registered_thread_id) × (is_some c.connection_generation ≡ true))
    → Inv c
holding-Inv c p e a r = record {
  pending = λ q f. subst (Authorised c) (some_injective (sym e ∙ f)) a;
  call = λ _. rw e;
  ready_root = r;
}

-- A controller that holds none.
pub idle-Inv :
    (c : Controller)
    → c.pending_attempt ≡ none
    → c.pending_call ≡ none
    → (c.dispatch_ready ≡ true
        → (c.root_thread_id ≡ c.registered_thread_id) × (is_some c.connection_generation ≡ true))
    → Inv c
idle-Inv c e k r = record { pending = λ q f. cc; call = λ f. cc; ready_root = r }

reserve-Inv :
    (thread turn : Option String) (x : Option ℕ) (d : ℕ) (c : Controller)
    → c.root_thread_id ≡ thread
    → c.active_turn_id ≡ turn
    → c.context_percent ≡ x
    → ready c ≡ true
    → Inv c
    → Inv (reserve thread turn x d c).0
unfolding reserve ready
reserve-Inv none turn x d c r t e ok h = h
reserve-Inv (some thread) none x d c r t e ok h = h
reserve-Inv (some thread) (some turn) none d c r t e ok h = h
reserve-Inv (some thread) (some turn) (some x) d c r t e ok h =
    holding-Inv _ (new_attempt thread turn x c) refl (ground arith) h.ready_root

pub schedule-Inv : (d : ℕ) (c : Controller) → Inv c → Inv (schedule_if_ready d c).0
unfolding schedule_if_ready
schedule-Inv d c h =
    if_intro (λ (s : Scheduled). Inv s.0) (ready c) _ _
      (λ ok.
        reserve-Inv c.root_thread_id c.active_turn_id c.context_percent d c refl refl refl ok h)
      (λ _. h)

abbrev RootReady : Controller → Type 0
RootReady c =
    c.dispatch_ready ≡ true
    → (c.root_thread_id ≡ c.registered_thread_id) × (is_some c.connection_generation ≡ true)

pub with_schedule-Inv : (k : Option ℕ) (c : Controller) → Inv c → Inv (with_schedule k c).controller
with_schedule-Inv k c h = schedule-Inv 0 c h

-- `registered` is called with the test that says whether the thread has proxy authority.
registered-Inv :
    (t : String) (b : Bool) (c : Controller)
    → (b ≡ true → (c.root_thread_id ≡ some t) × (is_some c.connection_generation ≡ true))
    → Inv c
    → Inv (registered t b c).controller
unfolding clear_pending
registered-Inv t true c ok h = with_schedule-Inv none (register t true c) record {
  pending = λ p e. let a = h.pending p e in (a.0, refl, a.2, a.3, a.4, a.5, a.6, a.7);
  call = h.call;
  ready_root = λ _. ok refl;
}
registered-Inv t false c ok h =
    with_schedule-Inv c.pending_call (clear_pending (register t false c))
      (idle-Inv _ refl refl (λ e. cc))

pub bind_root-Inv :
    (t : String) (c : Controller) → Inv c → Inv (outcome_or c (bind_root_thread t c))
unfolding bind_root_thread
bind_root-Inv t c h =
    if_intro (λ o. Inv (outcome_or c o)) (t == "") _ _ (λ _. h)
      (λ _.
        if_intro (λ o. Inv (outcome_or c o)) c.closed _ _ (λ _. h)
          (λ _.
            registered-Inv t _ c
              (λ ok. (ground (arith, text_eq_iff c.root_thread_id (some t)), ground arith)) h))

pub bind_primary-Inv :
    (t g : Option String) (c : Controller) → Inv c → Inv (bind_primary_thread t g c).controller
unfolding bind_primary_thread
bind_primary-Inv t g c h =
    if_intro (λ (o : Outcome). Inv o.controller)
      (c.closed || (t == c.root_thread_id && g == c.connection_generation)) _ _ (λ _. h)
      (λ _. idle-Inv _ refl refl (λ e. ground (arith, text_eq_iff t c.registered_thread_id)))

same_turn :
    (turn old : String) (active : Option String)
    → (is_none active || active == some turn) ≡ true
    → active ≡ some old
    → some turn ≡ some old
same_turn turn old active t e = ground (arith, text_eq_iff active (some turn))

pub notice-Inv : (n : Notice) (c : Controller) → Inv c → Inv (observe_notice n c).controller
unfolding observe_notice
notice-Inv (started turn) c h =
    if_intro (λ (o : Outcome). Inv o.controller)
      (is_none c.active_turn_id || c.active_turn_id == some turn) _ _
      (λ same.
        with_schedule-Inv none (record c { active_turn_id = some turn })
          record {
            pending = λ p e.
                let a = h.pending p e in
                (
                  a.0,
                  a.1,
                  a.2,
                  same_turn turn p.turn_id c.active_turn_id same a.3,
                  a.4,
                  a.5,
                  a.6,
                  a.7,
                );
            call = h.call;
            ready_root = h.ready_root;
          })
      (λ _.
        with_schedule-Inv c.pending_call (record (clear_pending c) { active_turn_id = some turn })
          (idle-Inv _ refl refl h.ready_root))
notice-Inv (completed turn) c h =
    if_intro (λ (o : Outcome). Inv o.controller)
      (is_none c.active_turn_id || turn == c.active_turn_id) _ _
      (λ _. idle-Inv _ refl refl h.ready_root) (λ _. h)
notice-Inv ended c h = idle-Inv _ refl refl h.ready_root
notice-Inv (compaction_begins item) c h = idle-Inv _ refl refl h.ready_root
notice-Inv (compaction_ends item) c h = record {
  pending =
      λ p e. let a = h.pending p e in (a.0, a.1, a.2, a.3, a.4, a.5, ap (discard item) a.6, a.7);
  call = h.call;
  ready_root = h.ready_root;
}
notice-Inv irrelevant c h = h
