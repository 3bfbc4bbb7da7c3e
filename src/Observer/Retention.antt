-- ===== src/Observer/Retention.antt =====
-- What an observed event and a pruned target leave of the entries of rodex/observer_state.py.
use codex_tmux_session_manag.Common.{
  String, ◌≡◌, ◌∙◌, refl, true, false, Option, none, some, [], ◌∷◌, ◌++◌, ◌==◌, string_eq, nat_eq,
  arith, All, if_intro, eq_refl,
}
use codex_tmux_session_manag.Common.Ordered.{
  Distinct, has, pop, has-pop, pop-Distinct, append-Distinct, All-pop, All-append,
}
use codex_tmux_session_manag.Common.Json.{
  Value, obj, arr, Items, no_items, item, Fields, get, as_obj, is_str, set_field, get-set_field,
}
use codex_tmux_session_manag.Observer.{
  Python, Key, key_eq, event_key, event_target, is_terminal_event, mentions_target, narrow_item,
  narrowed, observer_schema, receivers, remaining, same_key_refl,
}
use codex_tmux_session_manag.Observer.Producer.{
  Events, Targets, Producer, forget, retain, keep_some, prune_events, prune,
}
use codex_tmux_session_manag.Observer.Snapshots.{IsOwn, IsNamed, AreEvents, AreTargets}
use codex_tmux_session_manag.Observer.Bounds.{Entries}

module _ (name key : String) (value : Value) where
  get_other :
      (event : Fields)
      → (name == key) ≡ false
      → get key (set_field name value event) ≡ get key event
  get_other event h = get-set_field name key value event ∙ ground arith

get_item : (value : Value) (event : Fields) → get "item" (set_field "item" value event) ≡ some value
get_item value event = get-set_field "item" "item" value event

event_key-narrowed :
    (py : Python) (it event : Fields) (left : Items)
    → as_obj (get "item" event) ≡ some it
    → event_key py (set_field "item" (obj (set_field "receiver_thread_ids" (arr left) it)) event)
      ≡ event_key py event
unfolding event_key
event_key-narrowed py it event left h =
    let value = obj (set_field "receiver_thread_ids" (arr left) it) in
    rw
      (
        event_key,
        h,
        get_item value event,
        get_other "item" "kind" value event refl,
        get_other "item" "target_thread_id" value event refl,
        get_other "item" "thread_id" value event refl,
        get_other "item" "activity_item_id" value event refl,
        get_other "receiver_thread_ids" "id" (arr left) it refl,
        get_other "receiver_thread_ids" "agent_thread_id" (arr left) it refl,
      )
      refl

-- What a pruned target leaves of an event stands under the event's own key.
keep_some-All :
    (py : Python) (target : String) (e : Key × Fields) (rest : Events)
    → IsOwn py e
    → All (IsOwn py) rest
    → All (IsOwn py) (keep_some e.0 (narrowed target e.1) rest)
unfolding narrowed
keep_some-All py target e rest own h =
    by_item (as_obj (get "item" e.1)) (remaining target (receivers e.1)) refl
  where
    by_item :
        (it : Option Fields) (left : Items)
        → as_obj (get "item" e.1) ≡ it
        → All (IsOwn py) (keep_some e.0 (narrow_item e.1 it left) rest)
    by_item none left q = h
    by_item (some it) no_items q = h
    by_item (some it) (item v more) q =
        let value = obj (set_field "receiver_thread_ids" (arr (item v more)) it) in
        (
          (
            event_key-narrowed py it e.1 (item v more) q ∙ own.0,
            rw (get_other "item" "schema" value e.1 refl) own.1,
          ),
          h,
        )

prune_events-All :
    (py : Python) (target : String) (es : Events)
    → All (IsOwn py) es
    → All (IsOwn py) (prune_events target es)
unfolding prune_events
prune_events-All py target [] h = tt
prune_events-All py target (e ∷ es) h =
    let rest = prune_events-All py target es h.1 in
    if_intro (All (IsOwn py)) (mentions_target e.1 target)
      (keep_some e.0 (narrowed target e.1) (prune_events target es)) (e ∷ prune_events target es)
      (λ _. keep_some-All py target e (prune_events target es) h.0 rest) (λ _. (h.0, rest))

has-keep_some :
    (j k : Key) (left : Option Fields) (rest : Events) (event : Fields)
    → has j ((k, event) ∷ rest) ≡ false
    → has j (keep_some k left rest) ≡ false
unfolding has
has-keep_some j k none rest event h = ground arith
has-keep_some j k (some other) rest event h = h

has-prune_events :
    (target : String) (j : Key) (es : Events)
    → has j es ≡ false
    → has j (prune_events target es) ≡ false
unfolding prune_events has
has-prune_events target j [] h = refl
has-prune_events target j (e ∷ es) h =
    let rest : has j (prune_events target es) ≡ false =
      has-prune_events target j es (ground arith) in
    let both : has j (e ∷ prune_events target es) ≡ false = ground arith in
    if_intro (λ (r : Events). has j r ≡ false) (mentions_target e.1 target)
      (keep_some e.0 (narrowed target e.1) (prune_events target es)) (e ∷ prune_events target es)
      (λ _. has-keep_some j e.0 (narrowed target e.1) (prune_events target es) e.1 both) (λ _. both)

keep_some-Distinct :
    (k : Key) (left : Option Fields) (rest : Events)
    → has k rest ≡ false
    → Distinct rest
    → Distinct (keep_some k left rest)
keep_some-Distinct k none rest h u = u
keep_some-Distinct k (some event) rest h u = (h, u)

prune_events-Distinct :
    (target : String) (es : Events) → Distinct es → Distinct (prune_events target es)
unfolding prune_events
prune_events-Distinct target [] h = tt
prune_events-Distinct target (e ∷ es) h =
    let rest = prune_events-Distinct target es h.1 in
    let apart = has-prune_events target e.0 es h.0 in
    if_intro Distinct (mentions_target e.1 target)
      (keep_some e.0 (narrowed target e.1) (prune_events target es)) (e ∷ prune_events target es)
      (λ _. keep_some-Distinct e.0 (narrowed target e.1) (prune_events target es) apart rest)
      (λ _. (apart, rest))

prune_events-AreEvents :
    (py : Python) (target : String) (es : Events)
    → AreEvents py es
    → AreEvents py (prune_events target es)
prune_events-AreEvents py target es h =
    (prune_events-All py target es h.0, prune_events-Distinct target es h.1)

pop-AreEvents : (py : Python) (k : Key) (es : Events) → AreEvents py es → AreEvents py (pop k es)
pop-AreEvents py k es h = (All-pop (IsOwn py) k es h.0, pop-Distinct k es h.1)

pop-AreTargets : (k : String) (ts : Targets) → AreTargets ts → AreTargets (pop k ts)
pop-AreTargets k ts h = (All-pop IsNamed k ts h.0, pop-Distinct k ts h.1)

-- An event is put at the end, and what stood under its key goes.
renew-AreEvents :
    (py : Python) (event : Fields) (es : Events)
    → is_str (get "schema" event) observer_schema ≡ true
    → AreEvents py es
    → AreEvents py (pop (event_key py event) es ++ ((event_key py event, event) ∷ []))
renew-AreEvents py event es s h =
    let k = event_key py event in
    (
      All-append (IsOwn py) (pop k es) (k, event) (All-pop (IsOwn py) k es h.0) (refl, s),
      append-Distinct k event (pop k es) (has-pop k k es ∙ rw (same_key_refl k) refl)
          (pop-Distinct k es h.1),
    )

renew-AreTargets :
    (target : String) (ts : Targets)
    → (target == "") ≡ false
    → AreTargets ts
    → AreTargets (pop target ts ++ ((target, tt) ∷ []))
renew-AreTargets target ts s h = (
  All-append IsNamed (pop target ts) (target, tt) (All-pop IsNamed target ts h.0) s,
  append-Distinct target tt (pop target ts) (has-pop target target ts ∙ rw (eq_refl target) refl)
      (pop-Distinct target ts h.1),
)

forget-AreTargets :
    (target : Option String) (ts : Targets) → AreTargets ts → AreTargets (forget target ts)
forget-AreTargets none ts h = h
forget-AreTargets (some target) ts h = pop-AreTargets target ts h

pub retain-Entries :
    (py : Python) (event : Fields) (p : Producer)
    → is_str (get "schema" event) observer_schema ≡ true
    → Entries py p
    → Entries py (retain py event p)
unfolding retain
retain-Entries py event p s (active, tombstones, targets) =
    let k = event_key py event in
    (
      if_intro (AreEvents py) (is_terminal_event py event) (pop k p.active)
          (pop k p.active ++ ((k, event) ∷ [])) (λ _. pop-AreEvents py k p.active active)
          (λ _. renew-AreEvents py event p.active s active),
      if_intro (AreEvents py) (is_terminal_event py event) (pop k p.tombstones ++ ((k, event) ∷ []))
          (pop k p.tombstones) (λ _. renew-AreEvents py event p.tombstones s tombstones)
          (λ _. pop-AreEvents py k p.tombstones tombstones),
      forget-AreTargets (event_target event) p.removed_targets targets,
    )

pub prune-Entries :
    (py : Python) (target : String) (p : Producer)
    → (target == "") ≡ false
    → Entries py p
    → Entries py (prune target p)
unfolding prune
prune-Entries py target p s (active, tombstones, targets) = (
  prune_events-AreEvents py target p.active active,
  prune_events-AreEvents py target p.tombstones tombstones,
  renew-AreTargets target p.removed_targets s targets,
)
