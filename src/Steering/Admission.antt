-- ===== src/Steering/Admission.antt =====
-- What the final check before the send establishes (context_threshold_steering.py).
use codex_tmux_session_manag.Common.{
  ℕ, String, ◌≡◌, ◌≢◌, true, false, none, some, [], arith, eq_refl, text_eq_iff, Option-cases, inl,
  inr,
}
use codex_tmux_session_manag.Common.Dict.{lookup, lookup-without, member, member-add}
use codex_tmux_session_manag.Steering.{Attempt, Controller, crossed}
use codex_tmux_session_manag.Steering.Dispatch.{
  admit_dispatch, admit_retained, Request, is_attempt, admitted, current, matches,
}

-- What both sides of an admitted request agree on.
pub record IsExact (q : Request) (c : Controller) (a : Attempt) : Type 0 where
  pub retained : lookup q.request_id c.dispatch_requests ≡ some (c.generation, a)
  pub pending : is_attempt c.pending_attempt a ≡ true
  pub is_open : c.closed ≡ false
  pub ready : c.dispatch_ready ≡ true
  pub thread : q.expected_thread_id ≡ c.root_thread_id
  pub turn : q.expected_turn_id ≡ c.active_turn_id
  pub dispatch : q.dispatch_id ≡ some a.dispatch_id
  pub text : q.text ≡ some c.message
  pub steer : q.is_steer ≡ true
  pub settled : c.active_compaction_item_ids ≡ []
  pub above : crossed c ≡ true

current_facts :
    (g : ℕ) (a : Attempt) (c : Controller)
    → current g a c ≡ true
    → (c.closed ≡ false)
      × (g ≡ c.generation)
      × (is_attempt c.pending_attempt a ≡ true)
      × (c.dispatch_ready ≡ true)
      × (c.root_thread_id ≡ some a.thread_id)
      × (c.active_turn_id ≡ some a.turn_id)
      × (c.active_compaction_item_ids ≡ [])
      × (crossed c ≡ true)
unfolding current
current_facts g a c h = ground (
  arith,
  text_eq_iff c.root_thread_id (some a.thread_id),
  text_eq_iff c.active_turn_id (some a.turn_id),
)

matches_facts :
    (q : Request) (a : Attempt) (message : String)
    → matches q a message ≡ true
    → (q.is_steer ≡ true)
      × (q.expected_thread_id ≡ some a.thread_id)
      × (q.expected_turn_id ≡ some a.turn_id)
      × (q.dispatch_id ≡ some a.dispatch_id)
      × (q.text ≡ some message)
unfolding matches
matches_facts q a message h = ground (
  arith,
  text_eq_iff q.expected_thread_id (some a.thread_id),
  text_eq_iff q.expected_turn_id (some a.turn_id),
  text_eq_iff q.dispatch_id (some a.dispatch_id),
  text_eq_iff q.text (some message),
)

-- `current` and `matches` as an admission passes them.
admit_retained_lem :
    (q : Request) (g : ℕ) (a : Attempt) (c c' : Controller)
    → admit_retained q (some (g, a)) c ≡ (c', admitted)
    → (current g a c ≡ true)
      × (matches q a c.message ≡ true)
      × (member q.request_id c'.admitted_request_ids ≡ true)
      × (lookup q.request_id c'.dispatch_requests ≡ none)
unfolding admit_retained
admit_retained_lem q g a c c' e = ground (
  arith,
  eq_refl q.request_id,
  member-add q.request_id q.request_id c.admitted_request_ids,
  lookup-without q.request_id q.request_id c.dispatch_requests,
)

admit_retained-none : (q : Request) (c c' : Controller) → admit_retained q none c ≢ (c', admitted)
unfolding admit_retained
admit_retained-none q c c' e = cc

admit_dispatch-eq :
    (q : Request) (c c' : Controller)
    → admit_dispatch q c ≡ (c', admitted)
    → admit_retained q (lookup q.request_id c.dispatch_requests) c ≡ (c', admitted)
unfolding admit_dispatch
admit_dispatch-eq q c c' e = ground arith

-- A steer is sent only if, at that moment, the request was retained for the pending attempt in the
-- current generation, names the live root thread and the turn active in it, carries the attempt's
-- dispatch id and the configured message, no compaction is under way, and the context is at the
-- threshold or above; the request is then recorded as admitted and cannot be admitted again.
pub admit_dispatch-IsExact :
    (q : Request) (c : Controller) {c' : Controller}
    → admit_dispatch q c ≡ (c', admitted)
    → (a : Attempt) × IsExact q c a
      × (member q.request_id c'.admitted_request_ids ≡ true)
      × (lookup q.request_id c'.dispatch_requests ≡ none)
admit_dispatch-IsExact q c {c'} e =
    let e' = admit_dispatch-eq q c c' e in
    elim (Option-cases (lookup q.request_id c.dispatch_requests)) [
      | inl unknown ↦ absurd (admit_retained-none q c c' (rw unknown at e'))
      | inr ((g, a), found) ↦
          let (cur, mat, ids, gone) = admit_retained_lem q g a c c' (rw found at e') in
          let (is_open, now, pending, ready, thread, turn, settled, above) =
            current_facts g a c cur in
          let (steer, thread', turn', dispatch, text) = matches_facts q a c.message mat in
          (
            a,
            record {
              retained = rw (← now) found;
              pending = pending;
              is_open = is_open;
              ready = ready;
              thread = cc;
              turn = cc;
              dispatch = dispatch;
              text = text;
              steer = steer;
              settled = settled;
              above = above;
            },
            ids,
            gone,
          )
    ]
