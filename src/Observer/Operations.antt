-- ===== src/Observer/Operations.antt =====
-- The operations of the producer of rodex/observer_state.py, one after the other: what each keeps, and
-- how each moves the epoch, the revision and the count of dropped events.
use codex_tmux_session_manag.Common.{
  ℕ, zero, suc, ◌≤◌, ◌<◌, String, ◌≡◌, ◌∙◌, refl, Bool, true, false, Option, none, some, ◌==◌,
  string_eq, nat_eq, arith, ltb, Bool-cases, inl, inr, ◌⊎◌,
}
use codex_tmux_session_manag.Common.Json.{Fields, get, is_str}
use codex_tmux_session_manag.Observer.{
  Python, observer_schema, observer_snapshot_event_limit, observer_snapshot_max_bytes,
}
use codex_tmux_session_manag.Observer.Producer.{
  Producer, retained, advance_revision, drop_oldest, enforce_on, enforce_bounds, retain, prune,
  clear_epoch, mark_incomplete, snapshot_value, shed, trim_on, trim, observe, prune_target,
  reset_epoch, publish, discard_producer_state,
}
use codex_tmux_session_manag.Observer.Snapshots.{IsValid}
use codex_tmux_session_manag.Observer.Bounds.{Fits, enforce_bounds-IsValid, trim-IsValid, trim-Fits}
use codex_tmux_session_manag.Observer.Retention.{retain-Entries, prune-Entries}

pub data Operation : Type 0 where
  observed : Fields → Operation
  pruned : String → Operation
  reset marked : Operation
  showed : Operation  -- the public snapshot
  discarded : Operation

abbrev published : Producer → Option (Producer × Fields) → Producer × Option Fields
published p none = (p, none)
published p (some (q, snapshot)) = (q, some snapshot)

-- One operation, and the snapshot that it hands out. What raises leaves the producer as it was.
unfoldable pub step : Python → Operation → Producer → Producer × Option Fields
unfolding observe prune_target reset_epoch mark_incomplete trim discard_producer_state
step py (observed event) p = published p (some (observe py event p))
step py (pruned target) p = published p (prune_target py target p)
step py reset p = published p (some (reset_epoch py p))
step py marked p = (mark_incomplete p, none)
step py showed p = published p (some (publish py p))
step py discarded p = (discard_producer_state p, none)

-- The state is discarded at shutdown, once the dispatcher of snapshots is closed (close of
-- rodex/agent_observer.py), so that nothing which the producer hands out later is sent.
abbrev pub is_final : Operation → Bool
is_final discarded = true
is_final _ = false

-- An event that is observed has the schema of the trace.
abbrev pub IsTraced : Operation → Type 0
IsTraced (observed event) = is_str (get "schema" event) observer_schema ≡ true
IsTraced _ = Unit

-- The epoch and the revision are the same, and no fewer events are dropped.
abbrev Same : Producer → Producer → Type 0
Same p q =
    (q.epoch ≡ p.epoch)
    × (q.revision ≡ p.revision)
    × (p.dropped_event_count ≤ q.dropped_event_count)

-- A later epoch, or a later revision of the same epoch with no fewer events dropped.
abbrev pub Later : Producer → Producer → Type 0
Later p q =
    (p.epoch < q.epoch)
    ⊎ ((q.epoch ≡ p.epoch)
        × (p.revision < q.revision)
        × (p.dropped_event_count ≤ q.dropped_event_count))

enforce_on-Same : (rounds : ℕ) (p : Producer) → Same p (enforce_on rounds p)
unfolding enforce_on
enforce_on-Same zero p = (refl, refl, omega arith)
enforce_on-Same (suc rounds) p =
    elim (Bool-cases (ltb observer_snapshot_event_limit (retained p))) [
      | inl over ↦
          rw (enforce_on, over)
            (let (e, r, d) = enforce_on-Same rounds (drop_oldest p) in (e, r, omega arith))
      | inr fits ↦ rw (enforce_on, fits) (refl, refl, omega arith)
    ]

trim_on-Same : (py : Python) (rounds : ℕ) (p : Producer) → Same p (trim_on py rounds p)
unfolding trim_on
trim_on-Same py zero p = (refl, refl, omega arith)
trim_on-Same py (suc rounds) p =
    elim (Bool-cases (ltb observer_snapshot_max_bytes (py.size (snapshot_value p)))) [
      | inl over ↦
          rw (trim_on, over)
            (let (e, r, d) = trim_on-Same py rounds (shed p) in (e, r, omega arith))
      | inr fits ↦ rw (trim_on, fits) (refl, refl, omega arith)
    ]

enforce_bounds-Same : (p : Producer) → Same p (enforce_bounds p)
unfolding enforce_bounds
enforce_bounds-Same p = enforce_on-Same (retained p) p

pub trim-Same : (py : Python) (p : Producer) → Same p (trim py p)
unfolding trim
trim-Same py p = trim_on-Same py (retained p) p

-- What is bounded, trimmed and handed out after a change that advances the revision is later.
publish-Later :
    (py : Python) (p q : Producer)
    → Same p q
    → Later p (publish py (enforce_bounds (advance_revision q))).0
publish-Later py p q (e, r, d) =
    let (e1, r1, d1) = enforce_bounds-Same (advance_revision q) in
    let (e2, r2, d2) = trim-Same py (enforce_bounds (advance_revision q)) in
    inr (e2 ∙ e1 ∙ e, omega arith, omega arith)

retain-Same : (py : Python) (event : Fields) (p : Producer) → Same p (retain py event p)
unfolding retain
retain-Same py event p = (refl, refl, omega arith)

prune-Same : (target : String) (p : Producer) → Same p (prune target p)
unfolding prune
prune-Same target p = (refl, refl, omega arith)

-- Unless it is the last, an operation raises, or leaves a later state, or only trims the state.
pub step-Later :
    (py : Python) (op : Operation) (p : Producer)
    → is_final op ≡ false
    → ((step py op p ≡ (p, none)) ⊎ (Later p (step py op p).0 ⊎ ((step py op p).0 ≡ trim py p)))
unfolding step observe prune_target reset_epoch clear_epoch mark_incomplete discard_producer_state
step-Later py (observed event) p n =
    inr (inl (publish-Later py p (retain py event p) (retain-Same py event p)))
step-Later py (pruned target) p n = elim (Bool-cases (target == "")) [
  | inl empty ↦ inl (rw (prune_target, empty) refl)
  | inr named ↦
      inr
        (rw (prune_target, named) (inl (publish-Later py p (prune target p) (prune-Same target p))))
]
step-Later py reset p n =
    let (e, r, d) = trim-Same py (clear_epoch p) in inr (inl (inl (omega arith)))
step-Later py marked p n = inr (inl (inr (refl, omega arith, omega arith)))
step-Later py showed p n = inr (inr refl)
step-Later py discarded p n = cc

-- The snapshot that is handed out is that of the producer as it is left, trimmed to its size.
abbrev pub Shows : Python → Producer × Option Fields → Type 0
Shows py (q, none) = Unit
Shows py (q, some snapshot) = (snapshot ≡ snapshot_value q) × Fits py q

-- Whatever operation a valid producer is given (an event, a target to prune, a new epoch, a mark that
-- correlation is incomplete, a public snapshot, or the discarding of its state), it stays valid, and
-- what it hands out is its own snapshot, which is small enough or empty. An event that is observed
-- has the schema of the trace.
pub step-IsValid :
    (py : Python) (op : Operation) (p : Producer)
    → IsTraced op
    → IsValid py p
    → IsValid py (step py op p).0 × Shows py (step py op p)
unfolding step observe prune_target reset_epoch clear_epoch mark_incomplete discard_producer_state
step-IsValid py (observed event) p s (a, t, r, few) =
    let left = enforce_bounds (advance_revision (retain py event p)) in
    let valid =
      enforce_bounds-IsValid py (advance_revision (retain py event p))
        (retain-Entries py event p s (a, t, r)) in
    (trim-IsValid py left valid, (refl, trim-Fits py left))
step-IsValid py (pruned target) p s (a, t, r, few) = elim (Bool-cases (target == "")) [
  | inl empty ↦ rw (prune_target, empty) ((a, t, r, few), tt)
  | inr named ↦
      rw (prune_target, named)
        (let left = enforce_bounds (advance_revision (prune target p)) in
          let valid =
            enforce_bounds-IsValid py (advance_revision (prune target p))
              (prune-Entries py target p named (a, t, r)) in
          (trim-IsValid py left valid, (refl, trim-Fits py left)))
]
step-IsValid py reset p s h = (
  trim-IsValid py (clear_epoch p) ((tt, tt), (tt, tt), (tt, tt), omega arith),
  (refl, trim-Fits py (clear_epoch p)),
)
step-IsValid py marked p s h = (h, tt)
step-IsValid py showed p s h = (trim-IsValid py p h, (refl, trim-Fits py p))
step-IsValid py discarded p s h = (((tt, tt), (tt, tt), (tt, tt), omega arith), tt)
