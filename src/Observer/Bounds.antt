-- ===== src/Observer/Bounds.antt =====
-- What every operation of the producer of rodex/observer_state.py keeps.
use codex_tmux_session_manag.Common.{
  ℕ, zero, suc, ◌+◌, ◌-◌, ◌≤◌, ◌≡◌, refl, [], ◌∷◌, string_eq, nat_eq, length, arith, ltb,
  Bool-cases, inl, inr, ◌⊎◌, false,
}
use codex_tmux_session_manag.Common.Ordered.{pop_first, pop_first-Distinct, All-pop_first}
use codex_tmux_session_manag.Observer.{
  Python, key_eq, observer_snapshot_event_limit, observer_snapshot_max_bytes,
}
use codex_tmux_session_manag.Observer.Producer.{
  Events, Targets, Producer, retained, drop_oldest, enforce_on, enforce_bounds, snapshot_value,
  shed, trim_on, trim,
}
use codex_tmux_session_manag.Observer.Snapshots.{IsOwn, IsNamed, AreEvents, AreTargets, IsValid}

-- The entries, without the bound on their number.
abbrev pub Entries : Python → Producer → Type 0
Entries py p = AreEvents py p.active × AreEvents py p.tombstones × AreTargets p.removed_targets

first-AreEvents : (py : Python) (es : Events) → AreEvents py es → AreEvents py (pop_first es)
first-AreEvents py es h = (All-pop_first (IsOwn py) es h.0, pop_first-Distinct es h.1)

first-AreTargets : (ts : Targets) → AreTargets ts → AreTargets (pop_first ts)
first-AreTargets ts h = (All-pop_first IsNamed ts h.0, pop_first-Distinct ts h.1)

keep_events :
    (py : Python) (xs : Targets) (es : Events)
    → AreEvents py es
    → AreEvents py (elim xs [ [] ↦ pop_first es | _ ↦ es ])
keep_events py [] es h = first-AreEvents py es h
keep_events py (x ∷ xs) es h = h

keep_events' :
    (py : Python) (xs : Events) (es : Events)
    → AreEvents py es
    → AreEvents py (elim xs [ [] ↦ pop_first es | _ ↦ es ])
keep_events' py [] es h = first-AreEvents py es h
keep_events' py (x ∷ xs) es h = h

keep_targets :
    (xs : Events) (ts : Targets)
    → AreTargets ts
    → AreTargets (elim xs [ [] ↦ pop_first ts | _ ↦ ts ])
keep_targets [] ts h = first-AreTargets ts h
keep_targets (x ∷ xs) ts h = h

drop_active :
    (py : Python) (xs : Events) (ts : Targets) (es : Events)
    → AreEvents py es
    → AreEvents py (elim xs [ [] ↦ elim ts [ [] ↦ pop_first es | _ ↦ es ] | _ ↦ es ])
drop_active py [] ts es h = keep_events py ts es h
drop_active py (x ∷ xs) ts es h = h

shed_targets :
    (xs ys : Events) (ts : Targets)
    → AreTargets ts
    → AreTargets (elim xs [ [] ↦ elim ys [ [] ↦ pop_first ts | _ ↦ ts ] | _ ↦ ts ])
shed_targets [] ys ts h = keep_targets ys ts h
shed_targets (x ∷ xs) ys ts h = h

drop-Entries : (py : Python) (p : Producer) → Entries py p → Entries py (drop_oldest p)
drop-Entries py p (active, tombstones, targets) = (
  drop_active py p.tombstones p.removed_targets p.active active,
  first-AreEvents py p.tombstones tombstones,
  keep_targets p.tombstones p.removed_targets targets,
)

shed-Entries : (py : Python) (p : Producer) → Entries py p → Entries py (shed p)
shed-Entries py p (active, tombstones, targets) = (
  first-AreEvents py p.active active,
  keep_events' py p.active p.tombstones tombstones,
  shed_targets p.active p.tombstones p.removed_targets targets,
)

retained-drop_oldest : (p : Producer) → retained (drop_oldest p) ≡ retained p - 1
retained-drop_oldest p = by_lists p.tombstones p.removed_targets p.active
  where
    by_lists :
        (xs : Events) (ts : Targets) (es : Events)
        → length (elim xs [ [] ↦ elim ts [ [] ↦ pop_first es | _ ↦ es ] | _ ↦ es ])
            + length (pop_first xs)
            + length (elim xs [ [] ↦ pop_first ts | _ ↦ ts ])
          ≡ length es + length xs + length ts - 1
    by_lists [] [] [] = refl
    by_lists [] [] (e ∷ es) = omega arith
    by_lists [] (t ∷ ts) es = omega arith
    by_lists (x ∷ xs) ts es = omega arith

retained-shed : (p : Producer) → retained (shed p) ≡ retained p - 1
retained-shed p = by_lists p.active p.tombstones p.removed_targets
  where
    by_lists :
        (es xs : Events) (ts : Targets)
        → length (pop_first es)
            + length (elim es [ [] ↦ pop_first xs | _ ↦ xs ])
            + length (elim es [ [] ↦ elim xs [ [] ↦ pop_first ts | _ ↦ ts ] | _ ↦ ts ])
          ≡ length es + length xs + length ts - 1
    by_lists [] [] [] = refl
    by_lists [] [] (t ∷ ts) = omega arith
    by_lists [] (x ∷ xs) ts = omega arith
    by_lists (e ∷ es) xs ts = omega arith

enforce_on-Entries :
    (py : Python) (rounds : ℕ) (p : Producer) → Entries py p → Entries py (enforce_on rounds p)
unfolding enforce_on
enforce_on-Entries py zero p h = h
enforce_on-Entries py (suc rounds) p h =
    elim (Bool-cases (ltb observer_snapshot_event_limit (retained p))) [
      | inl over ↦
          rw (enforce_on, over) (enforce_on-Entries py rounds (drop_oldest p) (drop-Entries py p h))
      | inr fits ↦ rw (enforce_on, fits) h
    ]

retained-enforce_on :
    (rounds : ℕ) (p : Producer)
    → retained p ≤ rounds + observer_snapshot_event_limit
    → retained (enforce_on rounds p) ≤ observer_snapshot_event_limit
unfolding enforce_on
retained-enforce_on zero p h = h
retained-enforce_on (suc rounds) p h =
    elim (Bool-cases (ltb observer_snapshot_event_limit (retained p))) [
      | inl over ↦
          rw (enforce_on, over)
            (retained-enforce_on rounds (drop_oldest p) (rw (retained-drop_oldest p) (omega arith)))
      | inr fits ↦ rw (enforce_on, fits) (ground arith)
    ]

pub enforce_bounds-IsValid :
    (py : Python) (p : Producer) → Entries py p → IsValid py (enforce_bounds p)
unfolding enforce_bounds
enforce_bounds-IsValid py p h =
    let (active, tombstones, targets) = enforce_on-Entries py (retained p) p h in
    (active, tombstones, targets, retained-enforce_on (retained p) p (omega arith))

trim_on-IsValid :
    (py : Python) (rounds : ℕ) (p : Producer) → IsValid py p → IsValid py (trim_on py rounds p)
unfolding trim_on
trim_on-IsValid py zero p h = h
trim_on-IsValid py (suc rounds) p (active, tombstones, targets, few) =
    elim (Bool-cases (ltb observer_snapshot_max_bytes (py.size (snapshot_value p)))) [
      | inl over ↦
          rw (trim_on, over)
            (let (a, t, r) = shed-Entries py p (active, tombstones, targets) in
              trim_on-IsValid py rounds (shed p)
                (a, t, r, rw (retained-shed p) (omega (arith, few))))
      | inr fits ↦ rw (trim_on, fits) (active, tombstones, targets, few)
    ]

pub trim-IsValid : (py : Python) (p : Producer) → IsValid py p → IsValid py (trim py p)
unfolding trim
trim-IsValid py p h = trim_on-IsValid py (retained p) p h

-- The snapshot is small enough, or nothing is left that could be given up.
abbrev pub Fits : Python → Producer → Type 0
Fits py p = (py.size (snapshot_value p) ≤ observer_snapshot_max_bytes) ⊎ (retained p ≡ 0)

trim_on-Fits :
    (py : Python) (rounds : ℕ) (p : Producer) → retained p ≤ rounds → Fits py (trim_on py rounds p)
unfolding trim_on
trim_on-Fits py zero p h = inr (omega arith)
trim_on-Fits py (suc rounds) p h =
    elim (Bool-cases (ltb observer_snapshot_max_bytes (py.size (snapshot_value p)))) [
      | inl over ↦
          rw (trim_on, over) (trim_on-Fits py rounds (shed p) (rw (retained-shed p) (omega arith)))
      | inr fits ↦ rw (trim_on, fits) (inl (ground arith))
    ]

-- What is small enough already is left as it is.
trim_on_idem :
    (py : Python) (rounds : ℕ) (p : Producer)
    → rounds ≡ retained p
    → Fits py p
    → trim_on py rounds p ≡ p
unfolding trim_on
trim_on_idem py zero p e f = refl
trim_on_idem py (suc rounds) p e (inl small) =
    let fits : ltb observer_snapshot_max_bytes (py.size (snapshot_value p)) ≡ false =
      ground arith in
    rw (trim_on, fits) refl
trim_on_idem py (suc rounds) p e (inr empty) = absurd (omega arith)

pub trim_idem : (py : Python) (p : Producer) → Fits py p → trim py p ≡ p
unfolding trim
trim_idem py p f = trim_on_idem py (retained p) p refl f

pub trim-Fits : (py : Python) (p : Producer) → Fits py (trim py p)
unfolding trim
trim-Fits py p = trim_on-Fits py (retained p) p (omega arith)
