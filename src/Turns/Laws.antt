-- ===== src/Turns/Laws.antt =====
-- What the turn lifecycle promises over a sequence of records (rollout_turn_lifecycle.py).
use codex_tmux_session_manag.Common.{
  ℕ, ◌+◌, ◌≤◌, String, ◌≡◌, refl, Bool, true, false, not, ◌&&◌, Option, none, some, List, [], ◌∷◌,
  ◌==◌, string_eq, option_eq, arith, eq_iff, eq_refl, if◌then◌else◌, if_intro, Bool-cases, inl, inr,
}
use codex_tmux_session_manag.Common.Dict.{member, member-add}
use codex_tmux_session_manag.Turns.{
  Lifecycle, Observation, fresh, observe, start, initialize, end_turn, is_start, is_context,
  is_terminal,
}

-- A rollout record, as far as the lifecycle reads it.
pub record Event : Type 0 where
  pub record_type : Option String
  pub payload_type : Option String
  pub explicit_turn_id : Option String

abbrev pub observed : Event → Lifecycle → Lifecycle × Observation
observed e life = observe e.record_type e.payload_type e.explicit_turn_id life

unfoldable pub run : List Event → Lifecycle → Lifecycle
run [] life = life
run (e ∷ es) life = run es (observed e life).0

-- Whether a record, observed as eligible, ends the turn t.
abbrev pub closes : String → Event → Observation → Bool
closes t e saw =
    saw.lifecycle_eligible
    && not (is_start e.record_type e.payload_type e.explicit_turn_id)
    && (e.explicit_turn_id == some t)

unfoldable pub closings : String → List Event → Lifecycle → ℕ
closings t [] life = 0
closings t (e ∷ es) life =
    (if closes t e (observed e life).1 then 1 else 0) + closings t es (observed e life).0

abbrev closed : String → Lifecycle → ℕ
closed t life = if member t life.terminal_turn_ids then 1 else 0

-- A step closes t only if it was not closed.
abbrev Steps : String → Event → Lifecycle → Lifecycle × Observation → Type 0
Steps t e life (life', saw) = (if closes t e saw then 1 else 0) + closed t life ≤ closed t life'

end_turn-closed :
    (t id : String) (life : Lifecycle)
    → member id life.terminal_turn_ids ≡ false
    → (if id == t then 1 else 0) + closed t life ≤ closed t (end_turn (some id) life)
unfolding end_turn
end_turn-closed t id life h = ground (arith, member-add id t life.terminal_turn_ids, eq_iff id t)

closes-closed :
    (t : String) (rt pt id : Option String) (life : Lifecycle)
    → let e : Event = record { record_type = rt; payload_type = pt; explicit_turn_id = id } in
      Steps t e life (observed e life)
unfolding observe start initialize
closes-closed t rt pt none life =
    let e : Event = record { record_type = rt; payload_type = pt; explicit_turn_id = none } in
    if_intro (Steps t e life) (is_start rt pt none) _ _ (λ s. ground arith)
      (λ s.
        if_intro (Steps t e life) (is_context rt life) _ _ (λ c. omega arith)
          (λ c.
            if_intro (Steps t e life) (is_terminal rt pt none life) _ _ (λ x. absurd (ground arith))
              (λ x. omega arith)))
closes-closed t rt pt (some id) life =
    let e : Event = record { record_type = rt; payload_type = pt; explicit_turn_id = some id } in
    if_intro (Steps t e life) (is_start rt pt (some id)) _ _ (λ s. ground arith)
      (λ s.
        if_intro (Steps t e life) (is_context rt life) _ _ (λ c. omega arith)
          (λ c.
            if_intro (Steps t e life) (is_terminal rt pt (some id) life) _ _
              (λ x. let h = end_turn-closed t id life (ground arith) in rw s h) (λ x. omega arith)))

closings-closed :
    (t : String) (es : List Event) (life : Lifecycle)
    → closings t es life + closed t life ≤ closed t (run es life)
unfolding closings run
closings-closed t [] life = omega arith
closings-closed t (e ∷ es) life =
    let step = closes-closed t e.record_type e.payload_type e.explicit_turn_id life in
    let rest = closings-closed t es (observed e life).0 in omega arith

-- Over any sequence of records, from any state of the lifecycle, at most one record is observed as
-- the eligible end of a turn, and none is if the turn had already ended.
pub closes_once :
    (t : String) (es : List Event) (life : Lifecycle)
    → closings t es life ≤ (if member t life.terminal_turn_ids then 0 else 1)
closes_once t es life =
    let sum = closings-closed t es life in
    let most : closed t (run es life) ≤ 1 = ground arith in ground arith

-- Every turn that ended was started.
abbrev pub EndedWereStarted : Lifecycle → Type 0
EndedWereStarted life =
    (t : String) → member t life.terminal_turn_ids ≡ true → member t life.started_turn_ids ≡ true

-- What an eligible observation says: it names its record's own turn, and that turn was started.
abbrev pub IsEligible : Event → Lifecycle × Observation → Type 0
IsEligible e (life, saw) =
    saw.lifecycle_eligible ≡ true
    → (id : String) × (e.explicit_turn_id ≡ some id) × (member id life.started_turn_ids ≡ true)

start-EndedWereStarted :
    (id : String) (life : Lifecycle)
    → EndedWereStarted life
    → EndedWereStarted (start (some id) life)
unfolding start
start-EndedWereStarted id life h t ended =
    let old = h t ended in ground (arith, member-add id t life.started_turn_ids)

end_turn-EndedWereStarted :
    (id : String) (life : Lifecycle)
    → member id life.started_turn_ids ≡ true
    → EndedWereStarted life
    → EndedWereStarted (end_turn (some id) life)
unfolding end_turn
end_turn-EndedWereStarted id life started h t ended = elim (Bool-cases (id == t)) [
  | inl same ↦ ground (arith, eq_iff id t)
  | inr other ↦ h t (ground (arith, member-add id t life.terminal_turn_ids))
]

end_turn-started :
    (id : String) (life : Lifecycle)
    → member id life.started_turn_ids ≡ true
    → member id (end_turn (some id) life).started_turn_ids ≡ true
unfolding end_turn
end_turn-started id life h = h

start-IsEligible :
    (id : String) (life : Lifecycle) → member id (start (some id) life).started_turn_ids ≡ true
unfolding start
start-IsEligible id life = ground (arith, member-add id id life.started_turn_ids, eq_refl id)

abbrev Good : Event → Lifecycle × Observation → Type 0
Good e r = EndedWereStarted r.0 × IsEligible e r

observed-none :
    (rt pt : Option String) (life : Lifecycle)
    → EndedWereStarted life
    → let e : Event = record { record_type = rt; payload_type = pt; explicit_turn_id = none } in
      Good e (observed e life)
unfolding observe initialize
observed-none rt pt life h =
    let e : Event = record { record_type = rt; payload_type = pt; explicit_turn_id = none } in
    if_intro (Good e) (is_start rt pt none) _ _ (λ s. absurd (ground arith))
      (λ s.
        if_intro (Good e) (is_context rt life) _ _ (λ c. (h, λ d. cc))
          (λ c.
            if_intro (Good e) (is_terminal rt pt none life) _ _ (λ x. absurd (ground arith))
              (λ x. (h, λ d. cc))))

observed-some :
    (rt pt : Option String) (id : String) (life : Lifecycle)
    → EndedWereStarted life
    → let e : Event = record { record_type = rt; payload_type = pt; explicit_turn_id = some id } in
      Good e (observed e life)
unfolding observe initialize
observed-some rt pt id life h =
    let e : Event = record { record_type = rt; payload_type = pt; explicit_turn_id = some id } in
    if_intro (Good e) (is_start rt pt (some id)) _ _
      (λ s. (start-EndedWereStarted id life h, λ d. (id, refl, start-IsEligible id life)))
      (λ s.
        if_intro (Good e) (is_context rt life) _ _ (λ c. (h, λ d. cc))
          (λ c.
            if_intro (Good e) (is_terminal rt pt (some id) life) _ _
              (λ x.
                let started : member id life.started_turn_ids ≡ true = ground arith in
                (
                  end_turn-EndedWereStarted id life started h,
                  λ d. (id, refl, end_turn-started id life started),
                ))
              (λ x. (h, λ d. cc))))

observed-Good :
    (rt pt id : Option String) (life : Lifecycle)
    → EndedWereStarted life
    → let e : Event = record { record_type = rt; payload_type = pt; explicit_turn_id = id } in
      Good e (observed e life)
observed-Good rt pt none life h = observed-none rt pt life h
observed-Good rt pt (some id) life h = observed-some rt pt id life h

pub run-EndedWereStarted :
    (es : List Event) (life : Lifecycle) → EndedWereStarted life → EndedWereStarted (run es life)
unfolding run
run-EndedWereStarted [] life h = h
run-EndedWereStarted (e ∷ es) life h =
    run-EndedWereStarted es (observed e life).0
      (observed-Good e.record_type e.payload_type e.explicit_turn_id life h).0

-- After any sequence of records from a fresh lifecycle, every turn that ended was started, and if
-- the next record is observed as eligible, it carries an explicit turn, which is then started:
-- neither a context nor a record without an identity has lifecycle authority.
pub only_explicit_starts :
    (es : List Event) (e : Event)
    → EndedWereStarted (run es fresh) × IsEligible e (observed e (run es fresh))
only_explicit_starts es e =
    let good = run-EndedWereStarted es fresh (λ t ended. ended) in
    (good, (observed-Good e.record_type e.payload_type e.explicit_turn_id (run es fresh) good).1)
