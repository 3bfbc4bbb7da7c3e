-- ===== src/Recovery/Once.antt =====
-- How often a failed turn is scheduled (server_overloaded_recovery.py).
use codex_tmux_session_manag.Common.{
  ℕ, suc, ◌+◌, ◌≤◌, ◌<◌, ◌∙◌, String, ◌≡◌, refl, ap, true, false, not, ◌||◌, some, List, [], ◌∷◌,
  ◌++◌, ◌==◌, string_eq, option_eq, arith, eq_refl, length, length-append, drop, ltb, if_intro, inl,
  inr, ◌⊎◌,
}
use codex_tmux_session_manag.Recovery.{
  Controller, Effect, schedule_recovery, observed, remember, observed_turn_limit,
}
use codex_tmux_session_manag.Common.Ordered.{append_assoc}
use native.Mathlib.Nat.{add-zero}

observed-append :
    (thread turn : String) (older newer : List (String × String))
    → observed (thread, turn) (older ++ (thread, turn) ∷ newer) ≡ true
unfolding observed
observed-append thread turn [] newer = ground (arith, eq_refl thread, eq_refl turn)
observed-append thread turn ((t, u) ∷ rest) newer =
    ground (arith, observed-append thread turn rest newer)

-- A turn that is remembered, with at most so many turns remembered after it.
abbrev Recent : String × String → ℕ → List (String × String) → Type 0
Recent key n turns =
    (older : List (String × String)) × (newer : List (String × String)) × (turns
      ≡ older ++ key ∷ newer)
    × (length newer ≤ n)

remember-Recent :
    (key : String × String) (turns : List (String × String)) → Recent key 0 (remember key turns)
unfolding remember
remember-Recent key [] = ([], [], refl, omega arith)
remember-Recent key (o ∷ os) =
    if_intro (Recent key 0) (ltb observed_turn_limit (length ((o ∷ os) ++ key ∷ []))) _ _
      (λ _. (os, [], refl, omega arith)) (λ _. (o ∷ os, [], refl, omega arith))

-- As long as fewer than 256 turns are remembered from it on, a remembered turn is not forgotten.
remember-keeps :
    (key other : String × String) (n : ℕ) (turns : List (String × String))
    → suc n < observed_turn_limit
    → Recent key n turns
    → Recent key (suc n) (remember other turns)
unfolding remember
remember-keeps key other n turns h ([], newer, e, l) =
    let short : ltb observed_turn_limit (length (turns ++ other ∷ [])) ≡ false =
      rw e (ground (arith, length-append newer (other ∷ []))) in
    rw short (
      [],
      newer ++ other ∷ [],
      ap (λ ts. ts ++ other ∷ []) e,
      omega (arith, length-append newer (other ∷ [])),
    )
remember-keeps key other n turns h (o ∷ older, newer, e, l) =
    let all = ap (λ ts. ts ++ other ∷ []) e ∙ append_assoc (o ∷ older) (key ∷ newer) (other ∷ []) in
    let few : length (newer ++ other ∷ []) ≤ suc n =
      omega (arith, length-append newer (other ∷ [])) in
    if_intro (Recent key (suc n)) (ltb observed_turn_limit (length (turns ++ other ∷ []))) _ _
      (λ _. (older, newer ++ other ∷ [], ap (drop 1) all, few))
      (λ _. (o ∷ older, newer ++ other ∷ [], all, few))

-- A report of an overloaded turn: its thread, the turn, and the time on the two clocks.
abbrev pub Report : Type 0
Report = String × String × ℕ × String

abbrev pub report : Report → Controller → Controller × List Effect
report (thread, turn, now, utc) c = schedule_recovery thread turn now utc c

unfoldable pub report_all : List Report → Controller → Controller
report_all [] c = c
report_all (r ∷ rs) c = report_all rs (report r c).0

-- The controller refuses the thread, or remembers the turn.
abbrev Settled : String → String → ℕ → Controller → Type 0
Settled thread turn n c =
    (c.closed || not (c.root_thread_id == some thread) ≡ true)
    ⊎ Recent (thread, turn) n c.observed_terminal_turns

schedule-Settled :
    (thread turn : String) (now : ℕ) (utc : String) (c : Controller)
    → observed (thread, turn) c.observed_terminal_turns ≡ false
    → Settled thread turn 0 (schedule_recovery thread turn now utc c).0
unfolding schedule_recovery
schedule-Settled thread turn now utc c new =
    if_intro (λ (p : Controller × List Effect). Settled thread turn 0 p.0)
      (c.closed || not (c.root_thread_id == some thread)) _ _ (λ refused. inl refused)
      (λ _.
        if_intro (λ (p : Controller × List Effect). Settled thread turn 0 p.0)
          (observed (thread, turn) c.observed_terminal_turns) _ _ (λ seen. cc)
          (λ _. inr (remember-Recent (thread, turn) c.observed_terminal_turns)))

Recent-suc :
    (key : String × String) (n : ℕ) (turns : List (String × String))
    → Recent key n turns
    → Recent key (suc n) turns
Recent-suc key n turns (older, newer, e, l) = (older, newer, e, omega arith)

Settled-suc :
    (thread turn : String) (n : ℕ) (c : Controller)
    → Settled thread turn n c
    → Settled thread turn (suc n) c
Settled-suc thread turn n c (inl refused) = inl refused
Settled-suc thread turn n c (inr r) = inr (Recent-suc (thread, turn) n c.observed_terminal_turns r)

report-Settled :
    (thread turn : String) (n : ℕ) (r : Report) (c : Controller)
    → suc n < observed_turn_limit
    → Settled thread turn n c
    → Settled thread turn (suc n) (report r c).0
unfolding schedule_recovery
report-Settled thread turn n (thread', turn', now, utc) c h s =
    if_intro (λ (p : Controller × List Effect). Settled thread turn (suc n) p.0)
      (c.closed || not (c.root_thread_id == some thread')) _ _ (λ _. Settled-suc thread turn n c s)
      (λ _.
        if_intro (λ (p : Controller × List Effect). Settled thread turn (suc n) p.0)
          (observed (thread', turn') c.observed_terminal_turns) _ _
          (λ _. Settled-suc thread turn n c s) (λ _. remembered s))
  where
    remembered :
        Settled thread turn n c
        → Settled thread turn (suc n) (record c {
          observed_terminal_turns = remember (thread', turn') c.observed_terminal_turns;
        })
    remembered (inl refused) = inl refused
    remembered (inr r) =
        inr (remember-keeps (thread, turn) (thread', turn') n c.observed_terminal_turns h r)

report_all-Settled :
    (thread turn : String) (n : ℕ) (rs : List Report) (c : Controller)
    → n + length rs < observed_turn_limit
    → Settled thread turn n c
    → Settled thread turn (n + length rs) (report_all rs c)
unfolding report_all
report_all-Settled thread turn n [] c h s = rw add-zero s
report_all-Settled thread turn n (r ∷ rs) c h s =
    let shift : suc n + length rs ≡ n + suc (length rs) = omega arith in
    rw (← shift) (
      report_all-Settled thread turn (suc n) rs (report r c).0 (omega arith)
        (report-Settled thread turn n r c (omega arith) s))

Settled-refused :
    (thread turn : String) (n now : ℕ) (utc : String) (c : Controller)
    → Settled thread turn n c
    → schedule_recovery thread turn now utc c ≡ (c, [])
unfolding schedule_recovery
Settled-refused thread turn n now utc c (inl refused) = rw refused refl
Settled-refused thread turn n now utc c (inr (older, newer, e, l)) =
    let seen : observed (thread, turn) c.observed_terminal_turns ≡ true =
      rw e (observed-append thread turn older newer) in
    if_intro (λ p. p ≡ (c, [])) (c.closed || not (c.root_thread_id == some thread)) _ _ (λ _. refl)
      (λ _. rw seen refl)

-- A failed turn is scheduled once: reported when it is not remembered yet, and again after any fewer
-- than 256 reports of whatever turns of whatever threads, at whatever times, the second report
-- changes nothing and has no effect.
pub schedule_recovery_once :
    (thread turn : String) (now now' : ℕ) (utc utc' : String) (between : List Report)
    (c : Controller)
    → observed (thread, turn) c.observed_terminal_turns ≡ false
    → length between < observed_turn_limit
    → let later = report_all between (schedule_recovery thread turn now utc c).0 in
      schedule_recovery thread turn now' utc' later ≡ (later, [])
schedule_recovery_once thread turn now now' utc utc' between c new few =
    let first = (schedule_recovery thread turn now utc c).0 in
    Settled-refused thread turn (0 + length between) now' utc' (report_all between first) (
      report_all-Settled thread turn 0 between first (omega arith)
        (schedule-Settled thread turn now utc c new))
