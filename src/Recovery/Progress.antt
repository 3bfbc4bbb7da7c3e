-- ===== src/Recovery/Progress.antt =====
-- What one overload does to the controller (server_overloaded_recovery.py).
use codex_tmux_session_manag.Common.{
  ℕ, suc, ◌+◌, ◌≤◌, ◌*◌, ◌^◌, ◌∙◌, min, String, ◌≡◌, refl, ap, false, none, some, List, [], ◌∷◌,
  arith, eq_refl, length,
}
use codex_tmux_session_manag.Recovery.{
  Attempt, new_attempt, Controller, schedule_recovery, observed, recovery_delay_seconds,
  reset_window,
}
use codex_tmux_session_manag.Recovery.Backoff.{recovery_delay_seconds-closed}
use native.Mathlib.Nat.{add-zero}

-- Reports of overloaded turns of one thread: each names its turn and how long after the previous
-- report it comes.
unfoldable pub reports : String → String → ℕ → List (String × ℕ) → Controller → Controller
reports thread utc now [] c = c
reports thread utc now ((turn, gap) ∷ rest) c =
    reports thread utc (now + gap) rest (schedule_recovery thread turn (now + gap) utc c).0

-- Every report is new when it arrives, and comes within the reset window.
abbrev pub IsBurst : String → String → ℕ → List (String × ℕ) → Controller → Type 0
IsBurst thread utc now [] c = Unit
IsBurst thread utc now ((turn, gap) ∷ rest) c =
    (gap ≤ reset_window)
    × (observed (thread, turn) c.observed_terminal_turns ≡ false)
    × IsBurst thread utc (now + gap) rest (schedule_recovery thread turn (now + gap) utc c).0

-- An open controller that has counted so many overloads of the thread, the last of them now.
abbrev BackingOff : String → ℕ → ℕ → Controller → Type 0
BackingOff thread now count c =
    (c.closed ≡ false)
    × (c.root_thread_id ≡ some thread)
    × (c.last_server_overloaded_monotonic ≡ some now)
    × (c.server_overloaded_count ≡ count)

abbrev Waits : String → ℕ → Controller → Type 0
Waits thread count c =
    (p : Attempt) × (c.pending_attempt ≡ some p)
    × (p.thread_id ≡ thread)
    × (p.delay_seconds ≡ recovery_delay_seconds count)

module _ (thread turn : String) (now gap : ℕ) (utc : String) (count : ℕ) (c : Controller) where
  first-BackingOff :
      c.closed ≡ false
      → c.root_thread_id ≡ some thread
      → c.last_server_overloaded_monotonic ≡ none
      → observed (thread, turn) c.observed_terminal_turns ≡ false
      → BackingOff thread now 1 (schedule_recovery thread turn now utc c).0
  unfolding schedule_recovery
  first-BackingOff o r l f = ground (arith, eq_refl thread)

  next-BackingOff :
      BackingOff thread now count c
      → gap ≤ reset_window
      → observed (thread, turn) c.observed_terminal_turns ≡ false
      → BackingOff thread
          (now + gap)
          (count + 1)
          (schedule_recovery thread turn (now + gap) utc c).0
  unfolding schedule_recovery
  next-BackingOff b w f = ground (arith, eq_refl thread)

  schedule-Waits :
      c.closed ≡ false
      → c.root_thread_id ≡ some thread
      → observed (thread, turn) c.observed_terminal_turns ≡ false
      → (schedule_recovery thread turn now utc c).0.server_overloaded_count ≡ count
      → Waits thread count (schedule_recovery thread turn now utc c).0
  unfolding schedule_recovery
  schedule-Waits o r f e = (
    new_attempt thread turn now utc c,
    ground (arith, eq_refl thread),
    refl,
    ap recovery_delay_seconds (ground (arith, eq_refl thread)),
  )

reports-Waits :
    (thread utc : String) (now count : ℕ) (l : List (String × ℕ)) (c : Controller)
    → BackingOff thread now count c
    → Waits thread count c
    → IsBurst thread utc now l c
    → Waits thread (count + length l) (reports thread utc now l c)
unfolding reports
reports-Waits thread utc now count [] c b w h = rw add-zero w
reports-Waits thread utc now count ((turn, gap) ∷ rest) c b w h =
    let c' = (schedule_recovery thread turn (now + gap) utc c).0 in
    let b' = next-BackingOff thread turn now gap utc count c b h.0 h.1 in
    let w' = schedule-Waits thread turn (now + gap) gap utc (count + 1) c b.0 b.1 h.1 b'.3 in
    let shift : count + 1 + length rest ≡ count + suc (length rest) = omega arith in
    rw (← shift) (reports-Waits thread utc (now + gap) (count + 1) rest c' b' w' h.2)

one-is_suc : (n : ℕ) → 1 + n ≡ suc n
one-is_suc n = omega arith

-- Overloads of the bound thread that follow one another within five minutes back off by doubling:
-- after the first and n further ones, each of a turn not seen before, the pending attempt is for the
-- thread and waits 30 * 2^n seconds, or 960 if that is more.
pub overload_burst :
    (thread utc turn : String) (now : ℕ) (rest : List (String × ℕ)) (c : Controller)
    → c.closed ≡ false
    → c.root_thread_id ≡ some thread
    → c.last_server_overloaded_monotonic ≡ none
    → IsBurst thread utc now ((turn, 0) ∷ rest) c
    → (p : Attempt) × ((reports thread utc now ((turn, 0) ∷ rest) c).pending_attempt ≡ some p)
      × (p.thread_id ≡ thread)
      × (p.delay_seconds ≡ min (30 * 2 ^ length rest) 960)
unfolding reports
overload_burst thread utc turn now rest c o r l h =
    let b = first-BackingOff thread turn (now + 0) 0 utc 0 c o r l h.1 in
    let w = schedule-Waits thread turn (now + 0) 0 utc 1 c o r h.1 b.3 in
    let c' = (schedule_recovery thread turn (now + 0) utc c).0 in
    let (p, pending, of, delay) = reports-Waits thread utc (now + 0) 1 rest c' b w h.2 in
    (p, pending, of, delay ∙ rw one-is_suc (recovery_delay_seconds-closed (length rest)))
