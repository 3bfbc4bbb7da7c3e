-- ===== src/Recovery/Laws.antt =====
-- The invariant of the recovery controller, and that each locked section keeps it.
use codex_tmux_session_manag.Common.{
  ℕ, ◌≤◌, String, ◌≡◌, true, none, some, is_some, List, [], ◌∷◌, ◌++◌, length, arith, eq_iff,
  length-append, length-drop,
}
use codex_tmux_session_manag.Recovery.{
  Attempt, Controller, Effect, Reason, Request, bind_root_thread, schedule_recovery, start_failed,
  take_pending, retain_request, admit_dispatch, finish_dispatch, cancel_pending, close, remember,
  recovery_delay_seconds, observed_turn_limit,
}

-- What a pending attempt and its call have in common with the controller that holds them.
pub record IsCoherent (c : Controller) : Type 0 where
  pub pending_serial : (p : Attempt) → c.pending_attempt ≡ some p → p.serial ≡ c.generation
  pub pending_root :
      (p : Attempt) → c.pending_attempt ≡ some p → c.root_thread_id ≡ some p.thread_id
  pub pending_count :
      (p : Attempt)
      → c.pending_attempt ≡ some p
      → p.server_overloaded_count ≡ c.server_overloaded_count
  pub pending_delay :
      (p : Attempt)
      → c.pending_attempt ≡ some p
      → p.delay_seconds ≡ recovery_delay_seconds c.server_overloaded_count
  pub call_pending :
      (k : ℕ) → c.pending_call ≡ some k → (is_some c.pending_attempt ≡ true) × (k ≡ c.generation)
  pub closed_idle : c.closed ≡ true → c.pending_attempt ≡ none
  pub observed_bounded : length c.observed_terminal_turns ≤ observed_turn_limit

length-remember :
    (key : String × String) (turns : List (String × String))
    → length turns ≤ observed_turn_limit
    → length (remember key turns) ≤ observed_turn_limit
unfolding remember
length-remember key turns h =
    ground (arith, length-append turns (key ∷ []), length-drop 1 (turns ++ key ∷ []))

pub bind-IsCoherent :
    (thread_id : String) (c c' : Controller) (effects : List Effect)
    → bind_root_thread thread_id c ≡ some (c', effects)
    → IsCoherent c
    → IsCoherent c'
unfolding bind_root_thread
bind-IsCoherent thread_id c c' effects e h = grind (arith, eq_iff)

-- the section past its early returns, with the memory of turns left shut
pub schedule-IsCoherent :
    (thread_id turn : String) (now : ℕ) (now_utc : String) (c : Controller)
    → IsCoherent c
    → IsCoherent (schedule_recovery thread_id turn now now_utc c).0
unfolding schedule_recovery
schedule-IsCoherent thread_id turn now now_utc c h =
    grind (arith, eq_iff, length-remember (thread_id, turn) c.observed_terminal_turns)

pub start_failed-IsCoherent :
    (call : ℕ) (c : Controller) → IsCoherent c → IsCoherent (start_failed call c)
unfolding start_failed
start_failed-IsCoherent call c h = grind arith

pub take-IsCoherent :
    (g : ℕ) (c c' : Controller) (a : Attempt)
    → take_pending g c ≡ (c', some a)
    → IsCoherent c
    → IsCoherent c'
unfolding take_pending
take-IsCoherent g c c' a e h = grind arith

pub retain-IsCoherent :
    (r : String) (g : ℕ) (a : Attempt) (c : Controller)
    → IsCoherent c
    → IsCoherent (retain_request r g a c)
unfolding retain_request
retain-IsCoherent r g a c h = grind arith

pub finish-IsCoherent :
    (r : String) (g : ℕ) (c : Controller) → IsCoherent c → IsCoherent (finish_dispatch r g c)
unfolding finish_dispatch
finish-IsCoherent r g c h = grind arith

pub admit-IsCoherent :
    (q : Request) (c : Controller) → IsCoherent c → IsCoherent (admit_dispatch q c).0
unfolding admit_dispatch
admit-IsCoherent q c h = grind arith

pub cancel-IsCoherent :
    (r : Reason) (c : Controller) → IsCoherent c → IsCoherent (cancel_pending r c).0
unfolding cancel_pending
cancel-IsCoherent r c h = grind arith

pub close-IsCoherent : (c : Controller) → IsCoherent c → IsCoherent (close c).0
unfolding close
close-IsCoherent c h = grind arith
