-- ===== src/Recovery/Movement.antt =====
-- How the locked sections of server_overloaded_recovery.py move the generation and the pending
-- attempt, and what that keeps of the attempts that other threads hold.
use codex_tmux_session_manag.Common.{ℕ, ◌≤◌, ◌<◌, String, ◌≡◌, ◌⊎◌, some, List, arith}
use codex_tmux_session_manag.Recovery.{
  Attempt, Controller, Effect, Reason, Request, bind_root_thread, schedule_recovery, start_failed,
  take_pending, retain_request, admit_dispatch, finish_dispatch, cancel_pending, close,
}
use codex_tmux_session_manag.Recovery.Sections.{
  System, Step, bind, overload, start_raises, take, retain, admit, finish, cancel, shut,
}

-- An attempt that some thread holds is not newer than the generation, and one of the current
-- generation is the pending one.
abbrev pub Belongs : Controller → Attempt → Type 0
Belongs c a =
    (a.serial ≤ c.generation)
    × (a.serial ≡ c.generation → (p : Attempt) → c.pending_attempt ≡ some p → p ≡ a)

abbrev pub IsRetained : Controller → ℕ × Attempt → Type 0
IsRetained c (generation, a) = (generation ≡ a.serial) × Belongs c a

-- Within a generation the pending attempt stays; a new generation is a later one.
abbrev pub Moves : Controller → Controller → Type 0
Moves c c' =
    ((c'.generation ≡ c.generation) × (c'.pending_attempt ≡ c.pending_attempt))
    ⊎ (c.generation < c'.generation)

pub Belongs-Moves : (c c' : Controller) → Moves c c' → (a : Attempt) → Belongs c a → Belongs c' a
Belongs-Moves c c' m a b = grind arith

pub IsRetained-Moves :
    (c c' : Controller) → Moves c c' → (r : ℕ × Attempt) → IsRetained c r → IsRetained c' r
IsRetained-Moves c c' m (g, a) (e, b) = (e, Belongs-Moves c c' m a b)

pub bind-Moves :
    (t : String) (c c' : Controller) (effects : List Effect)
    → bind_root_thread t c ≡ some (c', effects)
    → Moves c c'
unfolding bind_root_thread
bind-Moves t c c' effects e = grind arith

pub schedule-Moves :
    (t u : String) (n : ℕ) (w : String) (c : Controller) → Moves c (schedule_recovery t u n w c).0
unfolding schedule_recovery
schedule-Moves t u n w c = grind arith

pub start_failed-Moves : (k : ℕ) (c : Controller) → Moves c (start_failed k c)
unfolding start_failed
start_failed-Moves k c = grind arith

pub take-Moves :
    (g : ℕ) (c c' : Controller) (a : Attempt) → take_pending g c ≡ (c', some a) → Moves c c'
unfolding take_pending
take-Moves g c c' a e = grind arith

pub admit-Moves : (q : Request) (c : Controller) → Moves c (admit_dispatch q c).0
unfolding admit_dispatch
admit-Moves q c = grind arith

pub finish-Moves : (r : String) (g : ℕ) (c : Controller) → Moves c (finish_dispatch r g c)
unfolding finish_dispatch
finish-Moves r g c = grind arith

pub cancel-Moves : (r : Reason) (c : Controller) → Moves c (cancel_pending r c).0
unfolding cancel_pending
cancel-Moves r c = grind arith

pub close-Moves : (c : Controller) → Moves c (close c).0
unfolding close
close-Moves c = grind arith

pub retain-Moves :
    (r : String) (g : ℕ) (a : Attempt) (c : Controller) → Moves c (retain_request r g a c)
unfolding retain_request
retain-Moves r g a c = grind arith

pub Step-Moves : {s t : System} → Step s t → Moves s.controller t.controller
Step-Moves (bind s thread {c'} {effects} e) = bind-Moves thread s.controller c' effects e
Step-Moves (overload s t u n w) = schedule-Moves t u n w s.controller
Step-Moves (start_raises s k) = start_failed-Moves k s.controller
Step-Moves (take s g {c'} {attempt = a} e) = take-Moves g s.controller c' a e
Step-Moves (retain s r a m) = retain-Moves r a.serial a s.controller
Step-Moves (admit s q) = admit-Moves q s.controller
Step-Moves (finish s r a m) = finish-Moves r a.serial s.controller
Step-Moves (cancel s r) = cancel-Moves r s.controller
Step-Moves (shut s) = close-Moves s.controller
