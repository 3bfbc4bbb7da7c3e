-- ===== src/Recovery/Sections.antt =====
-- The interleavings of the controller's locked sections. Timer threads, the protocol reader and the
-- terminal gateway may run their sections in any order; a request is only ever retained for an
-- attempt that a timer thread has taken.
use mathlib.Core.List.{Memᴰ}
use codex_tmux_session_manag.Common.{ℕ, String, ◌≡◌, some, List, [], ◌∷◌}
use codex_tmux_session_manag.Recovery.{
  Attempt, Controller, Effect, Reason, Request, bind_root_thread, schedule_recovery, start_failed,
  take_pending, retain_request, admit_dispatch, finish_dispatch, cancel_pending, close, init,
}

-- The controller, and the attempts that timer threads hold in their local variables.
pub record System : Type 0 where
  pub controller : Controller
  pub taken : List Attempt

abbrev pub start : System
start = record { controller = init; taken = [] }

pub data Step : System → System → Type 0 where
  bind :
      (s : System) (thread_id : String) {c' : Controller} {effects : List Effect}
      → bind_root_thread thread_id s.controller ≡ some (c', effects)
      → Step s (record s { controller = c' })
  overload :
      (s : System) (thread_id failed_turn_id : String) (now : ℕ) (now_utc : String)
      → Step s (record s {
        controller = (schedule_recovery thread_id failed_turn_id now now_utc s.controller).0;
      })
  start_raises :
      (s : System) (call : ℕ) → Step s (record s { controller = start_failed call s.controller })
  take :
      (s : System) (generation : ℕ) {c' : Controller} {attempt : Attempt}
      → take_pending generation s.controller ≡ (c', some attempt)
      → Step s (record { controller = c'; taken = attempt ∷ s.taken })
  retain :
      (s : System) (request_id : String) (attempt : Attempt)
      → Memᴰ attempt s.taken
      → Step s
          (record s { controller = retain_request request_id attempt.serial attempt s.controller })
  admit :
      (s : System) (request : Request)
      → Step s (record s { controller = (admit_dispatch request s.controller).0 })
  finish :
      (s : System) (request_id : String) (attempt : Attempt)
      → Memᴰ attempt s.taken
      → Step s (record s { controller = finish_dispatch request_id attempt.serial s.controller })
  cancel :
      (s : System) (reason : Reason)
      → Step s (record s { controller = (cancel_pending reason s.controller).0 })
  shut : (s : System) → Step s (record s { controller = (close s.controller).0 })

pub data Reach (s : System) : System → Type 0 where
  here : Reach s s
  next : {t u : System} → Reach s t → Step t u → Reach s u
