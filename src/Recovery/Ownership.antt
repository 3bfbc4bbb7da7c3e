-- ===== src/Recovery/Ownership.antt =====
-- The attempts that timer threads and retained requests hold (server_overloaded_recovery.py).
use mathlib.Core.List.{Memᴰ}
use mathlib.Core.Path.{subst}
use codex_tmux_session_manag.Common.{
  ℕ, String, ◌≡◌, ◌⊎◌, inl, inr, refl, sym, some, List, ◌∷◌, arith, All, All-map, All-mem,
}
use codex_tmux_session_manag.Common.Dict.{
  without, Values, Values-without, Values-map, Values-insert,
}
use codex_tmux_session_manag.Recovery.{
  Attempt, Controller, Effect, Reason, Request, bind_root_thread, schedule_recovery, start_failed,
  take_pending, retain_request, admit_dispatch, finish_dispatch, cancel_pending, close,
}
use codex_tmux_session_manag.Recovery.Sections.{
  System, Step, bind, overload, start_raises, take, retain, admit, finish, cancel, shut,
}
use codex_tmux_session_manag.Recovery.Laws
use codex_tmux_session_manag.Recovery.Movement.{
  Belongs, IsRetained, Moves, Belongs-Moves, IsRetained-Moves, bind-Moves, schedule-Moves,
  start_failed-Moves, take-Moves, admit-Moves, finish-Moves, cancel-Moves, close-Moves,
}

-- What the threads hold, in a system that the sections have produced.
pub record IsOwned (s : System) : Type 0 where
  pub taken : All (Belongs s.controller) s.taken
  pub retained : Values (IsRetained s.controller) s.controller.dispatch_requests

abbrev SameRequests : Controller → Controller → Type 0
SameRequests c c' = c'.dispatch_requests ≡ c.dispatch_requests

keep-IsOwned :
    (s : System) (c' : Controller)
    → Moves s.controller c'
    → SameRequests s.controller c'
    → IsOwned s
    → IsOwned (record s { controller = c' })
keep-IsOwned s c' m same o = record {
  taken = All-map (Belongs-Moves s.controller c' m) s.taken o.taken;
  retained = subst (Values (IsRetained c')) (sym same) (
      Values-map (IsRetained s.controller) (IsRetained c') (IsRetained-Moves s.controller c' m)
        s.controller.dispatch_requests o.retained);
}

bind-requests :
    (t : String) (c c' : Controller) (effects : List Effect)
    → bind_root_thread t c ≡ some (c', effects)
    → SameRequests c c'
unfolding bind_root_thread
bind-requests t c c' effects e = grind arith

schedule-requests :
    (t u : String) (n : ℕ) (w : String) (c : Controller)
    → SameRequests c (schedule_recovery t u n w c).0
unfolding schedule_recovery
schedule-requests t u n w c = grind arith

start_failed-requests : (k : ℕ) (c : Controller) → SameRequests c (start_failed k c)
unfolding start_failed
start_failed-requests k c = grind arith

cancel-requests : (r : Reason) (c : Controller) → SameRequests c (cancel_pending r c).0
unfolding cancel_pending
cancel-requests r c = grind arith

close-requests : (c : Controller) → SameRequests c (close c).0
unfolding close
close-requests c = grind arith

take_lem :
    (g : ℕ) (c c' : Controller) (a : Attempt)
    → take_pending g c ≡ (c', some a)
    → Laws.IsCoherent c
    → SameRequests c c' × (c.pending_attempt ≡ some a) × Belongs c' a
unfolding take_pending
take_lem g c c' a e h = grind arith

-- Values of a dict from which an entry was popped.
popped-IsRetained :
    (c c' : Controller) (r : String)
    → Moves c c'
    → c'.dispatch_requests ≡ without r c.dispatch_requests
    → Values (IsRetained c) c.dispatch_requests
    → Values (IsRetained c') c'.dispatch_requests
popped-IsRetained c c' r m e h = subst (Values (IsRetained c')) (sym e) (
    Values-map (IsRetained c) (IsRetained c') (IsRetained-Moves c c' m)
      (without r c.dispatch_requests) (Values-without (IsRetained c) r c.dispatch_requests h))

take-IsOwned :
    (s : System) (g : ℕ) (c' : Controller) (a : Attempt)
    → take_pending g s.controller ≡ (c', some a)
    → Laws.IsCoherent s.controller
    → IsOwned s
    → IsOwned (record { controller = c'; taken = a ∷ s.taken })
take-IsOwned s g c' a e h o =
    let facts = take_lem g s.controller c' a e h in
    let kept = keep-IsOwned s c' (take-Moves g s.controller c' a e) facts.0 o in
    record { taken = (facts.2, kept.taken); retained = kept.retained }

retain-IsOwned :
    (s : System) (r : String) (a : Attempt)
    → Memᴰ a s.taken
    → IsOwned s
    → IsOwned (record s { controller = retain_request r a.serial a s.controller })
unfolding retain_request
retain-IsOwned s r a m o =
    let b = All-mem (Belongs s.controller) a s.taken m o.taken in
    record {
      taken = o.taken;
      retained =
          Values-insert (IsRetained s.controller) r (a.serial, a) s.controller.dispatch_requests
            (refl, b) o.retained;
    }

admit-requests :
    (q : Request) (c : Controller)
    → SameRequests c (admit_dispatch q c).0
      ⊎ ((admit_dispatch q c).0.dispatch_requests ≡ without q.request_id c.dispatch_requests)
unfolding admit_dispatch
admit-requests q c = grind arith

finish-requests :
    (r : String) (g : ℕ) (c : Controller)
    → (finish_dispatch r g c).dispatch_requests ≡ without r c.dispatch_requests
unfolding finish_dispatch
finish-requests r g c = ground arith

pop-IsOwned :
    (s : System) (c' : Controller) (r : String)
    → Moves s.controller c'
    → c'.dispatch_requests ≡ without r s.controller.dispatch_requests
    → IsOwned s
    → IsOwned (record s { controller = c' })
pop-IsOwned s c' r m e o = record {
  taken = All-map (Belongs-Moves s.controller c' m) s.taken o.taken;
  retained = popped-IsRetained s.controller c' r m e o.retained;
}

pub Step-IsOwned : {s t : System} → Step s t → Laws.IsCoherent s.controller → IsOwned s → IsOwned t
Step-IsOwned (bind s thread {c'} {effects} e) h =
    keep-IsOwned s c' (bind-Moves thread s.controller c' effects e)
      (bind-requests thread s.controller c' effects e)
Step-IsOwned (overload s t u n w) h =
    keep-IsOwned s _ (schedule-Moves t u n w s.controller) (schedule-requests t u n w s.controller)
Step-IsOwned (start_raises s k) h =
    keep-IsOwned s _ (start_failed-Moves k s.controller) (start_failed-requests k s.controller)
Step-IsOwned (take s g {c'} {attempt = a} e) h = take-IsOwned s g c' a e h
Step-IsOwned (retain s r a m) h = retain-IsOwned s r a m
Step-IsOwned (admit s q) h = elim (admit-requests q s.controller) [
  | inl same ↦ keep-IsOwned s _ (admit-Moves q s.controller) same
  | inr popped ↦ pop-IsOwned s _ q.request_id (admit-Moves q s.controller) popped
]
Step-IsOwned (finish s r a m) h =
    pop-IsOwned s _ r (finish-Moves r a.serial s.controller)
      (finish-requests r a.serial s.controller)
Step-IsOwned (cancel s r) h =
    keep-IsOwned s _ (cancel-Moves r s.controller) (cancel-requests r s.controller)
Step-IsOwned (shut s) h = keep-IsOwned s _ (close-Moves s.controller) (close-requests s.controller)
