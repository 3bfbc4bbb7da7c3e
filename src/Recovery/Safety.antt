-- ===== src/Recovery/Safety.antt =====
-- Over every interleaving of the locked sections of server_overloaded_recovery.py: the invariant,
-- what an admission establishes, and what becomes of an attempt that has stopped being pending.
use codex_tmux_session_manag.Common.{
  ℕ, ◌+◌, ◌≤◌, ◌<◌, String, ◌≡◌, ap, ◌≢◌, ◌∙◌, ◌<◌, ◌≤◌, inl, inr, sym, false, none, some, arith,
  text_eq_iff, eq_refl, Option-cases,
}
use codex_tmux_session_manag.Common.Dict.{lookup-without, lookup, without, Values-lookup}
use codex_tmux_session_manag.Recovery.{Attempt, Controller, Request, admitted, admit_dispatch}
use codex_tmux_session_manag.Recovery.Sections.{
  System, Step, Reach, here, next, start, bind, overload, start_raises, take, retain, admit, finish,
  cancel, shut,
}
use codex_tmux_session_manag.Recovery.Laws
use codex_tmux_session_manag.Recovery.Movement.{IsRetained, Step-Moves}
use codex_tmux_session_manag.Recovery.Ownership.{IsOwned, Step-IsOwned}

pub Step-IsCoherent :
    {s t : System} → Step s t → Laws.IsCoherent s.controller → Laws.IsCoherent t.controller
Step-IsCoherent (bind s thread {c'} {effects} e) h =
    Laws.bind-IsCoherent thread s.controller c' effects e h
Step-IsCoherent (overload s t u n w) h = Laws.schedule-IsCoherent t u n w s.controller h
Step-IsCoherent (start_raises s k) h = Laws.start_failed-IsCoherent k s.controller h
Step-IsCoherent (take s g {c'} {attempt = a} e) h = Laws.take-IsCoherent g s.controller c' a e h
Step-IsCoherent (retain s r a m) h = Laws.retain-IsCoherent r a.serial a s.controller h
Step-IsCoherent (admit s q) h = Laws.admit-IsCoherent q s.controller h
Step-IsCoherent (finish s r a m) h = Laws.finish-IsCoherent r a.serial s.controller h
Step-IsCoherent (cancel s r) h = Laws.cancel-IsCoherent r s.controller h
Step-IsCoherent (shut s) h = Laws.close-IsCoherent s.controller h

pub record Inv (s : System) : Type 0 where
  pub coherent : Laws.IsCoherent s.controller
  pub owned : IsOwned s

pub start-Inv : Inv start
start-Inv = record { coherent = grind arith; owned = record { taken = tt; retained = tt } }

pub Step-Inv : {s t : System} → Step s t → Inv s → Inv t
Step-Inv st h = record {
  coherent = Step-IsCoherent st h.coherent;
  owned = Step-IsOwned st h.coherent h.owned;
}

-- Every interleaving of the controller's locked sections keeps the invariant: the pending attempt
-- carries the current generation, the bound root thread, the current count and its delay; a pending
-- call belongs to the pending attempt; a closed controller has none; at most 256 turns are
-- remembered; and whatever a timer thread or a retained request still holds is not newer than the
-- generation, and is the pending attempt itself if it is of the current generation.
pub Reach-Inv : {s t : System} → Reach s t → Inv s → Inv t
Reach-Inv here h = h
Reach-Inv (next r st) h = Step-Inv st (Reach-Inv r h)

-- What an admission read and left, before the invariant is brought in.
admit_dispatch_lem :
    (q : Request) (c c' : Controller) (g : ℕ) (a p : Attempt)
    → lookup q.request_id c.dispatch_requests ≡ some (g, a)
    → c.pending_attempt ≡ some p
    → admit_dispatch q c ≡ (c', admitted)
    → (g ≡ c.generation)
      × (c.closed ≡ false)
      × (q.dispatch_id ≡ some a.dispatch_id)
      × (q.expected_thread_id ≡ some a.thread_id)
      × (c'.pending_attempt ≡ none)
      × (c'.generation ≡ c.generation + 1)
      × (c'.dispatch_requests ≡ without q.request_id c.dispatch_requests)
unfolding admit_dispatch
admit_dispatch_lem q c c' g a p l pe e = ground (
  arith,
  text_eq_iff q.dispatch_id (some a.dispatch_id),
  text_eq_iff q.expected_thread_id (some a.thread_id),
)

-- The retained attempt is the pending one.
retained_is_pending :
    (s : System) (request_id : String) (g : ℕ) (a p : Attempt)
    → Inv s
    → lookup request_id s.controller.dispatch_requests ≡ some (g, a)
    → s.controller.pending_attempt ≡ some p
    → g ≡ s.controller.generation
    → (p ≡ a) × (g ≡ p.serial)
retained_is_pending s r g a p inv found pending now =
    let c = s.controller in
    let held = Values-lookup (IsRetained c) r c.dispatch_requests inv.owned.retained found in
    let same : p ≡ a = held.1.1 (sym held.0 ∙ now) p pending in
    (same, held.0 ∙ ap (λ (x : Attempt). x.serial) (sym same))

admit_dispatch-needs_pending :
    (q : Request) (c c' : Controller)
    → c.pending_attempt ≡ none
    → admit_dispatch q c ≢ (c', admitted)
unfolding admit_dispatch
admit_dispatch-needs_pending q c c' n e = grind (arith)

admit_dispatch-needs_retained :
    (q : Request) (c c' : Controller)
    → lookup q.request_id c.dispatch_requests ≡ none
    → admit_dispatch q c ≢ (c', admitted)
unfolding admit_dispatch
admit_dispatch-needs_retained q c c' n e = grind (arith)

-- Admission succeeds only on the dispatch of the pending attempt: the controller is open, the
-- request was retained for that attempt, it carries the attempt's dispatch id and the bound root
-- thread, and afterwards nothing is pending in a new generation and the request is spent.
pub admit_dispatch-authorised :
    (request : Request) (s : System) {c' : Controller}
    → Inv s
    → admit_dispatch request s.controller ≡ (c', admitted)
    → (p : Attempt) × (s.controller.pending_attempt ≡ some p)
      × (lookup request.request_id s.controller.dispatch_requests ≡ some (p.serial, p))
      × (s.controller.closed ≡ false)
      × (request.dispatch_id ≡ some p.dispatch_id)
      × (request.expected_thread_id ≡ s.controller.root_thread_id)
      × (c'.pending_attempt ≡ none)
      × (c'.generation ≡ s.controller.generation + 1)
      × (lookup request.request_id c'.dispatch_requests ≡ none)
admit_dispatch-authorised request s {c'} inv e =
    let c = s.controller in
    elim (Option-cases c.pending_attempt) [
      | inl idle ↦ absurd (admit_dispatch-needs_pending request c c' idle e)
      | inr (p, pending) ↦ elim (Option-cases (lookup request.request_id c.dispatch_requests)) [
        | inl unknown ↦ absurd (admit_dispatch-needs_retained request c c' unknown e)
        | inr ((g, a), found) ↦
            let (now, is_open, id, thread, idle, later, spent) =
              admit_dispatch_lem request c c' g a p found pending e in
            let (same, serial) =
              retained_is_pending s request.request_id g a p inv found pending now in
            (
              p,
              pending,
              cc,
              is_open,
              cc,
              cc (inv.coherent.pending_root p pending),
              idle,
              later,
              rw spent (rw lookup-without (rw (eq_refl request.request_id))),
            )
      ]
    ]

-- An attempt whose generation has passed is not admitted.
passed_not_admitted :
    (request : Request) (c : Controller) (g : ℕ) (a : Attempt)
    → lookup request.request_id c.dispatch_requests ≡ some (g, a)
    → g < c.generation
    → (admit_dispatch request c).1 ≢ admitted
unfolding admit_dispatch
passed_not_admitted request c g a e h x = grind arith

Step-passes :
    {s t : System} (a : Attempt)
    → Step s t
    → Inv s
    → s.controller.pending_attempt ≡ some a
    → t.controller.pending_attempt ≢ some a
    → a.serial < t.controller.generation
Step-passes {s} {t} a st inv p gone = elim (Step-Moves st) [
  | inl (g, same) ↦ absurd (gone (same ∙ p))
  | inr later ↦ omega (arith, inv.coherent.pending_serial a p)
]

Reach-generation : {s t : System} → Reach s t → s.controller.generation ≤ t.controller.generation
Reach-generation here = omega arith
Reach-generation (next {t} {u} r st) = elim (Step-Moves st) [
  | inl (g, same) ↦ omega (arith, Reach-generation r)
  | inr later ↦ omega (arith, Reach-generation r)
]

-- Once an attempt has stopped being pending, by whatever section (user input, a disconnect, another
-- root thread, a later overload, a failed start, its own admission or its end), no request that was
-- retained for it is ever admitted, whatever sections follow.
pub revoked_never_admitted :
    {s t u : System} (a : Attempt) (request : Request)
    → Inv s
    → s.controller.pending_attempt ≡ some a
    → Step s t
    → t.controller.pending_attempt ≢ some a
    → Reach t u
    → lookup request.request_id u.controller.dispatch_requests ≡ some (a.serial, a)
    → (admit_dispatch request u.controller).1 ≢ admitted
revoked_never_admitted {s} {t} {u} a request inv p st gone r kept =
    passed_not_admitted request u.controller a.serial a kept
      (omega (arith, Step-passes a st inv p gone, Reach-generation r))
