-- ===== src/Binding/Root.antt =====
-- What the binding's thread identity can do over time (primary_thread_binding.py).
use mathlib.Core.Path.{subst}
use codex_tmux_session_manag.Common.{
  ℕ, ◌<◌, String, ◌≡◌, ◌∙◌, ◌⊎◌, inl, inr, refl, sym, ap, ◌==◌, string_eq, if◌then◌else◌, true,
  false, Option, none, some, List, [], ◌∷◌, arith, length, is_some, is_none, leb, not, if_intro,
  ◌&&◌, ◌||◌, eq_iff, nat_beq_iff, nat_eq,
}
use codex_tmux_session_manag.Common.Json.{
  Fields, field, end, int, str, bool, obj, get, as_obj, as_str,
}
use codex_tmux_session_manag.Binding.{
  Key, int_key, agrees, PendingThread, Binding, Method, max_pending, invalidate, register,
  selection, request_selection, dispatch_request, method_of, observe_method, observe_named,
  observe_request, accept_thread, settle, select, answer, respond, observe_response, find, pop,
  request_key, is_pending, is_rejection, thread_id, thread_resume, other_method, thread_start,
  thread_fork, selecting_main,
}
use codex_tmux_session_manag.Binding.Laws.{Message, request, response, observe, run}

-- Authority is lost for good, or the root stays.
abbrev Holds : String → Binding → Type 0
Holds t b = (b.invalid ≡ true) ⊎ (b.selected_thread_id ≡ some t)

invalidate-Holds : (t : String) (b : Binding) → Holds t (invalidate b)
unfolding invalidate
invalidate-Holds t b = inl refl

request_selection-Holds :
    (t : String) (method : Method) (key : Option Key) (params : Option Fields) (b : Binding)
    → Holds t b
    → Holds t (request_selection method key params b)
unfolding invalidate
request_selection-Holds t method none params b h = inl refl
request_selection-Holds t method (some key) none b h = inl refl
request_selection-Holds t method (some key) (some params) b h = ground arith

dispatch_request-Holds :
    (t : String) (method : Method) (key : Option Key) (params : Option Fields) (b : Binding)
    → Holds t b
    → Holds t (dispatch_request method key params b)
dispatch_request-Holds t other_method key params b h = h
dispatch_request-Holds t thread_start key params b h = request_selection-Holds t _ key params b h
dispatch_request-Holds t thread_resume key params b h = request_selection-Holds t _ key params b h
dispatch_request-Holds t thread_fork key params b h = request_selection-Holds t _ key params b h

observe_named-Holds :
    (t : String) (name : Option String) (m : Fields) (b : Binding)
    → Holds t b
    → Holds t (observe_named name m b)
unfolding observe_method
observe_named-Holds t none m b h = h
observe_named-Holds t (some name) m b h =
    if_intro (Holds t) b.invalid _ _ (λ _. h)
      (λ _.
        if_intro (Holds t) (is_pending (request_key (get "id" m)) b.pending) _ _
          (λ _. invalidate-Holds t b)
          (λ _.
            dispatch_request-Holds t (method_of name) (request_key (get "id" m))
              (as_obj (get "params" m)) b h))

accept_thread-Holds :
    (t : String) (p : PendingThread) (thread : Option Fields) (id : Option String) (b : Binding)
    → b.selected_thread_id ≡ some t
    → Holds t (accept_thread p thread id b)
unfolding accept_thread
accept_thread-Holds t p thread none b h = inl refl
accept_thread-Holds t p thread (some id) b h = ground (arith, eq_iff t id)

settle-Holds :
    (t : String) (p : PendingThread) (m : Fields) (b : Binding)
    → b.selected_thread_id ≡ some t
    → Holds t (settle p m b)
unfolding settle
settle-Holds t p m b h =
    if_intro (Holds t) (is_some (get "error" m) && is_none (get "result" m)) _ _
      (λ _.
        if_intro (Holds t) (is_rejection (as_obj (get "error" m))) _ _ (λ _. inr h)
          (λ _. invalidate-Holds t b))
      (λ _.
        if_intro (Holds t) (is_some (get "error" m)) _ _ (λ _. invalidate-Holds t b)
          (λ _. accept_thread-Holds t p _ _ b h))

answer-Holds :
    (t : String) (o : Option PendingThread) (key : Key) (m : Fields) (b : Binding)
    → b.selected_thread_id ≡ some t
    → Holds t (answer o key m b)
answer-Holds t none key m b h = inr h
answer-Holds t (some p) key m b h = settle-Holds t p m _ h

respond-Holds :
    (t : String) (key : Option Key) (m : Fields) (b : Binding)
    → b.selected_thread_id ≡ some t
    → Holds t (respond key m b)
respond-Holds t none m b h = inr h
respond-Holds t (some key) m b h = answer-Holds t (find key b.pending) key m b h

observe-invalid : (m : Message) (b : Binding) → b.invalid ≡ true → observe m b ≡ b
unfolding observe observe_request observe_response
observe-invalid (request m) b h = ground arith
observe-invalid (response m) b h = ground arith

observe-Holds : (t : String) (m : Message) (b : Binding) → Holds t b → Holds t (observe m b)
unfolding observe observe_request observe_response
observe-Holds t (request m) b h = observe_named-Holds t (as_str (get "method" m)) m b h
observe-Holds t (response m) b (inl gone) =
    subst (Holds t) (sym (observe-invalid (response m) b gone)) (inl gone)
observe-Holds t (response m) b (inr h) =
    if_intro (Holds t) (is_some (get "method" m) || b.invalid) _ _ (λ _. inr h)
      (λ _. respond-Holds t (request_key (get "id" m)) m b h)

run-Holds : (t : String) (ms : List Message) (b : Binding) → Holds t b → Holds t (run ms b)
unfolding run
run-Holds t [] b h = h
run-Holds t (m ∷ ms) b h = run-Holds t ms (observe m b) (observe-Holds t m b h)

-- A connection has one main thread: once a thread is selected, no messages whatever make the
-- binding name another; it names that thread, or none.
pub one_root :
    (t : String) (ms : List Message) (b : Binding)
    → b.selected_thread_id ≡ some t
    → (thread_id (run ms b) ≡ none) ⊎ (thread_id (run ms b) ≡ some t)
unfolding thread_id
one_root t ms b h = elim (run-Holds t ms b (inr h)) [
  | inl gone ↦ inl (ground arith)
  | inr same ↦ ground arith
]

run-invalid : (ms : List Message) (b : Binding) → b.invalid ≡ true → run ms b ≡ b
unfolding run
run-invalid [] b h = refl
run-invalid (m ∷ ms) b h = ap (run ms) (observe-invalid m b h) ∙ run-invalid ms b h

thread_id-invalid : (b : Binding) → b.invalid ≡ true → thread_id b ≡ none
unfolding thread_id
thread_id-invalid b h = ground arith

-- Lost authority is never restored: whatever arrives after an invalidation, by a malformed or
-- conflicting message or a disconnect, the binding is unchanged and names no thread.
pub invalidate_forever :
    (ms : List Message) (b : Binding)
    → (run ms (invalidate b) ≡ invalidate b) × (thread_id (run ms (invalidate b)) ≡ none)
unfolding invalidate
invalidate_forever ms b =
    let same = run-invalid ms (invalidate b) refl in
    (same, ap thread_id same ∙ thread_id-invalid (invalidate b) refl)

-- No thread is named that was not named before.
abbrev Quiet : Binding → Binding → Type 0
Quiet b b' = (thread_id b' ≡ none) ⊎ (thread_id b' ≡ thread_id b)

invalidate-Quiet : (b : Binding) → Quiet b (invalidate b)
unfolding invalidate
invalidate-Quiet b = inl (thread_id-invalid (invalidate b) refl)

register-Quiet : (key : Key) (o : Option PendingThread) (b : Binding) → Quiet b (register key o b)
unfolding thread_id selecting_main
register-Quiet key none b = invalidate-Quiet b
register-Quiet key (some p) b = ground arith

request_selection-Quiet :
    (method : Method) (key : Option Key) (params : Option Fields) (b : Binding)
    → Quiet b (request_selection method key params b)
request_selection-Quiet method none params b = invalidate-Quiet b
request_selection-Quiet method (some key) none b = invalidate-Quiet b
request_selection-Quiet method (some key) (some params) b =
    if_intro (Quiet b) (leb max_pending (length b.pending)) _ _ (λ _. invalidate-Quiet b)
      (λ _. register-Quiet key (selection method params) b)

dispatch_request-Quiet :
    (method : Method) (key : Option Key) (params : Option Fields) (b : Binding)
    → Quiet b (dispatch_request method key params b)
dispatch_request-Quiet other_method key params b = inr refl
dispatch_request-Quiet thread_start key params b = request_selection-Quiet _ key params b
dispatch_request-Quiet thread_resume key params b = request_selection-Quiet _ key params b
dispatch_request-Quiet thread_fork key params b = request_selection-Quiet _ key params b

observe_named-Quiet :
    (name : Option String) (m : Fields) (b : Binding) → Quiet b (observe_named name m b)
unfolding observe_method
observe_named-Quiet none m b = inr refl
observe_named-Quiet (some name) m b =
    if_intro (Quiet b) b.invalid _ _ (λ _. inr refl)
      (λ _.
        if_intro (Quiet b) (is_pending (request_key (get "id" m)) b.pending) _ _
          (λ _. invalidate-Quiet b)
          (λ _.
            dispatch_request-Quiet (method_of name) (request_key (get "id" m))
              (as_obj (get "params" m)) b))

-- A request grants no authority: after observing one, the thread named is the one named before, or
-- none. Only a response can name a thread.
pub observe_request-no_authority :
    (m : Fields) (b : Binding)
    → (thread_id (observe_request m b) ≡ none) ⊎ (thread_id (observe_request m b) ≡ thread_id b)
unfolding observe_request
observe_request-no_authority m b = observe_named-Quiet (as_str (get "method" m)) m b

abbrev pub resume_request : ℕ → String → Fields
resume_request n t =
    field "id" (int false n) (
      field "method" (str "thread/resume")
        (field "params" (obj (field "threadId" (str t) end)) end))

abbrev pub resume_response : ℕ → String → Fields
resume_response n u = field "id" (int false n) (
    field "result"
      (obj (field "thread" (obj (field "id" (str u) (field "ephemeral" (bool false) end))) end))
      end)

pop-fresh : (key : Key) (l : List (Key × PendingThread)) → find key l ≡ none → pop key l ≡ l
unfolding find pop
pop-fresh key [] h = refl
pop-fresh key ((k, p) ∷ rest) h = ground (arith, pop-fresh key rest)

abbrev resuming : String → PendingThread
resuming t = record { expected_thread_id = some t; ephemeral = false }

abbrev awaiting : ℕ → String → Binding → Binding
awaiting n t b = record b { pending = (int_key false n, resuming t) ∷ b.pending }

observe-resume_request :
    (n : ℕ) (t : String) (b : Binding)
    → b.invalid ≡ false
    → length b.pending < max_pending
    → find (int_key false n) b.pending ≡ none
    → (t == "") ≡ false
    → observe_request (resume_request n t) b ≡ awaiting n t b
unfolding observe_request get
observe-resume_request n t b v l f nt = ground arith

observe-resume_response :
    (n : ℕ) (t u : String) (b : Binding)
    → b.invalid ≡ false
    → find (int_key false n) b.pending ≡ none
    → agrees b.selected_thread_id t ≡ true
    → (u == "") ≡ false
    → observe_response (resume_response n u) (awaiting n t b) ≡ (
        if t == u
        then select u (some (field "id" (str u) (field "ephemeral" (bool false) end))) b
        else invalidate b)
unfolding observe_response get
observe-resume_response n t u b v f a nu =
    ground (arith, pop-fresh (int_key false n) b.pending, eq_iff t u, nat_beq_iff n n)

awaiting-thread_id : (n : ℕ) (t : String) (b : Binding) → thread_id (awaiting n t b) ≡ none
unfolding thread_id selecting_main
awaiting-thread_id n t b = ground arith

answered-thread_id :
    (t u : String) (b : Binding)
    → b.invalid ≡ false
    → selecting_main b.pending ≡ false
    → thread_id (
        if t == u
        then select u (some (field "id" (str u) (field "ephemeral" (bool false) end))) b
        else invalidate b)
      ≡ (if t == u then some t else none)
unfolding thread_id invalidate
answered-thread_id t u b v s = ground (arith, eq_iff t u)

answered-invalid :
    (t u : String) (b : Binding)
    → b.invalid ≡ false
    → (if t == u
        then select u (some (field "id" (str u) (field "ephemeral" (bool false) end))) b
        else invalidate b).invalid
      ≡ not (t == u)
unfolding invalidate
answered-invalid t u b v = ground arith

-- Resuming a thread is a round trip: while the request is in flight no thread is named; when its
-- response names the thread that was asked for, that thread is main and the binding stays valid, and
-- when the response names another, no thread is named and the binding is invalid. It is so on a valid binding with no other main selection in flight,
-- with room for one, a fresh request id, and no other root than the requested thread.
pub resume_roundtrip :
    (n : ℕ) (t u : String) (b : Binding)
    → b.invalid ≡ false
    → selecting_main b.pending ≡ false
    → length b.pending < max_pending
    → find (int_key false n) b.pending ≡ none
    → agrees b.selected_thread_id t ≡ true
    → (t == "") ≡ false
    → (u == "") ≡ false
    → let waiting = observe_request (resume_request n t) b in
      (thread_id waiting ≡ none)
      × (thread_id (observe_response (resume_response n u) waiting)
          ≡ (if t == u then some t else none))
      × ((observe_response (resume_response n u) waiting).invalid ≡ not (t == u))
resume_roundtrip n t u b v s l f a nt nu = (
  rw (observe-resume_request n t b v l f nt) (awaiting-thread_id n t b),
  rw (observe-resume_request n t b v l f nt, observe-resume_response n t u b v f a nu)
      (answered-thread_id t u b v s),
  rw (observe-resume_request n t b v l f nt, observe-resume_response n t u b v f a nu)
      (answered-invalid t u b v),
)
