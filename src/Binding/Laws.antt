-- ===== src/Binding/Laws.antt =====
-- The invariant of the binding, over any sequence of messages (primary_thread_binding.py).
use codex_tmux_session_manag.Common.{
  suc, ◌≤◌, String, ◌≡◌, inl, inr, refl, true, false, Option, none, some, List, [], ◌∷◌, arith,
  length, All, Bool-cases, is_some, is_none, leb, if_intro, ◌&&◌, ◌||◌,
}
use codex_tmux_session_manag.Common.Json.{Fields, get, as_obj, as_str}
use codex_tmux_session_manag.Binding.{
  Key, same_key, PendingThread, Metadata, Binding, Method, max_pending, invalidate, register,
  selection, request_selection, dispatch_request, method_of, observe_method, observe_named,
  observe_request, accept_thread, settle, respond, answer, select, observe_response, find, pop,
  request_key, is_pending, confirms, is_rejection, thread_resume, other_method, thread_start,
  thread_fork, init,
}

pub data Message : Type 0 where
  request response : Fields → Message

unfoldable pub observe : Message → Binding → Binding
observe (request m) b = observe_request m b
observe (response m) b = observe_response m b

unfoldable pub run : List Message → Binding → Binding
unfolding observe
run [] b = b
run (m ∷ ms) b = run ms (observe m b)

abbrev pub metadata_id : Option Metadata → Option String
metadata_id none = none
metadata_id (some m) = some m.id

-- An ephemeral selection names no thread.
abbrev pub IsNamed : Key × PendingThread → Type 0
IsNamed (k, p) = p.ephemeral ≡ true → p.expected_thread_id ≡ none

pub record Inv (b : Binding) : Type 0 where
  pub described : metadata_id b.selected_thread_metadata ≡ b.selected_thread_id
  pub bounded : length b.pending ≤ max_pending
  pub revoked : b.invalid ≡ true → (b.selected_thread_id ≡ none) × (b.pending ≡ [])
  pub named : All IsNamed b.pending

invalidate-Inv : (b : Binding) → Inv (invalidate b)
unfolding invalidate
invalidate-Inv b = ground arith

selection-IsNamed :
    (method : Method) (key : Key) (params : Fields) (p : PendingThread)
    → selection method params ≡ some p
    → IsNamed (key, p)
unfolding selection
selection-IsNamed thread_resume key params p e = grind arith
selection-IsNamed thread_start key params p e = grind arith
selection-IsNamed thread_fork key params p e = grind arith
selection-IsNamed other_method key params p e = grind arith

register-Inv :
    (key : Key) (o : Option PendingThread) (b : Binding)
    → ((p : PendingThread) → o ≡ some p → IsNamed (key, p))
    → b.invalid ≡ false
    → suc (length b.pending) ≤ max_pending
    → Inv b
    → Inv (register key o b)
register-Inv key none b n v l h = invalidate-Inv b
register-Inv key (some p) b n v l h = record {
  described = h.described;
  bounded = l;
  revoked = λ e. ground arith;
  named = (n p refl, h.named);
}

request_selection-Inv :
    (method : Method) (key : Option Key) (params : Option Fields) (b : Binding)
    → b.invalid ≡ false
    → Inv b
    → Inv (request_selection method key params b)
request_selection-Inv method none params b v h = invalidate-Inv b
request_selection-Inv method (some key) none b v h = invalidate-Inv b
request_selection-Inv method (some key) (some params) b v h =
    elim (Bool-cases (leb max_pending (length b.pending))) [
      | inl full ↦ rw full (invalidate-Inv b)
      | inr room ↦ rw room (
          register-Inv key (selection method params) b (selection-IsNamed method key params) v
            (ground arith) h)
    ]

dispatch_request-Inv :
    (method : Method) (key : Option Key) (params : Option Fields) (b : Binding)
    → b.invalid ≡ false
    → Inv b
    → Inv (dispatch_request method key params b)
dispatch_request-Inv other_method key params b v h = h
dispatch_request-Inv thread_start key params b v h =
    request_selection-Inv thread_start key params b v h
dispatch_request-Inv thread_resume key params b v h =
    request_selection-Inv thread_resume key params b v h
dispatch_request-Inv thread_fork key params b v h =
    request_selection-Inv thread_fork key params b v h

observe_method-Inv :
    (name : String) (message : Fields) (b : Binding)
    → b.invalid ≡ false
    → Inv b
    → Inv (observe_method name message b)
unfolding observe_method
observe_method-Inv name message b v h =
    elim (Bool-cases (is_pending (request_key (get "id" message)) b.pending)) [
      | inl reused ↦ rw reused (invalidate-Inv b)
      | inr new ↦ rw new (
          dispatch_request-Inv (method_of name) (request_key (get "id" message))
            (as_obj (get "params" message)) b v h)
    ]

observe_named-Inv :
    (name : Option String) (message : Fields) (b : Binding)
    → Inv b
    → Inv (observe_named name message b)
observe_named-Inv none message b h = h
observe_named-Inv (some name) message b h =
    if_intro Inv b.invalid _ _ (λ _. h) (λ valid. observe_method-Inv name message b valid h)

observe_request-Inv : (message : Fields) (b : Binding) → Inv b → Inv (observe_request message b)
unfolding observe_request
observe_request-Inv message b h = observe_named-Inv (as_str (get "method" message)) message b h

length-pop : (key : Key) (l : List (Key × PendingThread)) → length (pop key l) ≤ length l
unfolding pop
length-pop key [] = omega arith
length-pop key ((k, p) ∷ rest) = ground (arith, length-pop key rest)

pop-IsNamed : (key : Key) (l : List (Key × PendingThread)) → All IsNamed l → All IsNamed (pop key l)
unfolding pop
pop-IsNamed key [] h = tt
pop-IsNamed key ((k, p) ∷ rest) h = elim (Bool-cases (same_key k key)) [
  | inl same ↦ rw same (pop-IsNamed key rest h.1)
  | inr other ↦ rw other (h.0, pop-IsNamed key rest h.1)
]

pop-Inv :
    (key : Key) (b : Binding)
    → b.invalid ≡ false
    → Inv b
    → Inv (record b { pending = pop key b.pending })
pop-Inv key b v h = record {
  described = h.described;
  bounded = omega (arith, length-pop key b.pending, h.bounded);
  revoked = λ e. ground arith;
  named = pop-IsNamed key b.pending h.named;
}

select-Inv :
    (id : String) (thread : Option Fields) (b : Binding)
    → b.invalid ≡ false
    → Inv b
    → Inv (select id thread b)
select-Inv id thread b v h = record {
  described = refl;
  bounded = h.bounded;
  revoked = λ e. ground arith;
  named = h.named;
}

accept_thread-Inv :
    (p : PendingThread) (thread : Option Fields) (id : Option String) (b : Binding)
    → b.invalid ≡ false
    → Inv b
    → Inv (accept_thread p thread id b)
unfolding accept_thread
accept_thread-Inv p thread none b v h = invalidate-Inv b
accept_thread-Inv p thread (some id) b v h =
    if_intro Inv (confirms p thread id b.selected_thread_id) _ _
      (λ _. if_intro Inv p.ephemeral _ _ (λ _. h) (λ _. select-Inv id thread b v h))
      (λ _. invalidate-Inv b)

settle-Inv :
    (p : PendingThread) (message : Fields) (b : Binding)
    → b.invalid ≡ false
    → Inv b
    → Inv (settle p message b)
unfolding settle
settle-Inv p message b v h =
    if_intro Inv (is_some (get "error" message) && is_none (get "result" message)) _ _
      (λ _.
        if_intro Inv (is_rejection (as_obj (get "error" message))) _ _ (λ _. h)
          (λ _. invalidate-Inv b))
      (λ _.
        if_intro Inv (is_some (get "error" message)) _ _ (λ _. invalidate-Inv b)
          (λ _. accept_thread-Inv p _ _ b v h))

answer-Inv :
    (o : Option PendingThread) (key : Key) (message : Fields) (b : Binding)
    → b.invalid ≡ false
    → Inv b
    → Inv (answer o key message b)
answer-Inv none key message b v h = h
answer-Inv (some p) key message b v h = settle-Inv p message _ v (pop-Inv key b v h)

respond-Inv :
    (key : Option Key) (message : Fields) (b : Binding)
    → b.invalid ≡ false
    → Inv b
    → Inv (respond key message b)
respond-Inv none message b v h = h
respond-Inv (some key) message b v h = answer-Inv (find key b.pending) key message b v h

observe_response-Inv : (message : Fields) (b : Binding) → Inv b → Inv (observe_response message b)
unfolding observe_response
observe_response-Inv message b h =
    if_intro Inv (is_some (get "method" message) || b.invalid) _ _ (λ _. h)
      (λ valid. respond-Inv (request_key (get "id" message)) message b (ground arith) h)

pub observe-Inv : (m : Message) (b : Binding) → Inv b → Inv (observe m b)
unfolding observe
observe-Inv (request m) b h = observe_request-Inv m b h
observe-Inv (response m) b h = observe_response-Inv m b h

pub init-Inv : Inv init
init-Inv = ground arith

-- After any messages the binding is well formed: the metadata shown is that of the selected thread,
-- at most 32 selections are in flight, an invalidated binding has neither a selection nor a pending
-- one, and an ephemeral selection never names a thread.
pub messages-Inv : (ms : List Message) (b : Binding) → Inv b → Inv (run ms b)
unfolding run
messages-Inv [] b h = h
messages-Inv (m ∷ ms) b h = messages-Inv ms (observe m b) (observe-Inv m b h)
