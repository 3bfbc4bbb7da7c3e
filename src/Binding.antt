-- ===== src/Binding.antt =====
-- primary_thread_binding.py: which thread is main on one connection, proven by the acknowledgements
-- of native lifecycle requests. A message is a decoded JSON object.
mod Laws
mod Root
mod Examples
use codex_tmux_session_manag.Common.{
  ℕ, String, Bool, true, false, not, ◌&&◌, ◌||◌, Option, none, some, List, [], ◌∷◌, leb, ◌==◌,
  nat_eq, string_eq, is_none, is_some, if◌then◌else◌, length,
}
use codex_tmux_session_manag.Common.Json.{
  Value, null, bool, int, str, Fields, get, get_in, as_obj, as_nonempty_str, as_str,
}

-- (type(value), value) of an int or a str; a bool is neither.
pub data Key : Type 0 where
  int_key : Bool → ℕ → Key
  str_key : String → Key

abbrev pub same_sign : Bool → Bool → Bool
same_sign true b = b
same_sign false b = not b

abbrev pub same_key : Key → Key → Bool
same_key (int_key s n) (int_key s' n') = same_sign s s' && n == n'
same_key (int_key s n) (str_key t) = false
same_key (str_key t) (int_key s n) = false
same_key (str_key t) (str_key t') = t == t'

-- _request_key
abbrev pub request_key : Option Value → Option Key
request_key (some (int sign n)) = some (int_key sign n)
request_key (some (str text)) = some (str_key text)
request_key _ = none

pub record PendingThread : Type 0 where
  pub expected_thread_id : Option String
  pub ephemeral : Bool

pub record Metadata : Type 0 where
  pub id : String
  pub path : Option String

pub record Binding : Type 0 where
  pub selected_thread_id : Option String
  pub selected_thread_metadata : Option Metadata
  pub pending : List (Key × PendingThread)
  pub invalid : Bool

abbrev pub init : Binding
init = record {
  selected_thread_id = none;
  selected_thread_metadata = none;
  pending = [];
  invalid = false;
}

abbrev pub max_pending : ℕ
max_pending = 32

-- self._pending.get(key)
unfoldable pub find : Key → List (Key × PendingThread) → Option PendingThread
find key [] = none
find key ((k, p) ∷ rest) = if same_key k key then some p else find key rest

-- the dict after pop(key)
unfoldable pub pop : Key → List (Key × PendingThread) → List (Key × PendingThread)
pop key [] = []
pop key ((k, p) ∷ rest) =
    let rest' = pop key rest in if same_key k key then rest' else (k, p) ∷ rest'

-- any(not pending.ephemeral for pending in self._pending.values())
unfoldable pub selecting_main : List (Key × PendingThread) → Bool
selecting_main [] = false
selecting_main ((k, p) ∷ rest) = not p.ephemeral || selecting_main rest

-- the property thread_id
unfoldable pub thread_id : Binding → Option String
unfolding selecting_main
thread_id b = if b.invalid || selecting_main b.pending then none else b.selected_thread_id

-- the property thread_metadata
unfoldable pub thread_metadata : Binding → Option Metadata
unfolding thread_id
thread_metadata b = if is_none (thread_id b) then none else b.selected_thread_metadata

-- _invalidate, and invalidate_after_disconnect
unfoldable pub invalidate : Binding → Binding
invalidate b = record {
  selected_thread_id = none;
  selected_thread_metadata = none;
  pending = [];
  invalid = true;
}

pub data Method : Type 0 where
  thread_start thread_resume thread_fork other_method : Method

unfoldable pub method_of : String → Method
method_of name =
    if name == "thread/start"
    then thread_start
    else if name == "thread/resume"
    then thread_resume
    else if name == "thread/fork"
    then thread_fork
    else other_method

-- What a parameter says: it is absent or null, it is a good value, or it is something else.
pub data Parameter (A : Type 0) : Type 0 where
  absent malformed : Parameter A
  given : A → Parameter A

abbrev thread_parameter : Option Value → Parameter String
thread_parameter none = absent
thread_parameter (some null) = absent
thread_parameter (some (str text)) = if text == "" then malformed else given text
thread_parameter (some _) = malformed

abbrev ephemeral_parameter : Option Value → Parameter Bool
ephemeral_parameter none = absent
ephemeral_parameter (some null) = absent
ephemeral_parameter (some (bool b)) = given b
ephemeral_parameter (some _) = malformed

abbrev requested : Parameter String → Parameter Bool → Option PendingThread
requested malformed _ = none
requested _ malformed = none
requested absent absent = some (record { expected_thread_id = none; ephemeral = false })
requested absent (given e) = some (record { expected_thread_id = none; ephemeral = e })
requested (given t) absent = some (record { expected_thread_id = some t; ephemeral = false })
requested (given t) (given e) = some (record { expected_thread_id = some t; ephemeral = e })

-- The selection that a lifecycle request asks for; `none` invalidates. Only resume names a thread,
-- and only start and fork may be ephemeral.
unfoldable pub selection : Method → Fields → Option PendingThread
selection thread_resume params = requested (thread_parameter (get "threadId" params)) absent
selection _ params = requested absent (ephemeral_parameter (get "ephemeral" params))

abbrev register : Key → Option PendingThread → Binding → Binding
register key none b = invalidate b
register key (some p) b = record b { pending = (key, p) ∷ b.pending }

abbrev request_selection : Method → Option Key → Option Fields → Binding → Binding
request_selection method none params b = invalidate b
request_selection method (some key) none b = invalidate b
request_selection method (some key) (some params) b =
    if leb max_pending (length b.pending)
    then invalidate b
    else register key (selection method params) b

abbrev is_pending : Option Key → List (Key × PendingThread) → Bool
is_pending none pending = false
is_pending (some key) pending = is_some (find key pending)

abbrev dispatch_request : Method → Option Key → Option Fields → Binding → Binding
dispatch_request other_method key params b = b
dispatch_request method key params b = request_selection method key params b

-- observe_request, past the test that the method is a text
unfoldable pub observe_method : String → Fields → Binding → Binding
unfolding invalidate find selection method_of
observe_method name message b =
    let key = request_key (get "id" message) in
    if is_pending key b.pending
    then invalidate b
    else dispatch_request (method_of name) key (as_obj (get "params" message)) b

abbrev observe_named : Option String → Fields → Binding → Binding
observe_named none message b = b
observe_named (some name) message b = if b.invalid then b else observe_method name message b

unfoldable pub observe_request : Fields → Binding → Binding
unfolding observe_method
observe_request message b = observe_named (as_str (get "method" message)) message b

abbrev is_int : Option Value → Bool
is_int (some (int _ _)) = true
is_int _ = false

-- A JSON-RPC error object: a mapping with an int code and a text message.
unfoldable pub is_rejection : Option Fields → Bool
is_rejection none = false
is_rejection (some error) = is_int (get "code" error) && is_some (as_str (get "message" error))

abbrev is_bool : Option Value → Bool → Bool
is_bool (some (bool b)) expected = same_sign b expected
is_bool _ expected = false

abbrev agrees : Option String → String → Bool
agrees none id = true
agrees (some expected) id = expected == id

-- The success is for the thread that was asked for, and does not move an established root.
unfoldable pub confirms : PendingThread → Option Fields → String → Option String → Bool
confirms p thread id selected =
    is_bool (get_in thread "ephemeral") p.ephemeral
    && agrees p.expected_thread_id id
    && (p.ephemeral || agrees selected id)

abbrev select : String → Option Fields → Binding → Binding
select id thread b = record b {
  selected_thread_id = some id;
  selected_thread_metadata = some (record { id = id; path = as_str (get_in thread "path") });
}

unfoldable pub accept_thread : PendingThread → Option Fields → Option String → Binding → Binding
unfolding invalidate confirms
accept_thread p thread none b = invalidate b
accept_thread p thread (some id) b =
    if confirms p thread id b.selected_thread_id
    then if p.ephemeral then b else select id thread b
    else invalidate b

-- The response to a pending request, which has been popped.
unfoldable pub settle : PendingThread → Fields → Binding → Binding
unfolding accept_thread is_rejection
settle p message b =
    let error = get "error" message in
    let result = get "result" message in
    let thread = as_obj (get_in (as_obj result) "thread") in
    if is_some error && is_none result
    then if is_rejection (as_obj error) then b else invalidate b
    else if is_some error
    then invalidate b
    else accept_thread p thread (as_nonempty_str (get_in thread "id")) b

abbrev answer : Option PendingThread → Key → Fields → Binding → Binding
answer none key message b = b
answer (some p) key message b = settle p message (record b { pending = pop key b.pending })

abbrev respond : Option Key → Fields → Binding → Binding
respond none message b = b
respond (some key) message b = answer (find key b.pending) key message b

unfoldable pub observe_response : Fields → Binding → Binding
unfolding settle find pop
observe_response message b =
    if is_some (get "method" message) || b.invalid
    then b
    else respond (request_key (get "id" message)) message b
