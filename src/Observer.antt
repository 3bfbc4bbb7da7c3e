-- ===== src/Observer.antt =====
-- rodex/observer_state.py: what the reducer reads of an event: the key it is kept under, the agent's
-- thread it is about, and whether it is terminal. What Python's own functions do with a value is a
-- parameter: `shown` is str() of a value that is no text, `lower` is str.lower, and `size` the number
-- of UTF-8 bytes of a snapshot's JSON.
mod Producer
mod Consumer
mod Snapshots
mod Bounds
mod Retention
mod Operations
mod Mirror
mod Delivery
mod Order
mod Faithful
mod Examples
use codex_tmux_session_manag.Common.{
  ℕ, zero, String, ◌≡◌, Bool, true, false, not, ◌&&◌, ◌||◌, Option, none, some, List, [], ◌∷◌, ◌==◌,
  string_eq, nat_eq, option_eq, if◌then◌else◌, Comparable, arith, refl, ◌↔◌, ap, ◌∙◌, eq_iff,
  eq_refl,
}
use codex_tmux_session_manag.Common.Json.{
  Value, null, bool, int, float, str, arr, obj, Items, no_items, item, Fields, end, field, get,
  as_obj, as_str, as_nonempty_str, get_in, is_str, set_field,
}

pub record Python : Type 0 where
  pub shown : Value → String
  pub lower : String → String
  pub size : Fields → ℕ

abbrev pub observer_schema : String
observer_schema = "rodex-agent-observer-v4"

abbrev pub observer_snapshot_event_limit : ℕ
observer_snapshot_event_limit = 64

abbrev pub observer_snapshot_max_bytes : ℕ
observer_snapshot_max_bytes = 261888

pub record Key : Type 0 where
  pub thread_id : String
  pub item_id : String
  pub kind : String

abbrev pub same_key : Key → Key → Bool
same_key j k = j.thread_id == k.thread_id && j.item_id == k.item_id && j.kind == k.kind

pub same_key_refl : (k : Key) → same_key k k ≡ true
same_key_refl k = ground (arith, eq_refl k.thread_id, eq_refl k.item_id, eq_refl k.kind)

keys : {j k : Key} → j.thread_id ≡ k.thread_id → j.item_id ≡ k.item_id → j.kind ≡ k.kind → j ≡ k
keys a b c i = record { thread_id = a i; item_id = b i; kind = c i }

pub same_key_iff : (j k : Key) → (same_key j k ≡ true) ↔ (j ≡ k)
same_key_iff j k = (
  λ h.
      let a : j.thread_id ≡ k.thread_id = ground (arith, eq_iff j.thread_id k.thread_id) in
      let b : j.item_id ≡ k.item_id = ground (arith, eq_iff j.item_id k.item_id) in
      let c : j.kind ≡ k.kind = ground (arith, eq_iff j.kind k.kind) in keys a b c,
  λ e. ap (λ (i : Key). same_key i k) e ∙ same_key_refl k,
)

instance abbrev pub key_eq : Comparable Key
key_eq = record { same = same_key; same_iff = same_key_iff }

abbrev pub show : Python → Value → String
show py (str text) = text
show py value = py.shown value

abbrev truthy : Value → Bool
truthy null = false
truthy (bool b) = b
truthy (int sign n) = not (n == 0)
truthy (float bits) = not (bits == 0 || bits == 9223372036854775808)
truthy (str text) = not (text == "")
truthy (obj end) = false
truthy (obj _) = true
truthy (arr no_items) = false
truthy (arr _) = true

-- str(thread_id or "global")
abbrev thread_text : Python → Option Value → String
thread_text py none = "global"
thread_text py (some value) = if truthy value then show py value else "global"

-- str(event.get("kind", "unknown"))
abbrev kind_text : Python → Option Value → String
kind_text py none = "unknown"
kind_text py (some value) = show py value

abbrev is_nonempty : Option Value → Bool
is_nonempty (some (str text)) = not (text == "")
is_nonempty _ = false

abbrev either : Option Value → Option Value → Option Value
either first second = if is_nonempty first then first else second

-- what the key is made of: kind, the item's id and agent, and the threads and the activity
abbrev keyed : String → String → Option String → String → Key
keyed kind thread (some item_id) latest = record {
  thread_id = thread;
  item_id = item_id;
  kind = kind;
}
keyed kind thread none latest = record { thread_id = thread; item_id = latest; kind = kind }

abbrev without_item : Python → String → Option Value → Option Value → Key
without_item py kind thread activity =
    if is_nonempty activity
    then keyed kind (thread_text py thread) (as_nonempty_str activity) "latest"
    else if kind == "trace_published"
    then keyed kind "global" none "latest"
    else keyed kind (thread_text py thread) none "latest"

abbrev of_agent : String → Option Value → Option Value → Option Value
of_agent kind agent thread =
    if kind == "app_server_subagent_activity" && is_nonempty agent then agent else thread

abbrev with_item : Python → String → Option Value → Option Value → Option Value → Option Value → Key
with_item py kind id agent thread activity =
    let owner = of_agent kind agent thread in
    if is_nonempty id
    then keyed kind (thread_text py owner) (as_nonempty_str id) "latest"
    else without_item py kind owner activity

abbrev by_item : Python → String → Option Fields → Option Value → Option Value → Key
by_item py kind none thread activity = without_item py kind thread activity
by_item py kind (some it) thread activity =
    with_item py kind (get "id" it) (get "agent_thread_id" it) thread activity

-- observer_state_event_key
unfoldable pub event_key : Python → Fields → Key
event_key py event =
    by_item py (kind_text py (get "kind" event)) (as_obj (get "item" event))
      (either (get "target_thread_id" event) (get "thread_id" event)) (get "activity_item_id" event)

abbrev agent_or : Option Fields → Option Value → Option String
agent_or none thread = as_nonempty_str thread
agent_or (some it) thread =
    if is_nonempty (get "agent_thread_id" it)
    then as_nonempty_str (get "agent_thread_id" it)
    else as_nonempty_str thread

-- observer_event_target_thread_id
unfoldable pub event_target : Fields → Option String
event_target event =
    if is_nonempty (get "target_thread_id" event)
    then as_nonempty_str (get "target_thread_id" event)
    else agent_or (as_obj (get "item" event)) (get "thread_id" event)

abbrev is_ending : String → Bool
is_ending kind = kind == "completed" || kind == "failed" || kind == "aborted" || kind == "shutdown"

abbrev ends : Python → Option Value → Bool
ends py (some (str kind)) = is_ending (py.lower kind)
ends py _ = false

-- _is_terminal_event
unfoldable pub is_terminal_event : Python → Fields → Bool
is_terminal_event py event =
    is_str (get "method" event) "item/completed"
    || ends py (get_in (as_obj (get "item" event)) "activity_kind")

abbrev pub as_items : Option Value → Option Items
as_items (some (arr items)) = some items
as_items _ = none

unfoldable pub contains : String → Items → Bool
contains text no_items = false
contains text (item value rest) = is_str (some value) text || contains text rest

abbrev lists : String → Option Items → Bool
lists text none = false
lists text (some items) = contains text items

abbrev pub receivers : Fields → Option Items
receivers event = as_items (get_in (as_obj (get "item" event)) "receiver_thread_ids")

-- _event_mentions_target
unfoldable pub mentions_target : Fields → String → Bool
unfolding event_target contains
mentions_target event target = event_target event == some target || lists target (receivers event)

-- [target for target in receivers if target != target_thread_id]
unfoldable pub others : String → Items → Items
others text no_items = no_items
others text (item value rest) =
    let more = others text rest in if is_str (some value) text then more else item value more

abbrev pub narrow_item : Fields → Option Fields → Items → Option Fields
narrow_item event none remaining = none
narrow_item event (some it) no_items = none
narrow_item event (some it) (item v more) =
    some (set_field "item" (obj (set_field "receiver_thread_ids" (arr (item v more)) it)) event)

abbrev pub remaining : String → Option Items → Items
remaining target none = no_items
remaining target (some items) = others target items

-- what stays of an event that mentions a pruned target: it, with the other receivers, if any
unfoldable pub narrowed : String → Fields → Option Fields
unfolding others set_field
narrowed target event =
    narrow_item event (as_obj (get "item" event)) (remaining target (receivers event))
