-- ===== src/Observer/Consumer.antt =====
-- The consumer of rodex/observer_state.py: the parse of a snapshot, and what is made of one.
use codex_tmux_session_manag.Common.{
  ℕ, ◌+◌, String, Bool, true, false, not, ◌&&◌, ◌||◌, Option, none, some, List, [], ◌∷◌, ◌==◌,
  string_eq, nat_eq, option_eq, if◌then◌else◌, ltb, leb, length,
}
use codex_tmux_session_manag.Common.Ordered.{has, put, fill}
use codex_tmux_session_manag.Common.Json.{
  Value, bool, int, str, obj, Items, no_items, item, Fields, get, get_in, as_obj, is_str,
}
use codex_tmux_session_manag.Observer.{
  Python, Key, key_eq, event_key, as_items, observer_schema, observer_snapshot_event_limit,
}
use codex_tmux_session_manag.Observer.Producer.{Events, Targets}

pub record Parsed : Type 0 where
  pub epoch : ℕ
  pub revision : ℕ
  pub active : Events
  pub tombstones : Events
  pub removed_targets : List String
  pub dropped_event_count : ℕ

-- a value that is an int, no bool, and not negative
abbrev pub as_count : Option Value → Option ℕ
as_count (some (int false n)) = some n
as_count _ = none

abbrev as_event : Value → Option Fields
as_event (obj event) = if is_str (get "schema" event) observer_schema then some event else none
as_event _ = none

abbrev and_event : Python → Option Fields → Option Events → Option Events
and_event py none rest = none
and_event py (some event) none = none
and_event py (some event) (some rest) = some ((event_key py event, event) ∷ rest)

-- the loop of _event_mapping: the entries in the order of their assignments
unfoldable pub event_entries : Python → Items → Option Events
event_entries py no_items = some []
event_entries py (item value rest) = and_event py (as_event value) (event_entries py rest)

abbrev filled : Option Events → Option Events
filled none = none
filled (some entries) = some (fill [] entries)

-- _event_mapping
unfoldable pub event_mapping : Python → Option Items → Option Events
unfolding event_entries fill
event_mapping py none = none
event_mapping py (some items) = filled (event_entries py items)

unfoldable pub count_items : Items → ℕ
count_items no_items = 0
count_items (item value rest) = count_items rest + 1

abbrev and_text : Value → List String → List String
and_text (str text) rest = if text == "" then rest else text ∷ rest
and_text _ rest = rest

-- tuple(target for target in removed if isinstance(target, str) and target)
unfoldable pub nonempty_texts : Items → List String
nonempty_texts no_items = []
nonempty_texts (item value rest) = and_text value (nonempty_texts rest)

abbrev as_bool : Option Value → Option Bool
as_bool (some (bool b)) = some b
as_bool _ = none

abbrev is_complete : Option Bool → ℕ → Bool
is_complete none dropped = false
is_complete (some complete) dropped = if complete then dropped == 0 else not (dropped == 0)

abbrev within_limit : ℕ → ℕ → Option Events → Option Events → Option Items → ℕ → Option Parsed
within_limit epoch revision (some active) (some tombstones) (some removed) dropped =
    if ltb observer_snapshot_event_limit (length active + length tombstones + count_items removed)
    then none
    else some (record {
      epoch = epoch;
      revision = revision;
      active = active;
      tombstones = tombstones;
      removed_targets = nonempty_texts removed;
      dropped_event_count = dropped;
    })
within_limit epoch revision _ _ _ dropped = none

abbrev of_state : Python → ℕ → ℕ → Fields → ℕ → Option Parsed
of_state py epoch revision state dropped =
    within_limit epoch revision (event_mapping py (as_items (get "events" state)))
      (event_mapping py (as_items (get "tombstones" state)))
      (as_items (get "removedTargetThreadIds" state)) dropped

abbrev of_counts :
    Python
    → Option ℕ
    → Option ℕ
    → Option Fields
    → Option Fields
    → Option ℕ
    → Option Bool
    → Option Parsed
of_counts py (some epoch) (some revision) (some state) (some overflow) (some dropped) complete =
    if is_complete complete dropped then of_state py epoch revision state dropped else none
of_counts py _ _ _ _ _ complete = none

-- _parse_snapshot
unfoldable pub parse_snapshot : Python → Fields → Option Parsed
unfolding event_mapping count_items nonempty_texts
parse_snapshot py snapshot =
    let overflow = as_obj (get "overflow" snapshot) in
    if is_str (get "schema" snapshot) observer_schema
      && is_str (get "kind" snapshot) "observer_state_snapshot"
    then of_counts py (as_count (get "epoch" snapshot)) (as_count (get "revision" snapshot))
        (as_obj (get "state" snapshot)) overflow (as_count (get_in overflow "dropped_event_count"))
        (as_bool (get_in overflow "state_complete"))
    else none

-- `seen` is the epoch and the revision of the last snapshot; none stands for -1 and -1.
pub record Consumer : Type 0 where
  pub seen : Option (ℕ × ℕ)
  pub active : Events
  pub tombstones : Events
  pub removed_targets : Targets
  pub dropped_event_count : ℕ

abbrev pub new_consumer : Consumer
new_consumer = record {
  seen = none;
  active = [];
  tombstones = [];
  removed_targets = [];
  dropped_event_count = 0;
}

pub record Delta : Type 0 where
  pub epoch_changed : Bool
  pub state_replaced : Bool
  pub upserted_events : List Fields
  pub tombstone_events : List Fields
  pub removed_target_thread_ids : List String
  pub active_events : List Fields

abbrev pub events_of : Events → List Fields
events_of [] = []
events_of (e ∷ es) = e.1 ∷ events_of es

-- _empty_delta, without the epoch and the revision, which are the consumer's
abbrev pub empty_delta : Consumer → Delta
empty_delta c = record {
  epoch_changed = false;
  state_replaced = false;
  upserted_events = [];
  tombstone_events = [];
  removed_target_thread_ids = [];
  active_events = events_of c.active;
}

abbrev pub is_stale : Option (ℕ × ℕ) → Parsed → Bool
is_stale none s = false
is_stale (some (epoch, revision)) s =
    ltb s.epoch epoch || (s.epoch == epoch && leb s.revision revision)

abbrev pub new_epoch : Option (ℕ × ℕ) → Parsed → Bool
new_epoch none s = true
new_epoch (some (epoch, revision)) s = not (s.epoch == epoch)

abbrev find_event : Key → Events → Option Fields
find_event key [] = none
find_event key (e ∷ es) = if e.0 == key then some e.1 else find_event key es

abbrev pub fill_targets : List String → Targets → Targets
fill_targets [] ts = ts
fill_targets (t ∷ rest) ts = fill_targets rest (put t tt ts)

module _ (same_event : Fields → Fields → Bool) where
  abbrev is_same : Option Fields → Fields → Bool
  is_same none event = false
  is_same (some old) event = same_event old event

  -- the events of `incoming` that `prior` does not hold so
  unfoldable pub changed : Events → Events → List Fields
  changed prior [] = []
  changed prior (e ∷ es) =
      let rest = changed prior es in if is_same (find_event e.0 prior) e.1 then rest else e.1 ∷ rest

  unfoldable pub unseen : Targets → List String → List String
  unfolding has
  unseen ts [] = []
  unseen ts (t ∷ rest) = let more = unseen ts rest in if has t ts then more else t ∷ more

  abbrev pub cleared : Bool → Consumer → Consumer
  cleared replaced c =
      if replaced then record c { active = []; tombstones = []; removed_targets = [] } else c

  abbrev pub taken : Parsed → Consumer
  taken s = record {
    seen = some (s.epoch, s.revision);
    active = s.active;
    tombstones = s.tombstones;
    removed_targets = fill_targets s.removed_targets [];
    dropped_event_count = s.dropped_event_count;
  }

  abbrev delta_of : Bool → Bool → Parsed → Consumer → Delta
  delta_of changed_epoch replaced s before = record {
    epoch_changed = changed_epoch;
    state_replaced = replaced;
    upserted_events = changed before.active s.active;
    tombstone_events = changed before.tombstones s.tombstones;
    removed_target_thread_ids = unseen before.removed_targets s.removed_targets;
    active_events = events_of s.active;
  }

  abbrev pub take : Parsed → Consumer → Consumer × Delta
  take s c =
      let changed_epoch = new_epoch c.seen s in
      let replaced = changed_epoch || ltb c.dropped_event_count s.dropped_event_count in
      (taken s, delta_of changed_epoch replaced s (cleared replaced c))

  abbrev pub consume_parsed : Option Parsed → Consumer → Consumer × Delta
  consume_parsed none c = (c, empty_delta c)
  consume_parsed (some s) c =
      if is_stale c.seen s
        || (not (new_epoch c.seen s) && ltb s.dropped_event_count c.dropped_event_count)
      then (c, empty_delta c)
      else take s c

  -- consume_snapshot
  unfoldable pub consume_snapshot : Python → Fields → Consumer → Consumer × Delta
  unfolding parse_snapshot changed unseen
  consume_snapshot py snapshot c = consume_parsed (parse_snapshot py snapshot) c
