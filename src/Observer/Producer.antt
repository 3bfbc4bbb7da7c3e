-- ===== src/Observer/Producer.antt =====
-- The producer of rodex/observer_state.py: the events it retains, and the snapshots it publishes.
use codex_tmux_session_manag.Common.{
  ℕ, zero, suc, ◌+◌, String, true, false, Option, none, some, List, [], ◌∷◌, ◌++◌, ◌==◌, string_eq,
  nat_eq, if◌then◌else◌, ltb, length,
}
use codex_tmux_session_manag.Common.Ordered.{pop, pop_first}
use codex_tmux_session_manag.Common.Json.{
  bool, int, str, arr, obj, Items, no_items, item, Fields, end, field,
}
use codex_tmux_session_manag.Observer.{
  Python, Key, key_eq, event_key, event_target, is_terminal_event, mentions_target, narrowed,
  observer_schema, observer_snapshot_event_limit, observer_snapshot_max_bytes,
}

abbrev pub Events : Type 0
Events = List (Key × Fields)

-- self._removed_targets, a dict whose values are all None
abbrev pub Targets : Type 0
Targets = List (String × Unit {0})

pub record Producer : Type 0 where
  pub epoch : ℕ
  pub revision : ℕ
  pub active : Events
  pub tombstones : Events
  pub removed_targets : Targets
  pub dropped_event_count : ℕ

abbrev pub new_producer : Producer
new_producer = record {
  epoch = 0;
  revision = 0;
  active = [];
  tombstones = [];
  removed_targets = [];
  dropped_event_count = 0;
}

abbrev pub retained : Producer → ℕ
retained p = length p.active + length p.tombstones + length p.removed_targets

abbrev pub advance_revision : Producer → Producer
advance_revision p = record p { revision = p.revision + 1 }

-- one round of the loop of _enforce_bounds
abbrev pub drop_oldest : Producer → Producer
drop_oldest p = record p {
  tombstones = pop_first p.tombstones;
  removed_targets = elim p.tombstones [ [] ↦ pop_first p.removed_targets | _ ↦ p.removed_targets ];
  active = elim p.tombstones [
    | [] ↦ elim p.removed_targets [ [] ↦ pop_first p.active | _ ↦ p.active ]
    | _ ↦ p.active
  ];
  dropped_event_count = p.dropped_event_count + 1;
}

-- _enforce_bounds, on as many rounds as there are entries
unfoldable pub enforce_on : ℕ → Producer → Producer
enforce_on zero p = p
enforce_on (suc rounds) p = elim (ltb observer_snapshot_event_limit (retained p)) [
  | true ↦ enforce_on rounds (drop_oldest p)
  | false ↦ p
]

unfoldable pub enforce_bounds : Producer → Producer
enforce_bounds p = enforce_on (retained p) p

abbrev pub forget : Option String → Targets → Targets
forget none targets = targets
forget (some target) targets = pop target targets

-- observe, up to its snapshot
unfoldable pub retain : Python → Fields → Producer → Producer
unfolding pop
retain py event p =
    let key = event_key py event in
    let ended = is_terminal_event py event in
    record p {
      removed_targets = forget (event_target event) p.removed_targets;
      active = if ended then pop key p.active else pop key p.active ++ ((key, event) ∷ []);
      tombstones =
          if ended then pop key p.tombstones ++ ((key, event) ∷ []) else pop key p.tombstones;
    }

abbrev pub keep_some : Key → Option Fields → Events → Events
keep_some key none rest = rest
keep_some key (some event) rest = (key, event) ∷ rest

-- the loop of prune_target over one collection
unfoldable pub prune_events : String → Events → Events
unfolding mentions_target narrowed
prune_events target [] = []
prune_events target (e ∷ es) =
    let rest = prune_events target es in
    if mentions_target e.1 target then keep_some e.0 (narrowed target e.1) rest else e ∷ rest

-- prune_target, up to its snapshot
unfoldable pub prune : String → Producer → Producer
unfolding prune_events pop
prune target p = record p {
  active = prune_events target p.active;
  tombstones = prune_events target p.tombstones;
  removed_targets = pop target p.removed_targets ++ ((target, tt) ∷ []);
}

unfoldable pub clear_epoch : Producer → Producer
clear_epoch p = record p {
  epoch = p.epoch + 1;
  revision = p.revision + 1;
  active = [];
  tombstones = [];
  removed_targets = [];
  dropped_event_count = 0;
}

-- discard_producer_state
unfoldable pub discard_producer_state : Producer → Producer
discard_producer_state p = record p { active = []; tombstones = []; removed_targets = [] }

-- _mark_correlation_incomplete, as far as snapshots show it
unfoldable pub mark_incomplete : Producer → Producer
mark_incomplete p = advance_revision (record p { dropped_event_count = p.dropped_event_count + 1 })

unfoldable pub event_items : Events → Items
event_items [] = no_items
event_items (e ∷ es) = item (obj e.1) (event_items es)

unfoldable pub target_items : Targets → Items
target_items [] = no_items
target_items (t ∷ ts) = item (str t.0) (target_items ts)

abbrev state_value : Producer → Fields
state_value p = field "events" (arr (event_items p.active)) (
    field "tombstones" (arr (event_items p.tombstones))
      (field "removedTargetThreadIds" (arr (target_items p.removed_targets)) end))

abbrev overflow_value : Producer → Fields
overflow_value p =
    field "dropped_event_count" (int false p.dropped_event_count)
      (field "state_complete" (bool (p.dropped_event_count == 0)) end)

-- _snapshot_value
unfoldable pub snapshot_value : Producer → Fields
snapshot_value p = field "schema" (str observer_schema) (
    field "kind" (str "observer_state_snapshot") (
      field "epoch" (int false p.epoch) (
        field "revision" (int false p.revision)
          (field "state" (obj (state_value p)) (field "overflow" (obj (overflow_value p)) end)))))

-- the oldest entry that the loop of snapshot gives up
abbrev pub shed : Producer → Producer
shed p = record p {
  active = pop_first p.active;
  tombstones = elim p.active [ [] ↦ pop_first p.tombstones | _ ↦ p.tombstones ];
  removed_targets = elim p.active [
    | [] ↦ elim p.tombstones [ [] ↦ pop_first p.removed_targets | _ ↦ p.removed_targets ]
    | _ ↦ p.removed_targets
  ];
  dropped_event_count = p.dropped_event_count + 1;
}

-- the loop of snapshot, on as many rounds as there are entries: with none left it breaks
unfoldable pub trim_on : Python → ℕ → Producer → Producer
trim_on py zero p = p
trim_on py (suc rounds) p = elim (ltb observer_snapshot_max_bytes (py.size (snapshot_value p))) [
  | true ↦ trim_on py rounds (shed p)
  | false ↦ p
]

-- snapshot: the producer is left trimmed, and the value is that of what is left
unfoldable pub trim : Python → Producer → Producer
unfolding trim_on snapshot_value
trim py p = trim_on py (retained p) p

abbrev pub publish : Python → Producer → Producer × Fields
publish py p = let left = trim py p in (left, snapshot_value left)

-- observe
unfoldable pub observe : Python → Fields → Producer → Producer × Fields
unfolding retain enforce_bounds trim
observe py event p = publish py (enforce_bounds (advance_revision (retain py event p)))

-- prune_target; `none` is the ValueError
unfoldable pub prune_target : Python → String → Producer → Option (Producer × Fields)
unfolding prune enforce_bounds trim
prune_target py target p =
    if target == ""
    then none
    else some (publish py (enforce_bounds (advance_revision (prune target p))))

-- reset_epoch
unfoldable pub reset_epoch : Python → Producer → Producer × Fields
unfolding clear_epoch trim
reset_epoch py p = publish py (clear_epoch p)
