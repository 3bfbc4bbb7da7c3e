-- ===== src/Observer/Snapshots.antt =====
-- What the parse of rodex/observer_state.py makes of a snapshot that its producer wrote.
use codex_tmux_session_manag.Common.{
  ◌+◌, ◌≤◌, String, ◌≡◌, ◌∙◌, refl, ap, Bool, true, false, not, some, List, [], ◌∷◌, ◌==◌,
  string_eq, nat_eq, if◌then◌else◌, length, arith, All, ltb,
}
use codex_tmux_session_manag.Common.Ordered.{Distinct, fill, fill_self, put}
use codex_tmux_session_manag.Common.Json.{Fields, get, is_str}
use codex_tmux_session_manag.Observer.{
  Python, Key, key_eq, event_key, observer_schema, observer_snapshot_event_limit,
}
use codex_tmux_session_manag.Observer.Producer.{
  Events, Targets, Producer, retained, event_items, target_items, snapshot_value,
}
use codex_tmux_session_manag.Observer.Consumer.{
  Parsed, event_entries, event_mapping, count_items, nonempty_texts, parse_snapshot, fill_targets,
}

-- An event under its own key, of the schema.
abbrev pub IsOwn : Python → Key × Fields → Type 0
IsOwn py e = (event_key py e.1 ≡ e.0) × (is_str (get "schema" e.1) observer_schema ≡ true)

abbrev pub IsNamed : String × Unit {0} → Type 0
IsNamed t = (t.0 == "") ≡ false

abbrev pub AreEvents : Python → Events → Type 0
AreEvents py es = All (IsOwn py) es × Distinct es

abbrev pub AreTargets : Targets → Type 0
AreTargets ts = All IsNamed ts × Distinct ts

-- A producer whose entries stand under their own keys, once each, and are not too many.
abbrev pub IsValid : Python → Producer → Type 0
IsValid py p =
    AreEvents py p.active
    × AreEvents py p.tombstones
    × AreTargets p.removed_targets
    × (retained p ≤ observer_snapshot_event_limit)

event_entries-event_items :
    (py : Python) (es : Events) → All (IsOwn py) es → event_entries py (event_items es) ≡ some es
unfolding event_entries event_items
event_entries-event_items py [] h = refl
event_entries-event_items py (e ∷ es) h =
    rw (h.0.1, event_entries-event_items py es h.1, h.0.0) refl

event_mapping-event_items :
    (py : Python) (es : Events)
    → AreEvents py es
    → event_mapping py (some (event_items es)) ≡ some es
unfolding event_mapping
event_mapping-event_items py es h =
    rw (event_mapping, event_entries-event_items py es h.0) (ap some (fill_self es h.1))

count_items-target_items : (ts : Targets) → count_items (target_items ts) ≡ length ts
unfolding count_items target_items
count_items-target_items [] = refl
count_items-target_items (t ∷ ts) = omega (arith, count_items-target_items ts)

abbrev pub names : Targets → List String
names [] = []
names (t ∷ ts) = t.0 ∷ names ts

nonempty_texts-target_items :
    (ts : Targets) → All IsNamed ts → nonempty_texts (target_items ts) ≡ names ts
unfolding nonempty_texts target_items
nonempty_texts-target_items [] h = refl
nonempty_texts-target_items (t ∷ ts) h = rw (h.0, nonempty_texts-target_items ts h.1) refl

fill_targets-fill : (ts d : Targets) → fill_targets (names ts) d ≡ fill d ts
unfolding fill
fill_targets-fill [] d = refl
fill_targets-fill (t ∷ ts) d = fill_targets-fill ts (put t.0 tt d)

pub fill_targets-names : (ts : Targets) → Distinct ts → fill_targets (names ts) [] ≡ ts
fill_targets-names ts h = fill_targets-fill ts [] ∙ fill_self ts h

abbrev pub shown_of : Producer → Parsed
shown_of p = record {
  epoch = p.epoch;
  revision = p.revision;
  active = p.active;
  tombstones = p.tombstones;
  removed_targets = names p.removed_targets;
  dropped_event_count = p.dropped_event_count;
}

if_self : (b : Bool) → (if b then b else not b) ≡ true
if_self true = refl
if_self false = refl

-- What a valid producer writes into a snapshot, the parse reads back: every event under its key and in
-- its order, active or terminal, the removed targets, the epoch, the revision and the dropped count.
pub parse_snapshot-snapshot_value :
    (py : Python) (p : Producer)
    → IsValid py p
    → parse_snapshot py (snapshot_value p) ≡ some (shown_of p)
unfolding parse_snapshot snapshot_value get
parse_snapshot-snapshot_value py p (active, tombstones, targets, few) =
    let fits : ltb observer_snapshot_event_limit
          (length p.active + length p.tombstones + count_items (target_items p.removed_targets))
        ≡ false =
      rw (count_items-target_items p.removed_targets) (ground arith) in
    rw
      (
        if_self (p.dropped_event_count == 0),
        event_mapping-event_items py p.active active,
        event_mapping-event_items py p.tombstones tombstones,
        fits,
        nonempty_texts-target_items p.removed_targets targets.0,
      )
      refl
