-- ===== src/Menu.antt =====
-- rodex/input_menu.py: the state of the interception menu. Whether the live expression of a
-- registration matches a draft is a parameter, since the expressions are Python's own; a
-- registration shows here with what the menu reads of it (input_interceptor_config.py).
pub mod Valid
pub mod Steps
mod Examples
use codex_tmux_session_manag.Common.{
  ℕ, ◌+◌, ◌-◌, ◌%◌, String, Bool, true, false, not, ◌&&◌, ◌||◌, Option, none, some, List, [], ◌∷◌,
  ◌==◌, string_eq, if◌then◌else◌, length, get_elem?, map, ltb, is_none,
}
use codex_tmux_session_manag.Common.Dict.{member}

pub data Stage : Type 0 where
  commands arguments : Stage

pub record Choice : Type 0 where
  pub name : String
  pub helper_text : String

pub record Registration : Type 0 where
  pub name : String
  pub completion_text : String
  pub helper_text : String
  pub heading : String
  pub subheading : String
  pub options : List Choice

pub record Row : Type 0 where
  pub label : String
  pub helper_text : String

pub record View : Type 0 where
  pub draft : String
  pub native_prefix : String
  pub rows : List Row
  pub selected_index : Option ℕ
  pub stage : Stage
  pub heading : String
  pub subheading : String

-- InputMenuView.__post_init__; `none` is a ValueError
abbrev pub selection_ok : List Row → Option ℕ → Bool
selection_ok [] selected = is_none selected
selection_ok (row ∷ rows) none = false
selection_ok (row ∷ rows) (some i) = ltb i (length (row ∷ rows))

abbrev pub stage_ok : Stage → List Row → Bool
stage_ok arguments [] = false
stage_ok _ rows = true

unfoldable pub checked_view : View → Option View
checked_view v =
    if stage_ok v.stage v.rows && selection_ok v.rows v.selected_index then some v else none

pub record Menu : Type 0 where
  pub draft : String
  pub stage : Stage
  pub selected_command_name : Option String
  pub selected_option_index : ℕ

abbrev pub names : List Registration → List String
names [] = []
names (r ∷ rs) = r.name ∷ names rs

abbrev pub in_names : Option String → List String → Bool
in_names none ns = false
in_names (some n) ns = member n ns

abbrev pub first_name : List Registration → Option String
first_name [] = none
first_name (r ∷ rs) = some r.name

-- next((entry for entry in entries if entry.name == name), None)
unfoldable pub find_entry : Option String → List Registration → Option Registration
find_entry none rs = none
find_entry (some n) [] = none
find_entry (some n) (r ∷ rs) =
    let rest = find_entry (some n) rs in if r.name == n then some r else rest

abbrev next_index : Option ℕ → Option ℕ
next_index none = none
next_index (some i) = some (i + 1)

-- next(index for index, entry in enumerate(entries) if entry.name == name)
unfoldable pub index_of : Option String → List Registration → Option ℕ
index_of none rs = none
index_of (some n) [] = none
index_of (some n) (r ∷ rs) =
    let rest = index_of (some n) rs in if r.name == n then some 0 else next_index rest

-- An offset of the selection, up or down the rows.
pub data Offset : Type 0 where
  down up : ℕ → Offset

-- (index + offset) % count
unfoldable pub shift : Offset → ℕ → ℕ → ℕ
shift (down k) index count = (index + k) % count
shift (up k) index count = (index + (count - k % count)) % count

abbrev pub command_row : Registration → Row
command_row r = record { label = r.completion_text; helper_text = r.helper_text }

abbrev pub option_row : Choice → Row
option_row o = record { label = o.name; helper_text = o.helper_text }

unfoldable pub rows_of {ℓ} : {A : Type ℓ} → (A → Row) → List A → List Row
rows_of f [] = []
rows_of f (x ∷ xs) = f x ∷ rows_of f xs

abbrev pub has_options : Registration → Bool
has_options r = elim r.options [ [] ↦ false | _ ↦ true ]

abbrev pub option_screen : Registration → String → Menu → View
option_screen r native_prefix m = record {
  draft = m.draft;
  native_prefix = native_prefix;
  rows = rows_of option_row r.options;
  selected_index = if has_options r then some m.selected_option_index else none;
  stage = m.stage;
  heading = r.heading;
  subheading = r.subheading;
}

abbrev pub command_screen : List Registration → String → Menu → View
command_screen found native_prefix m = record {
  draft = m.draft;
  native_prefix = native_prefix;
  rows = rows_of command_row found;
  selected_index = index_of m.selected_command_name found;
  stage = commands;
  heading = "";
  subheading = "";
}

abbrev pub blank : String → Menu
blank draft = record {
  draft = draft;
  stage = commands;
  selected_command_name = none;
  selected_option_index = 0;
}

module _ (live : Registration → String → Bool) (registrations : List Registration) where
  -- matching_commands
  unfoldable pub matching_in : List Registration → String → List Registration
  matching_in [] draft = []
  matching_in (r ∷ rs) draft =
      let rest = matching_in rs draft in if live r draft then r ∷ rest else rest

  abbrev pub matching_commands : Menu → List Registration
  matching_commands m = matching_in registrations m.draft

  abbrev pub selected_command : Menu → Option Registration
  selected_command m = find_entry m.selected_command_name registrations

  abbrev pub reselect : List Registration → Menu → Menu
  reselect found m = record m {
    selected_command_name =
        if in_names m.selected_command_name (names found)
        then m.selected_command_name
        else first_name found;
  }

  unfoldable pub update_draft : String → Menu → Menu
  update_draft draft m = reselect (matching_in registrations draft) (record m { draft = draft })

  -- __init__
  unfoldable pub open_menu : String → Menu
  unfolding update_draft
  open_menu draft = update_draft draft (blank draft)

  abbrev move_option : Offset → Option Registration → Menu → Option Menu
  move_option offset none m = some m
  move_option offset (some r) m =
      if has_options r
      then some (record m {
        selected_option_index = shift offset m.selected_option_index (length r.options);
      })
      else some m

  abbrev choose : Option Registration → Menu → Option Menu
  choose none m = none
  choose (some r) m = some (record m { selected_command_name = some r.name })

  abbrev move_from : Offset → List Registration → Option ℕ → Menu → Option Menu
  move_from offset found none m = none
  move_from offset found (some index) m =
      choose (get_elem? found (shift offset index (length found))) m

  abbrev move_command : Offset → List Registration → Menu → Option Menu
  move_command offset [] m = some m
  move_command offset (r ∷ rs) m =
      move_from offset (r ∷ rs) (index_of m.selected_command_name (r ∷ rs)) m

  -- `none` is a StopIteration, of a selection that is not among the matches
  unfoldable pub move_selection : Offset → Menu → Option Menu
  move_selection offset m = elim m.stage [
    | arguments ↦ move_option offset (selected_command m) m
    | commands ↦ move_command offset (matching_commands m) m
  ]

  abbrev open_at : Option Registration → Menu → Menu × Bool
  open_at none m = (m, false)
  open_at (some r) m =
      if has_options r
      then (record m { stage = arguments; selected_option_index = 0 }, true)
      else (m, false)

  unfoldable pub open_arguments : Menu → Menu × Bool
  open_arguments m = open_at (selected_command m) m

  unfoldable pub back_to_commands : Menu → Menu
  back_to_commands m = record m { stage = commands }

  abbrev pub option_view : Option Registration → String → Menu → Option View
  option_view none native_prefix m = none
  option_view (some r) native_prefix m = checked_view (option_screen r native_prefix m)

  abbrev pub command_view : List Registration → String → Menu → Option View
  command_view found native_prefix m = checked_view (command_screen found native_prefix m)

  -- view; `none` is a failed assertion or a ValueError
  unfoldable pub view : String → Menu → Option View
  view native_prefix m = elim m.stage [
    | arguments ↦ option_view (selected_command m) native_prefix m
    | commands ↦ command_view (matching_commands m) native_prefix m
  ]
