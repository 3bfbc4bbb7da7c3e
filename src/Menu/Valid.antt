-- ===== src/Menu/Valid.antt =====
-- Menus whose selection stands among what they show, and that their views are accepted (input_menu.py).
use native.Mathlib.Nat.{mod-lt}
use codex_tmux_session_manag.Common.{
  ℕ, zero, suc, ◌+◌, ◌<◌, String, ◌≡◌, refl, ap, Bool, true, false, ◌&&◌, Option, none, some, List,
  [], ◌∷◌, ◌==◌, string_eq, length, get_elem?, arith, Bool-cases, inl, inr, if◌then◌else◌, lt→ltb,
  eq_iff,
}
use codex_tmux_session_manag.Common.Dict.{member}
use codex_tmux_session_manag.Menu.{
  Stage, commands, arguments, Registration, Choice, Row, View, Menu, names, in_names, index_of,
  stage_ok, selection_ok, Offset, down, up, shift, rows_of, has_options, checked_view,
  matching_commands, selected_command, view, command_view, option_view, command_row, option_row,
  command_screen, option_screen,
}

-- The selected name is one of the matches, and there is none only without matches.
abbrev pub Selects : List Registration → Option String → Type 0
Selects [] selected = selected ≡ none
Selects (r ∷ rs) selected = in_names selected (names (r ∷ rs)) ≡ true

-- The argument picker shows the options of a registration and has selected one of them.
abbrev pub Picks : Stage → Option Registration → ℕ → Type 0
Picks commands entry index = Unit
Picks arguments none index = ⊥
Picks arguments (some r) index = index < length r.options

abbrev pub Valid : (Registration → String → Bool) → List Registration → Menu → Type 0
Valid live registrations m =
    Selects (matching_commands live registrations m) m.selected_command_name
    × Picks m.stage (selected_command live registrations m) m.selected_option_index

pub shift-lt : (offset : Offset) (index count : ℕ) → 0 < count → shift offset index count < count
unfolding shift
shift-lt (down k) index count h = mod-lt (index + k) h
shift-lt (up k) index count h = mod-lt _ h

pub index_of-found :
    (selected : Option String) (rs : List Registration)
    → in_names selected (names rs) ≡ true
    → (i : ℕ) × (index_of selected rs ≡ some i) × (i < length rs)
unfolding index_of member
index_of-found none rs h = absurd (ground arith)
index_of-found (some n) [] h = absurd (ground arith)
index_of-found (some n) (r ∷ rs) h = elim (Bool-cases (r.name == n)) [
  | inl same ↦ (0, rw same refl, omega arith)
  | inr other ↦
      let (i, e, l) = index_of-found (some n) rs (ground arith) in
      (i + 1, rw (other, e) refl, omega arith)
]

pub get_elem?-names :
    (rs : List Registration) (i : ℕ)
    → i < length rs
    → (r : Registration) × (get_elem? rs i ≡ some r) × (in_names (some r.name) (names rs) ≡ true)
unfolding member
get_elem?-names [] i h = absurd (omega arith)
get_elem?-names (r ∷ rs) zero h = (r, refl, ground (arith, eq_iff r.name r.name))
get_elem?-names (r ∷ rs) (suc i) h =
    let (q, e, m) = get_elem?-names rs i (omega arith) in (q, e, ground arith)

length-rows_of {ℓ} : {A : Type ℓ} (f : A → Row) (xs : List A) → length (rows_of f xs) ≡ length xs
unfolding rows_of
length-rows_of f [] = refl
length-rows_of f (x ∷ xs) = ap suc (length-rows_of f xs)

checks :
    (stage : Stage) (rows : List Row) (i : ℕ)
    → i < length rows
    → stage_ok stage rows && selection_ok rows (some i) ≡ true
checks stage [] i h = absurd (omega arith)
checks commands (row ∷ rows) i h = lt→ltb i (length (row ∷ rows)) h
checks arguments (row ∷ rows) i h = lt→ltb i (length (row ∷ rows)) h

checked_view-accepts :
    (v : View) (i : ℕ)
    → v.selected_index ≡ some i
    → i < length v.rows
    → (w : View) × (checked_view v ≡ some w)
unfolding checked_view
checked_view-accepts v i e h =
    let ok : stage_ok v.stage v.rows && selection_ok v.rows v.selected_index ≡ true =
      (rw e (checks v.stage v.rows i h)) in
    (v, rw (checked_view, ok) refl)

pub has_options-lt : (r : Registration) (i : ℕ) → i < length r.options → has_options r ≡ true
has_options-lt r i h = by_options r.options i h
  where
    by_options :
        (os : List Choice) (j : ℕ) → j < length os → (elim os [ [] ↦ false | _ ↦ true ]) ≡ true
    by_options [] j l = absurd (omega arith)
    by_options (o ∷ os) j l = refl

command_view-accepted :
    (live : Registration → String → Bool) (registrations : List Registration)
    (rs : List Registration) (native_prefix : String) (m : Menu)
    → Selects rs m.selected_command_name
    → (v : View) × (command_view live registrations rs native_prefix m ≡ some v)
unfolding checked_view rows_of index_of
command_view-accepted live registrations [] native_prefix m h =
    let index = command_screen [] native_prefix m in (index, rw h refl)
command_view-accepted live registrations (r ∷ rs) native_prefix m h =
    let (i, e, l) = index_of-found m.selected_command_name (r ∷ rs) h in
    checked_view-accepts (command_screen (r ∷ rs) native_prefix m) i e
      (rw (length-rows_of command_row (r ∷ rs)) l)

option_view-accepted :
    (live : Registration → String → Bool) (registrations : List Registration)
    (entry : Option Registration) (native_prefix : String) (m : Menu)
    → Picks arguments entry m.selected_option_index
    → (v : View) × (option_view live registrations entry native_prefix m ≡ some v)
option_view-accepted live registrations none native_prefix m h = elim h [ ]
option_view-accepted live registrations (some r) native_prefix m h =
    let index : (if has_options r then some m.selected_option_index else none)
        ≡ some m.selected_option_index =
      (rw (has_options-lt r m.selected_option_index h) refl) in
    checked_view-accepts (option_screen r native_prefix m) m.selected_option_index index
      (rw (length-rows_of option_row r.options) h)

pub view-accepted :
    (live : Registration → String → Bool) (registrations : List Registration)
    (native_prefix : String) (m : Menu)
    → Valid live registrations m
    → (v : View) × (view live registrations native_prefix m ≡ some v)
unfolding view
view-accepted live registrations native_prefix m h = by_stage m.stage h.1
  where
    by_stage :
        (s : Stage)
        → Picks s (selected_command live registrations m) m.selected_option_index
        → (v : View) × ((elim s [
          | arguments ↦
              option_view live registrations (selected_command live registrations m) native_prefix m
          | commands ↦
              command_view live registrations
                (matching_commands live registrations m)
                native_prefix
                m
        ])
            ≡ some v)
    by_stage commands p =
        command_view-accepted live registrations (matching_commands live registrations m)
          native_prefix m h.0
    by_stage arguments p =
        option_view-accepted live registrations (selected_command live registrations m)
          native_prefix m p
