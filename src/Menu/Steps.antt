-- ===== src/Menu/Steps.antt =====
-- The menu over the keys of a session (input_menu.py, as the interceptor of terminal_input.py drives it).
use mathlib.Core.Path.{subst}
use codex_tmux_session_manag.Common.{
  ℕ, ◌<◌, String, ◌≡◌, refl, sym, Bool, true, false, Option, none, some, List, [], ◌∷◌, string_eq,
  length, arith, eq_iff, Bool-cases, inl, inr, if_intro,
}
use codex_tmux_session_manag.Common.Dict.{member}
use codex_tmux_session_manag.Menu.{
  Stage, commands, arguments, Registration, View, Menu, names, in_names, first_name, Choice, Offset,
  shift, matching_in, matching_commands, selected_command, view, has_options, reselect,
  update_draft, open_menu, blank, move_option, move_command, move_selection, open_at,
  open_arguments, back_to_commands,
}
use codex_tmux_session_manag.Menu.Valid.{
  Selects, Picks, Valid, shift-lt, index_of-found, get_elem?-names, has_options-lt, view-accepted,
}

-- What the interceptor does to an open menu.
pub data Action : Type 0 where
  type : String → Action
  move : Offset → Action
  choose_command back : Action

module _ (live : Registration → String → Bool) (registrations : List Registration) where
  -- `none` is an exception.
  abbrev pub act : Action → Menu → Option Menu
  act (type draft) m = some (update_draft live registrations draft m)
  act (move offset) m = move_selection live registrations offset m
  act choose_command m = some (open_arguments live registrations m).0
  act back m = some (back_to_commands live registrations m)

  abbrev pub then_act : Option Menu → (Menu → Option Menu) → Option Menu
  then_act none f = none
  then_act (some m) f = f m

  unfoldable pub run : List Action → Menu → Option Menu
  run [] m = some m
  run (a ∷ later) m = then_act (act a m) (λ m'. run later m')

  abbrev pub Then : Option Menu → (Menu → Type 0) → Type 0
  Then none P = Unit
  Then (some m) P = P m

  -- Every draft comes while the commands are shown: the interceptor gives the menu no text while its
  -- picker of arguments is open.
  abbrev pub IsDriven : List Action → Menu → Type 0
  IsDriven [] m = Unit
  IsDriven (type draft ∷ later) m =
      (m.stage ≡ commands) × IsDriven later (update_draft live registrations draft m)
  IsDriven (move offset ∷ later) m =
      Then (move_selection live registrations offset m) (λ m'. IsDriven later m')
  IsDriven (choose_command ∷ later) m = IsDriven later (open_arguments live registrations m).0
  IsDriven (back ∷ later) m = IsDriven later (back_to_commands live registrations m)

  abbrev pub Ok : Menu → Type 0
  Ok = Valid live registrations

  first_name-Selects : (found : List Registration) → Selects found (first_name found)
  unfolding member
  first_name-Selects [] = refl
  first_name-Selects (r ∷ rs) = ground (arith, eq_iff r.name r.name)

  in_names-Selects :
      (found : List Registration) (selected : Option String)
      → in_names selected (names found) ≡ true
      → Selects found selected
  unfolding member
  in_names-Selects [] none h = refl
  in_names-Selects [] (some n) h = absurd (ground arith)
  in_names-Selects (r ∷ rs) selected h = h

  reselect-Selects :
      (found : List Registration) (m : Menu)
      → Selects found (reselect live registrations found m).selected_command_name
  reselect-Selects found m = elim (Bool-cases (in_names m.selected_command_name (names found))) [
    | inl kept ↦ rw kept (in_names-Selects found m.selected_command_name kept)
    | inr lost ↦ rw lost (first_name-Selects found)
  ]

  move_command-Selects :
      (offset : Offset) (found : List Registration) (m : Menu)
      → Selects found m.selected_command_name
      → (x : Option String) × (move_command live registrations offset found m
          ≡ some (record m { selected_command_name = x }))
        × Selects found x
  move_command-Selects offset [] m h = (m.selected_command_name, refl, h)
  move_command-Selects offset (r ∷ rs) m h =
      let (i, e, l) = index_of-found m.selected_command_name (r ∷ rs) h in
      let (q, f, n) =
        get_elem?-names (r ∷ rs) (shift offset i (length (r ∷ rs)))
          (shift-lt offset i (length (r ∷ rs)) (omega arith)) in
      (some q.name, rw (e, f) refl, n)

  Picks-commands :
      (s : Stage) (entry : Option Registration) (i : ℕ) → s ≡ commands → Picks s entry i
  Picks-commands commands entry i e = tt
  Picks-commands arguments entry i e = cc

  move_option-Ok :
      (offset : Offset) (entry : Option Registration) (m : Menu)
      → Picks arguments entry m.selected_option_index
      → (j : ℕ) × (move_option live registrations offset entry m
          ≡ some (record m { selected_option_index = j }))
        × Picks arguments entry j
  move_option-Ok offset none m h = elim h [ ]
  move_option-Ok offset (some r) m h = (
    shift offset m.selected_option_index (length r.options),
    rw (has_options-lt r m.selected_option_index h) refl,
    shift-lt offset m.selected_option_index (length r.options) (omega arith),
  )

  has_options-some : (os : List Choice) → (elim os [ [] ↦ false | _ ↦ true ]) ≡ true → 0 < length os
  has_options-some [] h = cc
  has_options-some (o ∷ os) h = omega arith

  open_at-Ok :
      (entry : Option Registration) (m : Menu)
      → selected_command live registrations m ≡ entry
      → Ok m
      → Ok (open_at live registrations entry m).0
  open_at-Ok none m e h = h
  open_at-Ok (some r) m e h =
      if_intro (λ (p : Menu × Bool). Ok p.0) (has_options r) _ _
        (λ o. (
          h.0,
          subst (λ (x : Option Registration). Picks arguments x 0) (sym e)
              (has_options-some r.options o),
        ))
        (λ _. h)

  pub update_draft-Ok :
      (draft : String) (m : Menu)
      → m.stage ≡ commands
      → Ok m
      → Ok (update_draft live registrations draft m)
  unfolding update_draft
  update_draft-Ok draft m e h = (
    reselect-Selects (matching_in live registrations registrations draft)
        (record m { draft = draft }),
    Picks-commands m.stage _ m.selected_option_index e,
  )

  pub move-Ok :
      (offset : Offset) (m : Menu)
      → Ok m
      → (m' : Menu) × (move_selection live registrations offset m ≡ some m') × Ok m'
  unfolding move_selection
  move-Ok offset m h = by_stage m.stage refl h.1
    where
      found : List Registration
      found = matching_commands live registrations m

      entry : Option Registration
      entry = selected_command live registrations m

      by_stage :
          (s : Stage)
          → m.stage ≡ s
          → Picks s entry m.selected_option_index
          → (m' : Menu) × ((elim s [
            | arguments ↦ move_option live registrations offset entry m
            | commands ↦ move_command live registrations offset found m
          ])
              ≡ some m')
            × Ok m'
      by_stage commands e p =
          let (x, f, q) = move_command-Selects offset found m h.0 in
          (
            record m { selected_command_name = x },
            f,
            (q, Picks-commands m.stage _ m.selected_option_index e),
          )
      by_stage arguments e p =
          let (j, f, q) = move_option-Ok offset entry m p in
          (
            record m { selected_option_index = j },
            f,
            (h.0, subst (λ (s : Stage). Picks s entry j) (sym e) q),
          )

  pub back-Ok : (m : Menu) → Ok m → Ok (back_to_commands live registrations m)
  unfolding back_to_commands
  back-Ok m h = (h.0, tt)

  pub arguments-Ok : (m : Menu) → Ok m → Ok (open_arguments live registrations m).0
  unfolding open_arguments
  arguments-Ok m h = open_at-Ok (selected_command live registrations m) m refl h

  run-Ok :
      (actions : List Action) (m : Menu)
      → IsDriven actions m
      → Ok m
      → (m' : Menu) × (run actions m ≡ some m') × Ok m'
  unfolding run
  run-Ok [] m d h = (m, refl, h)
  run-Ok (type draft ∷ later) m d h =
      run-Ok later (update_draft live registrations draft m) d.1 (update_draft-Ok draft m d.0 h)
  run-Ok (move offset ∷ later) m d h =
      let (m', e, h') = move-Ok offset m h in
      let (m'', e', h'') = run-Ok later m' (rw e at d) h' in (m'', rw e e', h'')
  run-Ok (choose_command ∷ later) m d h =
      run-Ok later (open_arguments live registrations m).0 d (arguments-Ok m h)
  run-Ok (back ∷ later) m d h = run-Ok later (back_to_commands live registrations m) d (back-Ok m h)

  pub open_menu-Ok : (draft : String) → Ok (open_menu live registrations draft)
  unfolding open_menu
  open_menu-Ok draft =
      (reselect-Selects (matching_in live registrations registrations draft) (blank draft), tt)

  -- For any registrations, live expressions and first draft, whatever sequence of drafts, moves of
  -- the selection, openings of the argument picker and returns from it is made, with no draft while
  -- the picker is open, no step raises an exception, the selection stands among the matching
  -- commands, or there are none and there is no selection, an open picker has selected an option of
  -- its command, and the view is accepted by its own checks.
  pub never_raises :
      (draft : String) (actions : List Action) (native_prefix : String)
      → IsDriven actions (open_menu live registrations draft)
      → (m : Menu) × (v : View) × (run actions (open_menu live registrations draft) ≡ some m)
        × Valid live registrations m
        × (view live registrations native_prefix m ≡ some v)
  never_raises draft actions native_prefix driven =
      let (m, e, h) =
        run-Ok actions (open_menu live registrations draft) driven (open_menu-Ok draft) in
      let (v, f) = view-accepted live registrations native_prefix m h in (m, v, e, h, f)
