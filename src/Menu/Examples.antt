-- ===== src/Menu/Examples.antt =====
-- The menu at the configured interceptions (input_menu.py, input_interceptor_config.py).
use codex_tmux_session_manag.Common.{
  String, ◌≡◌, refl, Bool, ◌||◌, none, some, List, [], ◌∷◌, ◌==◌, string_eq,
}
use codex_tmux_session_manag.Common.Dict.{member}
use codex_tmux_session_manag.Menu.{
  Registration, Menu, View, down, up, arguments, open_menu, view, update_draft, matching_in,
  move_selection, shift, index_of, find_entry, open_arguments,
}
use codex_tmux_session_manag.Menu.Valid.{Valid}
use codex_tmux_session_manag.Menu.Steps.{Action, type, move, choose_command, run, never_raises}

abbrev rodex : Registration
rodex = record {
  name = "rodex";
  completion_text = "/rodex";
  helper_text = "issue a rodex command";
  heading = "This line here should be in the config, select argument:";
  subheading = "This 2nd line should also be configurable for the rodex...";
  options =
      record { name = "light"; helper_text = "display commentary only" }
      ∷ record { name = "dark"; helper_text = "display the normal Codex interface" }
      ∷ record { name = "dusk"; helper_text = "Dusky one" }
      ∷ [];
}

abbrev rodx : Registration
rodx = record {
  name = "rodx";
  completion_text = "/rodx";
  helper_text = "dummy test to see if we can move up and down in the rodex/rodx menu here";
  heading = "Select argument:";
  subheading = "";
  options = [];
}

abbrev live : Registration → String → Bool
live r draft = draft == "/ro" || draft == "/rod" || draft == r.completion_text

abbrev registrations : List Registration
registrations = rodex ∷ rodx ∷ []

-- The first command's picker, moved up from the first option to the last.
abbrev keys : List Action
keys = type "/rod" ∷ move (down 1) ∷ move (down 1) ∷ choose_command ∷ move (up 1) ∷ []

keys_pick_the_last :
    run live registrations keys (open_menu live registrations "/ro")
    ≡ some (record {
      draft = "/rod";
      stage = arguments;
      selected_command_name = some "rodex";
      selected_option_index = 2;
    })
unfolding run open_menu update_draft move_selection matching_in index_of member shift open_arguments
    find_entry
keys_pick_the_last = refl

-- A draft in an open picker, which the interceptor never gives: the menu has no view then.
draft_in_picker :
    view live registrations "" (
      update_draft live registrations "none"
        (open_arguments live registrations (open_menu live registrations "/ro")).0)
    ≡ none
unfolding open_menu update_draft matching_in member find_entry open_arguments view
draft_in_picker = refl

never_raises_example :
    (m : Menu) × (v : View) × (run live registrations keys (open_menu live registrations "/ro")
      ≡ some m)
    × Valid live registrations m
    × (view live registrations "" m ≡ some v)
unfolding open_menu update_draft move_selection matching_in index_of member shift open_arguments
    find_entry
never_raises_example = never_raises live registrations "/ro" keys "" (refl, tt)
