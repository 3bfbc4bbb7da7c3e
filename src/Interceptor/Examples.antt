-- ===== src/Interceptor/Examples.antt =====
-- Keys typed into the interceptor of rodex/terminal_input.py.
use codex_tmux_session_manag.Common.{
  ℕ, String, ◌≡◌, refl, Bool, true, false, Option, none, some, List, [], ◌∷◌, ◌==◌, string_eq, ◌||◌,
}
use codex_tmux_session_manag.Menu.{
  Registration, View, open_menu, find_entry, matching_in, checked_view, rows_of, index_of,
}
use codex_tmux_session_manag.Common.Dict.{member}
use codex_tmux_session_manag.Menu.Steps.{open_menu-Ok}
use codex_tmux_session_manag.Interceptor.{
  Input, text, control, Session, new_session, Effect, shows, deletes, input_release, append,
  utf8_length, count_chars,
}
use codex_tmux_session_manag.Interceptor.Accepting.{accept, run}
use codex_tmux_session_manag.Interceptor.Guarded.{Sound}
use codex_tmux_session_manag.Interceptor.Runs.{run-Sound}
use codex_tmux_session_manag.Interceptor.Exits.{ctrl_c, ctrl_c-leaves}

abbrev rodex : Registration
rodex = record {
  name = "rodex";
  completion_text = "/rodex";
  helper_text = "issue";
  heading = "";
  subheading = "";
  options = [];
}

abbrev live : Registration → String → Bool
live r draft = draft == "/r" || draft == "/rodex"

abbrev on_enter : Registration → String → Bool
on_enter r draft = draft == "/rodex go"

abbrev always : List Effect → Effect → Bool
always log e = true

abbrev typing : String → Input
typing words = record { kind = text; raw = 1 ∷ []; text = words }

abbrev enter : Input
enter = record { kind = control; raw = 13 ∷ []; text = "" }

abbrev keys : List Input
keys = typing "/" ∷ typing "r" ∷ typing "odex go" ∷ enter ∷ []

abbrev log_of : Option Session → List Effect
log_of none = []
log_of (some s) = s.log

abbrev holding : Session
holding = record new_session {
  menu = some (open_menu live (rodex ∷ []) "/r");
  forwarded_prefix = "/";
}

run-Sound_example :
    (s : Session) × (run live on_enter (rodex ∷ []) always keys new_session ≡ some s)
    × Sound live on_enter (rodex ∷ []) always s
run-Sound_example = run-Sound live on_enter (rodex ∷ []) always keys

ctrl_c-leaves_example :
    (v : View) × (accept live on_enter (rodex ∷ []) always ctrl_c holding
      ≡ some (record {
        candidate = "/";
        menu = none;
        forwarded_prefix = "";
        discard_paired_lf = false;
        log = shows input_release v ∷ [];
      }))
ctrl_c-leaves_example =
    ctrl_c-leaves live on_enter (rodex ∷ []) always holding (open_menu live (rodex ∷ []) "/r") refl
      (open_menu-Ok live (rodex ∷ []) "/r")

abbrev deletions : List Effect → List ℕ
deletions [] = []
deletions (deletes n ∷ es) = n ∷ deletions es
deletions (e ∷ es) = deletions es

-- The prefix in the composer is deleted once the command has been taken.
run_deletes : deletions (log_of (run live on_enter (rodex ∷ []) always keys new_session)) ≡ 1 ∷ []
unfolding run open_menu matching_in append utf8_length find_entry checked_view rows_of index_of
    member count_chars
run_deletes = refl
