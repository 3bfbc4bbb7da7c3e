-- ===== src/Connection/Examples.antt =====
-- A disconnect at which one of two participants raises (primary_connection_lifecycle.py).
use codex_tmux_session_manag.Common.{ℕ, ◌+◌, ◌≡◌, none, some, [], ◌∷◌}
use codex_tmux_session_manag.Connection.{Participant, reset_after_disconnect, reset_all}
use codex_tmux_session_manag.Connection.Resets.{resets_everyone}

abbrev failing : Participant ℕ
failing = record { name = "first"; reset = λ n. (n + 1, some "broken") }

abbrev working : Participant ℕ
working = record { name = "second"; reset = λ n. (n + 10, none) }

resets_everyone_example :
    let all = reset_after_disconnect (working ∷ failing ∷ working ∷ []) 4 0 in
    (all.0 ≡ 4 + 1)
    × (all.1 ≡ 21)
    × (all.2 ≡ record { participant_name = "first"; error = "broken" } ∷ [])
unfolding reset_after_disconnect reset_all
resets_everyone_example = resets_everyone (working ∷ []) failing (working ∷ []) 4 0
