-- ===== src/Projection/Examples.antt =====
-- Two participants of rodex/protocol_projection.py, one of which fails twice.
use codex_tmux_session_manag.Common.{String, ◌≡◌, refl, some, List, [], ◌∷◌}
use codex_tmux_session_manag.Common.Dict.{lookup}
use codex_tmux_session_manag.Projection.{Ending, returns, raises, run}
use codex_tmux_session_manag.Projection.Counts.{health, exceptions_of, reports_of, run-health}

abbrev observations : List (String × Ending)
observations =
    ("trace", raises "KeyError") ∷ ("steer", returns) ∷ ("trace", raises "ValueError") ∷ []

run-health_example :
    (lookup "trace" (run observations []).0 ≡ health "trace" (exceptions_of "trace" observations))
    × ((run observations []).1 ≡ reports_of observations)
run-health_example = run-health observations "trace"

health_of_trace :
    health "trace" (exceptions_of "trace" observations)
    ≡ some (record {
      participant_name = "trace";
      failure_count = 2;
      last_exception_type = "ValueError";
    })
health_of_trace = refl
