-- ===== src/Projection.antt =====
-- rodex/protocol_projection.py: the guard that runs auxiliary observers, and keeps a count of what each
-- participant raised. What an observer does is given by how it ends.
mod Counts
mod Examples
use codex_tmux_session_manag.Common.{
  ℕ, ◌+◌, String, Bool, true, false, Option, none, some, List, [], ◌∷◌,
}
use codex_tmux_session_manag.Common.Dict.{lookup, insert}

-- ProtocolProjectionFailure
pub record Failure : Type 0 where
  pub participant_name : String
  pub failure_count : ℕ
  pub last_exception_type : String

-- ProtocolProjectionGuard, by its failures
abbrev pub Guard : Type 0
Guard = List (String × Failure)

-- How an observer ends: it returns, or raises an exception of a type.
pub data Ending : Type 0 where
  returns : Ending
  raises : String → Ending

abbrev pub failed_again : String → String → Option Failure → Failure
failed_again name exception none = record {
  participant_name = name;
  failure_count = 1;
  last_exception_type = exception;
}
failed_again name exception (some previous) = record {
  participant_name = name;
  failure_count = previous.failure_count + 1;
  last_exception_type = exception;
}

-- observe
unfoldable pub observe : String → Ending → Guard → Guard × Bool
unfolding lookup insert
observe name returns guard = (guard, true)
observe name (raises exception) guard =
    (insert name (failed_again name exception (lookup name guard)) guard, false)

-- Observations, the first one first, with what each reported.
unfoldable pub run : List (String × Ending) → Guard → Guard × List Bool
unfolding observe
run [] guard = (guard, [])
run (o ∷ later) guard =
    let (after, completed) = observe o.0 o.1 guard in
    let (last, reports) = run later after in (last, completed ∷ reports)
