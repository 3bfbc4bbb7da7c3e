-- ===== src/Connection.antt =====
-- rodex/primary_connection_lifecycle.py: the reset of every participant when the primary connection
-- is lost. A participant's reset acts on a state that the participants share, and may raise.
mod Resets
mod Examples
use codex_tmux_session_manag.Common.{ℕ, ◌+◌, String, Option, none, some, List, [], ◌∷◌}

pub record Failure : Type 0 where
  pub participant_name : String
  pub error : String

pub record Participant {ℓ} (World : Type ℓ) : Type ℓ where
  pub name : String
  pub reset : World → World × Option String

module _ {ℓ} {World : Type ℓ} where
  abbrev pub note : Participant World → Option String → List Failure → List Failure
  note p none failures = failures
  note p (some error) failures = record { participant_name = p.name; error = error } ∷ failures

  -- the loop of reset_after_disconnect
  unfoldable pub reset_all : List (Participant World) → World → World × List Failure
  reset_all [] world = (world, [])
  reset_all (p ∷ ps) world =
      let done = p.reset world in let rest = reset_all ps done.0 in (rest.0, note p done.1 rest.1)

  -- reset_after_disconnect, with the epoch before and after
  unfoldable pub reset_after_disconnect :
      List (Participant World) → ℕ → World → ℕ × World × List Failure
  reset_after_disconnect ps epoch world =
      let done = reset_all ps world in (epoch + 1, done.0, done.1)
