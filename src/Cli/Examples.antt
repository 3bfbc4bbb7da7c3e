-- ===== src/Cli/Examples.antt =====
-- The classification of codex_cli_contract/contract.py at concrete arguments.
use codex_tmux_session_manag.Common.{String, ◌≡◌, refl, Option, none, some, List, [], ◌∷◌}
use codex_tmux_session_manag.Common.Dict.{member}
use codex_tmux_session_manag.Cli.{
  Invocation, classify, conclude, explicit_resume_of, scan, round, option_by_token, starts_dash,
  starts_dashes, split_value, split_short, pass, subcommand, conflicting_options, malformed_option,
  multiple_positionals, managed_interactive, interactive, resume_selector, explicit_resume,
}
use codex_tmux_session_manag.Cli.Release.{codex_cli_0_151_0, codex_cli_0_151_0-is_accepted}
use codex_tmux_session_manag.Cli.Routed.{IsRouted, classify-IsRouted}
use codex_tmux_session_manag.Cli.Commands.{command_first-passthrough}

abbrev run : List String → Option Invocation
run arguments = classify codex_cli_0_151_0 arguments

abbrev with_prompt : List String
with_prompt = "--model" ∷ "o5" ∷ "-cx=1" ∷ "fix it" ∷ []

prompt_after_options :
    run with_prompt
    ≡ some (record {
      arguments = with_prompt;
      route = managed_interactive;
      reason = interactive;
      selector_candidate = none;
      prompt_index = some 3;
    })
unfolding classify conclude scan round option_by_token starts_dash starts_dashes split_short
    split_value
prompt_after_options = refl

images_swallow_the_prompt :
    run ("-i" ∷ "a.png" ∷ "fix it" ∷ [])
    ≡ some (record {
      arguments = "-i" ∷ "a.png" ∷ "fix it" ∷ [];
      route = managed_interactive;
      reason = interactive;
      selector_candidate = none;
      prompt_index = none;
    })
unfolding classify conclude scan round option_by_token starts_dash starts_dashes split_short
    split_value
images_swallow_the_prompt = refl

conflict :
    run ("--approve-for-me" ∷ "-sread-only" ∷ [])
    ≡ some (pass ("--approve-for-me" ∷ "-sread-only" ∷ []) conflicting_options)
unfolding classify conclude scan round option_by_token starts_dash starts_dashes split_short
    split_value
conflict = refl

empty_value : run ("--model=" ∷ []) ≡ some (pass ("--model=" ∷ []) malformed_option)
unfolding classify conclude scan round option_by_token starts_dash starts_dashes split_short
    split_value
empty_value = refl

two_words : run ("fix" ∷ "it" ∷ []) ≡ some (pass ("fix" ∷ "it" ∷ []) multiple_positionals)
unfolding classify conclude scan round option_by_token starts_dash starts_dashes split_short
    split_value
two_words = refl

resumed :
    run ("resume" ∷ "cool-name" ∷ [])
    ≡ some (record {
      arguments = "resume" ∷ "cool-name" ∷ [];
      route = resume_selector;
      reason = explicit_resume;
      selector_candidate = some "cool-name";
      prompt_index = none;
    })
unfolding classify conclude scan round option_by_token starts_dash starts_dashes split_short
    split_value
resumed = refl

classify-IsRouted_example : (i : Invocation) × (run with_prompt ≡ some i) × IsRouted with_prompt i
classify-IsRouted_example = classify-IsRouted codex_cli_0_151_0 with_prompt

command_first-passthrough_example :
    run ("exec" ∷ "--model" ∷ []) ≡ some (pass ("exec" ∷ "--model" ∷ []) subcommand)
unfolding explicit_resume_of member
command_first-passthrough_example =
    command_first-passthrough codex_cli_0_151_0 "exec" ("--model" ∷ [])
      codex_cli_0_151_0-is_accepted refl refl
