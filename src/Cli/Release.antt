-- ===== src/Cli/Release.antt =====
-- codex_cli_contract/v0_151_0.py: the commands and the options of one release of the native CLI.
use codex_tmux_session_manag.Common.{String, ◌≡◌, refl, Bool, true, false, List, [], ◌∷◌}
use codex_tmux_session_manag.Cli.{
  Contract, OptionSpec, Arity, no_value, one, one_or_more, is_accepted, index_options, starts_dash,
  commands_ok,
}

abbrev pub codex_cli_0_151_0_command_tokens : List String
codex_cli_0_151_0_command_tokens =
    "a" ∷ "agents" ∷ "app-server" ∷ "apply" ∷ "archive" ∷ "cloud" ∷ "completion" ∷ "debug"
    ∷ "delete" ∷ "doctor" ∷ "e" ∷ "exec" ∷ "exec-server" ∷ "features" ∷ "fork" ∷ "help" ∷ "login"
    ∷ "logout" ∷ "mcp" ∷ "mcp-server" ∷ "migrate-rollouts" ∷ "plugin" ∷ "queue" ∷ "remote-control"
    ∷ "resume" ∷ "review" ∷ "sandbox" ∷ "unarchive" ∷ "update" ∷ []

abbrev option : String → List String → Arity → Bool → OptionSpec
option name tokens value_arity managed = record {
  name = name;
  tokens = tokens;
  value_arity = value_arity;
  managed = managed;
}

abbrev pub codex_cli_0_151_0_option_specs : List OptionSpec
codex_cli_0_151_0_option_specs =
    option "config" ("-c" ∷ "--config" ∷ []) one true
    ∷ option "enable" ("--enable" ∷ []) one true
    ∷ option "disable" ("--disable" ∷ []) one true
    ∷ option "remote" ("--remote" ∷ []) one false
    ∷ option "remote-auth-token-env" ("--remote-auth-token-env" ∷ []) one false
    ∷ option "strict-config" ("--strict-config" ∷ []) no_value true
    ∷ option "image" ("-i" ∷ "--image" ∷ []) one_or_more true
    ∷ option "model" ("-m" ∷ "--model" ∷ []) one true
    ∷ option "oss" ("--oss" ∷ []) no_value true
    ∷ option "local-provider" ("--local-provider" ∷ []) one true
    ∷ option "profile" ("-p" ∷ "--profile" ∷ []) one true
    ∷ option "sandbox" ("-s" ∷ "--sandbox" ∷ []) one true
    ∷ option "approve-for-me" ("--approve-for-me" ∷ []) no_value true
    ∷ option "dangerously-bypass-approvals-and-sandbox"
        ("--dangerously-bypass-approvals-and-sandbox" ∷ []) no_value true
    ∷ option "dangerously-bypass-hook-trust" ("--dangerously-bypass-hook-trust" ∷ []) no_value true
    ∷ option "cd" ("-C" ∷ "--cd" ∷ []) one true
    ∷ option "add-dir" ("--add-dir" ∷ []) one true
    ∷ option "ask-for-approval" ("-a" ∷ "--ask-for-approval" ∷ []) one true
    ∷ option "search" ("--search" ∷ []) no_value true
    ∷ option "no-alt-screen" ("--no-alt-screen" ∷ []) no_value true
    ∷ option "help" ("-h" ∷ "--help" ∷ []) no_value false
    ∷ option "version" ("-V" ∷ "--version" ∷ []) no_value false
    ∷ []

abbrev pub codex_cli_0_151_0 : Contract
codex_cli_0_151_0 = record {
  command_tokens = codex_cli_0_151_0_command_tokens;
  option_specs = codex_cli_0_151_0_option_specs;
}

-- The constructor accepts the release's tables.
pub codex_cli_0_151_0-is_accepted : is_accepted codex_cli_0_151_0 ≡ true
unfolding is_accepted index_options starts_dash commands_ok
codex_cli_0_151_0-is_accepted = refl
