-- ===== src/Cli/Commands.antt =====
-- How the classification of codex_cli_contract/contract.py leaves a subcommand to the native CLI.
use codex_tmux_session_manag.Common.{
  String, ◌≡◌, refl, sym, true, false, not, ◌||◌, none, some, List, [], ◌∷◌, arith, Bool-cases,
  Option-cases, inl, inr, ◌==◌, string_eq, eq_iff,
}
use codex_tmux_session_manag.Common.Dict.{member}
use codex_tmux_session_manag.Cli.{
  Contract, OptionSpec, classify, scan, round, conclude, explicit_resume_of, match_option,
  option_by_token, starts_dash, starts_dashes, add_tokens, index_options, is_accepted, commands_ok,
  is_nil, pass, subcommand, nothing, reject,
}

starts_dashes-starts_dash :
    (token : String) → starts_dash token ≡ false → starts_dashes token ≡ false
unfolding starts_dash starts_dashes
starts_dashes-starts_dash String.[] h = refl
starts_dashes-starts_dash (String.◌∷◌ c s) h = ground arith

not_dashes : (token : String) → starts_dash token ≡ false → (token == "--") ≡ false
unfolding starts_dash
not_dashes token word = elim (Bool-cases (token == "--")) [
  | inl e ↦
      let same : token ≡ "--" = (eq_iff token "--").0 e in
      let dash : true ≡ false = (rw same at word) in cc
  | inr e ↦ e
]

module _ (token : String) (word : starts_dash token ≡ false) where
  not_added :
      (ts seen seen' : List String) → add_tokens ts seen ≡ some seen' → member token ts ≡ false
  unfolding add_tokens member
  not_added [] seen seen' e = refl
  not_added (t ∷ ts) seen seen' e = elim (Bool-cases (not (starts_dash t) || member t seen)) [
    | inl refused ↦ let e' : none ≡ some seen' = (rw refused at e) in cc
    | inr taken ↦
        let e' : add_tokens ts (t ∷ seen) ≡ some seen' = (rw taken at e) in
        let ih = not_added ts (t ∷ seen) seen' e' in
        let dash : starts_dash t ≡ true = ground arith in
        let differ : (t == token) ≡ false = ground (arith, eq_iff t token) in rw (differ, ih) refl
  ]

  no_option :
      (specs : List OptionSpec) (seen keys : List String)
      → index_options specs seen ≡ some keys
      → option_by_token token specs ≡ none
  unfolding index_options option_by_token
  no_option [] seen keys e = refl
  no_option (spec ∷ specs) seen keys e = elim (Bool-cases (is_nil spec.tokens)) [
    | inl empty ↦ let e' : none ≡ some keys = (rw empty at e) in cc
    | inr listed ↦ elim (Option-cases (add_tokens spec.tokens seen)) [
      | inl refused ↦ let e' : none ≡ some keys = (rw (listed, refused) at e) in cc
      | inr (seen', taken) ↦
          let e' : index_options specs seen' ≡ some keys = (rw (listed, taken) at e) in
          rw (not_added spec.tokens seen seen' taken) (no_option specs seen' keys e')
    ]
  ]

  no_match :
      (specs : List OptionSpec)
      → option_by_token token specs ≡ none
      → match_option specs token ≡ none
  unfolding match_option
  no_match specs e = rw (e, starts_dashes-starts_dash token word, word) refl

command-word :
    (command : String) (commands : List String)
    → commands_ok commands ≡ true
    → member command commands ≡ true
    → starts_dash command ≡ false
unfolding commands_ok member
command-word command [] ok known = ground arith
command-word command (c ∷ cs) ok known = elim (Bool-cases (c == command)) [
  | inl e ↦ ground (arith, eq_iff c command)
  | inr e ↦ command-word command cs (ground arith) (ground arith)
]

round_command :
    (contract : Contract) (command : String) (rest : List String)
    → starts_dash command ≡ false
    → match_option contract.option_specs command ≡ none
    → member command contract.command_tokens ≡ true
    → round contract 0 command rest nothing ≡ reject subcommand
unfolding round
round_command contract command rest word plain known =
    let differ : (command == "--") ≡ false = not_dashes command word in
    rw (differ, plain, word, known) refl

-- For a contract that the constructor accepts, arguments that begin with one of its commands, and
-- are not exactly the resume of an identifier, are passed through as a subcommand, whatever
-- follows the command.
pub command_first-passthrough :
    (contract : Contract) (command : String) (rest : List String)
    → is_accepted contract ≡ true
    → member command contract.command_tokens ≡ true
    → explicit_resume_of (command ∷ rest) ≡ none
    → classify contract (command ∷ rest) ≡ some (pass (command ∷ rest) subcommand)
unfolding classify scan is_accepted conclude
command_first-passthrough contract command rest accepted known other =
    elim (Option-cases (index_options contract.option_specs [])) [
      | inl e ↦ absurd (ground (arith, sym e))
      | inr (keys, e) ↦
          let word = command-word command contract.command_tokens (ground arith) known in
          let plain =
            no_match command word contract.option_specs
              (no_option command word contract.option_specs [] keys e) in
          rw (classify, other, scan, round_command contract command rest word plain known) refl
    ]
