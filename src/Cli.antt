-- ===== src/Cli.antt =====
-- codex_cli_contract/contract.py: whether an invocation of the native CLI belongs inside managed
-- Rodex. A token is a text; its first characters are read from its own constructors.
mod Routed
mod Release
mod Commands
mod Total
mod Examples
use Prim.Native.Char.{Char, code}
use codex_tmux_session_manag.Common.{
  ℕ, zero, suc, ◌+◌, String, Bool, true, false, not, ◌&&◌, ◌||◌, Option, none, some, List, [], ◌∷◌,
  ◌++◌, ltb, ◌==◌, nat_eq, string_eq, is_none, is_some, if◌then◌else◌, length,
}
use codex_tmux_session_manag.Common.Dict.{member, add}

pub data Route : Type 0 where
  managed_interactive resume_selector passthrough : Route

pub data Reason : Type 0 where
  interactive explicit_resume subcommand direct_option unknown_option malformed_option
        conflicting_options multiple_positionals :
      Reason

pub data Arity : Type 0 where
  no_value one one_or_more : Arity

pub record OptionSpec : Type 0 where
  pub name : String
  pub tokens : List String
  pub value_arity : Arity
  pub managed : Bool

pub record Invocation : Type 0 where
  pub arguments : List String
  pub route : Route
  pub reason : Reason
  pub selector_candidate : Option String
  pub prompt_index : Option ℕ

pub record Contract : Type 0 where
  pub command_tokens : List String
  pub option_specs : List OptionSpec

-- token.startswith("-")
unfoldable pub starts_dash : String → Bool
starts_dash String.[] = false
starts_dash (String.◌∷◌ c s) = code c == b'-'

-- token.startswith("--")
unfoldable pub starts_dashes : String → Bool
unfolding starts_dash
starts_dashes String.[] = false
starts_dashes (String.◌∷◌ c s) = code c == b'-' && starts_dash s

abbrev cons_name : Char → Option (String × String) → Option (String × String)
cons_name c none = none
cons_name c (some (name, value)) = some (String.◌∷◌ c name, value)

-- token.split("=", 1), where there is a "="
unfoldable pub split_value : String → Option (String × String)
split_value String.[] = none
split_value (String.◌∷◌ c s) =
    let rest = split_value s in if code c == b'=' then some (String.[], s) else cons_name c rest

-- (token[:2], token[2:]) of a token of more than two characters
unfoldable pub split_short : String → Option (String × String)
split_short (String.◌∷◌ a (String.◌∷◌ b (String.◌∷◌ c s))) =
    some (String.◌∷◌ a (String.◌∷◌ b String.[]), String.◌∷◌ c s)
split_short _ = none

-- self._options_by_token.get(token): the tokens of a contract are distinct
unfoldable pub option_by_token : String → List OptionSpec → Option OptionSpec
unfolding member
option_by_token token [] = none
option_by_token token (spec ∷ specs) =
    if member token spec.tokens then some spec else option_by_token token specs

-- `options_by_token` of __post_init__, as the list of its keys; `none` is a ValueError
unfoldable pub add_tokens : List String → List String → Option (List String)
unfolding member
add_tokens [] seen = some seen
add_tokens (t ∷ ts) seen =
    let rest = add_tokens ts (t ∷ seen) in
    if not (starts_dash t) || member t seen then none else rest

abbrev chain {ℓ κ} : {A : Type ℓ} {B : Type κ} → Option A → (A → Option B) → Option B
chain none f = none
chain (some a) f = f a

abbrev pub is_nil : List String → Bool
is_nil [] = true
is_nil _ = false

unfoldable pub index_options : List OptionSpec → List String → Option (List String)
unfolding add_tokens
index_options [] seen = some seen
index_options (spec ∷ specs) seen =
    if is_nil spec.tokens
    then none
    else chain (add_tokens spec.tokens seen) (λ seen'. index_options specs seen')

unfoldable pub commands_ok : List String → Bool
commands_ok [] = true
commands_ok (c ∷ cs) = not (c == "") && not (starts_dash c) && commands_ok cs

-- __post_init__: whether the contract is accepted
unfoldable pub is_accepted : Contract → Bool
is_accepted contract =
    is_some (index_options contract.option_specs []) && commands_ok contract.command_tokens

abbrev pub Match : Type 0
Match = OptionSpec × Option String

abbrev inline_match : Option OptionSpec → String → Option Match
inline_match none value = none
inline_match (some spec) value = some (spec, some value)

abbrev takes_value : Arity → Bool
takes_value no_value = false
takes_value _ = true

abbrev short_match : Option OptionSpec → String → Option Match
short_match none value = none
short_match (some spec) value =
    if takes_value spec.value_arity then some (spec, some value) else none

abbrev long_option : List OptionSpec → Option (String × String) → Option Match
long_option specs none = none
long_option specs (some (name, value)) = inline_match (option_by_token name specs) value

abbrev short_option : List OptionSpec → Option (String × String) → Option Match
short_option specs none = none
short_option specs (some (name, value)) = short_match (option_by_token name specs) value

abbrev by_form : List OptionSpec → String → Option Match
by_form specs token =
    if starts_dashes token && is_some (split_value token)
    then long_option specs (split_value token)
    else if starts_dash token && not (starts_dashes token)
    then short_option specs (split_short token)
    else none

abbrev exact_or : Option OptionSpec → Option Match → Option Match
exact_or none other = other
exact_or (some spec) other = some (spec, none)

-- _match_option
unfoldable pub match_option : List OptionSpec → String → Option Match
match_option specs token = exact_or (option_by_token token specs) (by_form specs token)

-- What the loop has collected, the positionals with their places in the arguments.
pub record Collected : Type 0 where
  pub positionals : List (ℕ × String)
  pub seen_options : List String

abbrev pub nothing : Collected
nothing = record { positionals = []; seen_options = [] }

abbrev pub place : ℕ → String → Collected → Collected
place index token acc = record acc { positionals = acc.positionals ++ (index, token) ∷ [] }

-- positionals.extend(arguments[index + 1:]), with their indices
unfoldable pub place_all : ℕ → List String → Collected → Collected
place_all index [] acc = acc
place_all index (token ∷ rest) acc = place_all (index + 1) rest (place index token acc)

-- What one round of the loop does: it returns, breaks, or goes on at an index with what follows.
pub data Action : Type 0 where
  reject : Reason → Action
  break : Collected → Action
  go_on : ℕ → List String → Collected → Action

-- the inner loop: how many values are taken, and what follows them
unfoldable pub take_values : List String → ℕ → ℕ × List String
take_values [] n = (n, [])
take_values (value ∷ rest) n =
    let more = take_values rest (n + 1) in
    if value == "--" || starts_dash value then (n, value ∷ rest) else more

abbrev flag : Option String → ℕ → List String → Collected → Action
flag none index rest acc = go_on (index + 1) rest acc
flag (some _) index rest acc = reject malformed_option

abbrev separate_value : ℕ → List String → Collected → Action
separate_value index [] acc = reject malformed_option
separate_value index (value ∷ rest) acc =
    if starts_dash value then reject malformed_option else go_on (index + 2) rest acc

abbrev one_value : Option String → ℕ → List String → Collected → Action
one_value none index rest acc = separate_value index rest acc
one_value (some value) index rest acc =
    if value == "" then reject malformed_option else go_on (index + 1) rest acc

abbrev after_values : ℕ → ℕ → ℕ × List String → Collected → Action
after_values inline index (taken, rest) acc =
    if inline + taken == 0 then reject malformed_option else go_on (index + 1 + taken) rest acc

abbrev many_values : Option String → ℕ → List String → Collected → Action
many_values none index rest acc = after_values 0 index (take_values rest 0) acc
many_values (some value) index rest acc =
    if value == "" then reject malformed_option else after_values 1 index (take_values rest 0) acc

abbrev by_arity : Arity → Option String → ℕ → List String → Collected → Action
by_arity no_value value index rest acc = flag value index rest acc
by_arity one value index rest acc = one_value value index rest acc
by_arity one_or_more value index rest acc = many_values value index rest acc

abbrev option_action : Match → ℕ → List String → Collected → Action
option_action (spec, value) index rest acc =
    if spec.managed
    then by_arity spec.value_arity value index rest
        (record acc { seen_options = add spec.name acc.seen_options })
    else reject direct_option

abbrev is_first : Collected → Bool
is_first acc = elim acc.positionals [ [] ↦ true | _ ↦ false ]

abbrev word_action : Contract → ℕ → String → List String → Collected → Action
word_action contract index token rest acc =
    if starts_dash token
    then reject unknown_option
    else if is_first acc && member token contract.command_tokens
    then reject subcommand
    else go_on (index + 1) rest (place index token acc)

abbrev token_action : Contract → Option Match → ℕ → String → List String → Collected → Action
token_action contract none index token rest acc = word_action contract index token rest acc
token_action contract (some m) index token rest acc = option_action m index rest acc

-- one round of the `while` of classify
unfoldable pub round : Contract → ℕ → String → List String → Collected → Action
unfolding place_all take_values add match_option
round contract index token rest acc =
    if token == "--"
    then break (place_all (index + 1) rest acc)
    else token_action contract (match_option contract.option_specs token) index token rest acc

pub data Scanned : Type 0 where
  rejected : Reason → Scanned
  collected : Collected → Scanned

-- The loop on fuel; `none` means that the fuel ran out.
unfoldable pub scan : Contract → ℕ → ℕ → List String → Collected → Option Scanned
scan contract fuel index [] acc = some (collected acc)
scan contract zero index (token ∷ rest) acc = none
scan contract (suc fuel) index (token ∷ rest) acc = elim (round contract index token rest acc) [
  | reject reason ↦ some (rejected reason)
  | break acc' ↦ some (collected acc')
  | go_on index' rest' acc' ↦ scan contract fuel index' rest' acc'
]

-- _managed_option_conflict
unfoldable pub managed_option_conflict : List String → Bool
unfolding member
managed_option_conflict seen =
    let manual = member "ask-for-approval" seen || member "sandbox" seen in
    let bypass = member "dangerously-bypass-approvals-and-sandbox" seen in
    (member "approve-for-me" seen && (manual || bypass)) || (bypass && manual)

-- _passthrough
abbrev pub pass : List String → Reason → Invocation
pass arguments reason = record {
  arguments = arguments;
  route = passthrough;
  reason = reason;
  selector_candidate = none;
  prompt_index = none;
}

-- the only argument, if it is the positional
abbrev candidate : List String → List (ℕ × String) → Option String
candidate (argument ∷ []) ((index, token) ∷ []) = if token == argument then some token else none
candidate _ _ = none

abbrev managed : List String → Option String → Option ℕ → Invocation
managed arguments selector prompt = record {
  arguments = arguments;
  route = managed_interactive;
  reason = interactive;
  selector_candidate = selector;
  prompt_index = prompt;
}

abbrev by_positionals : List String → List (ℕ × String) → Invocation
by_positionals arguments [] = managed arguments none none
by_positionals arguments ((index, token) ∷ []) =
    managed arguments (candidate arguments ((index, token) ∷ [])) (some index)
by_positionals arguments _ = pass arguments multiple_positionals

unfoldable pub conclude : List String → Scanned → Invocation
unfolding managed_option_conflict
conclude arguments (rejected reason) = pass arguments reason
conclude arguments (collected acc) =
    if managed_option_conflict acc.seen_options
    then pass arguments conflicting_options
    else by_positionals arguments acc.positionals

abbrev conclude? : List String → Option Scanned → Option Invocation
conclude? arguments none = none
conclude? arguments (some s) = some (conclude arguments s)

-- `resume ID`, exactly
unfoldable pub explicit_resume_of : List String → Option String
explicit_resume_of (verb ∷ id ∷ []) =
    if verb == "resume" && not (id == "") && not (starts_dash id) then some id else none
explicit_resume_of _ = none

abbrev resume_invocation : List String → String → Invocation
resume_invocation arguments id = record {
  arguments = arguments;
  route = resume_selector;
  reason = explicit_resume;
  selector_candidate = some id;
  prompt_index = none;
}

-- classify, with as many rounds as there are arguments
unfoldable pub classify : Contract → List String → Option Invocation
unfolding conclude explicit_resume_of
classify contract arguments = elim (explicit_resume_of arguments) [
  | some id ↦ some (resume_invocation arguments id)
  | none ↦ conclude? arguments (scan contract (length arguments) 0 arguments nothing)
]
