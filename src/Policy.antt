-- ===== src/Policy.antt =====
-- rodex/command_policy.py: the decisions on a proposed shell command. A command is the list of its code
-- points; what the policy on find and rg says of it (evaluate_find_rg_source) is an argument.
mod Sleep
mod Examples
use Prim.Native.Char.{code}
use Prim.Native.String
use codex_tmux_session_manag.Common.{
  String, ℕ, zero, suc, ◌+◌, ◌-◌, Bool, true, false, not, ◌&&◌, ◌||◌, Option, none, some, List, [],
  ◌∷◌, ◌++◌, ◌==◌, nat_eq, if◌then◌else◌, length, ltb, leb, take,
}

abbrev pub Chars : Type 0
Chars = List ℕ

abbrev pub policy_text_limit : ℕ
policy_text_limit = 8192

-- "10", which is MINIMUM_INTEGER_SLEEP_SECONDS
abbrev pub minimum_seconds : Chars
minimum_seconds = 49 ∷ 48 ∷ []

abbrev pub sleep_word : Chars
sleep_word = 115 ∷ 108 ∷ 101 ∷ 101 ∷ 112 ∷ []

-- the code points of a text
abbrev pub codes : String → Chars
codes String.[] = []
codes (String.◌∷◌ c s) = code c ∷ codes s

abbrev pub short_sleep_denial_reason : Chars
short_sleep_denial_reason = codes "Re-try your sleep command with 10 seconds."

pub data Action : Type 0 where
  allows denies rewrites : Action

-- CommandPolicyDecision
pub record Decision : Type 0 where
  pub action : Action
  pub reason : Option Chars
  pub command : Option Chars

abbrev pub allow : Decision
allow = record { action = allows; reason = none; command = none }

abbrev pub deny : Chars → Decision
deny reason = record { action = denies; reason = some reason; command = none }

abbrev pub deny_sleep : Decision
deny_sleep = deny short_sleep_denial_reason

abbrev pub is_blank : ℕ → Bool
is_blank c = c == 32 || c == 9

abbrev pub is_digit : ℕ → Bool
is_digit c = leb 48 c && leb c 57

-- [ \t]*
unfoldable pub skip_blanks : Chars → Chars
skip_blanks [] = []
skip_blanks (c ∷ cs) = let rest = skip_blanks cs in if is_blank c then rest else c ∷ cs

-- [ \t]+
abbrev pub skip_some : Chars → Option Chars
skip_some [] = none
skip_some (c ∷ cs) = if is_blank c then some (skip_blanks cs) else none

unfoldable pub strip_word : Chars → Chars → Option Chars
strip_word [] cs = some cs
strip_word (w ∷ ws) [] = none
strip_word (w ∷ ws) (c ∷ cs) = let rest = strip_word ws cs in if w == c then rest else none

-- [0-9]*, and what follows
unfoldable pub digits_of : Chars → Chars × Chars
digits_of [] = ([], [])
digits_of (c ∷ cs) =
    let (digits, rest) = digits_of cs in if is_digit c then (c ∷ digits, rest) else ([], c ∷ cs)

abbrev skip_semicolon : Chars → Chars
skip_semicolon [] = []
skip_semicolon (c ∷ cs) = if c == 59 then cs else c ∷ cs

abbrev is_empty : Chars → Bool
is_empty [] = true
is_empty _ = false

-- [ \t]*;?[ \t]* to the end
abbrev pub ends_there : Chars → Bool
ends_there cs = is_empty (skip_blanks (skip_semicolon (skip_blanks cs)))

abbrev pub with_digits : Chars × Chars → Option Chars
with_digits ([], rest) = none
with_digits (d ∷ ds, rest) = if ends_there rest then some (d ∷ ds) else none

abbrev pub after_blanks : Option Chars → Option Chars
after_blanks none = none
after_blanks (some cs) = with_digits (digits_of cs)

abbrev pub after_word : Option Chars → Option Chars
after_word none = none
after_word (some cs) = after_blanks (skip_some cs)

-- _INTEGER_SLEEP_COMMAND.fullmatch, by its group of seconds: no class of its characters meets the next,
-- so the match needs no second try
unfoldable pub seconds_of : Chars → Option Chars
unfolding skip_blanks strip_word digits_of
seconds_of command = after_word (strip_word sleep_word (skip_blanks command))

-- .lstrip("0")
unfoldable pub strip_zeros : Chars → Chars
strip_zeros [] = []
strip_zeros (c ∷ cs) = let rest = strip_zeros cs in if c == 48 then rest else c ∷ cs

abbrev pub or_zero : Chars → Chars
or_zero [] = 48 ∷ []
or_zero cs = cs

-- the order of texts
unfoldable pub text_less : Chars → Chars → Bool
text_less [] [] = false
text_less [] (d ∷ ds) = true
text_less (c ∷ cs) [] = false
text_less (c ∷ cs) (d ∷ ds) = ltb c d || (c == d && text_less cs ds)

unfoldable pub below_minimum : Chars → Bool
unfolding strip_zeros text_less
below_minimum seconds =
    let significant = or_zero (strip_zeros seconds) in
    ltb (length significant) (length minimum_seconds)
    || (length significant == length minimum_seconds && text_less significant minimum_seconds)

abbrev pub short_sleep : Option Chars → Option Decision
short_sleep none = none
short_sleep (some seconds) = if below_minimum seconds then some deny_sleep else none

-- _evaluate_short_sleep_policy
unfoldable pub evaluate_short_sleep : Chars → Option Decision
unfolding seconds_of below_minimum
evaluate_short_sleep command = short_sleep (seconds_of command)

-- _bounded_policy_reason
unfoldable pub bounded_reason : Chars → Chars
bounded_reason reason =
    if leb (length reason) policy_text_limit
    then reason
    else take (policy_text_limit - 3) reason ++ (46 ∷ 46 ∷ 46 ∷ [])

unfoldable pub has_zero : Chars → Bool
has_zero [] = false
has_zero (c ∷ cs) = c == 0 || has_zero cs

-- _text, of a reason
abbrev pub reason_ok : Chars → Bool
reason_ok reason =
    not (is_empty reason) && leb (length reason) policy_text_limit && not (has_zero reason)

-- What a policy says: nothing, a decision, or the ValueError of a decision that is not valid.
pub data Verdict : Type 0 where
  passes fails : Verdict
  decides : Decision → Verdict

-- _evaluate_find_rg_policy, on the message of a rejection, if there is one
abbrev pub find_rg_verdict : Option Chars → Verdict
find_rg_verdict none = passes
find_rg_verdict (some message) =
    if reason_ok (bounded_reason message) then decides (deny (bounded_reason message)) else fails

abbrev pub or_allow : Option Decision → Decision
or_allow (some decision) = decision
or_allow none = allow

abbrev pub first_of : Verdict → Option Decision → Option Decision
first_of passes later = some (or_allow later)
first_of fails later = none
first_of (decides decision) later = some decision

-- evaluate_command_policy; none is the ValueError
unfoldable pub evaluate_command : (Chars → Option Chars) → Chars → Option Decision
unfolding evaluate_short_sleep bounded_reason has_zero
evaluate_command find_rg command =
    first_of (find_rg_verdict (find_rg command)) (evaluate_short_sleep command)
