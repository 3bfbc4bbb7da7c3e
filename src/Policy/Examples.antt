-- ===== src/Policy/Examples.antt =====
-- Sleep commands under the policy of rodex/command_policy.py.
use codex_tmux_session_manag.Common.{
  ◌≡◌, refl, true, Option, none, some, [], ◌∷◌, if◌then◌else◌, ltb,
}
use codex_tmux_session_manag.Policy.{Chars, allow, deny_sleep, evaluate_command}
use codex_tmux_session_manag.Policy.Sleep.{sleep_command, value_from, evaluate_command-sleep}

abbrev silent : Chars → Option Chars
silent command = none

-- "sleep  007 ;"
abbrev seven : Chars
seven = sleep_command [] 32 (32 ∷ []) 48 (48 ∷ 55 ∷ []) (32 ∷ []) true []

evaluate_command-sleep_example :
    evaluate_command silent seven
    ≡ some (if ltb (value_from 0 (48 ∷ 48 ∷ 55 ∷ [])) 10 then deny_sleep else allow)
evaluate_command-sleep_example =
    evaluate_command-sleep [] (32 ∷ []) (32 ∷ []) [] 32 48 (48 ∷ 55 ∷ []) true tt refl (refl, tt)
      (refl, (refl, (refl, tt))) (refl, tt) tt silent refl

-- "sleep 5 && true" is no standalone sleep.
run_chain :
    evaluate_command silent (115 ∷ 108 ∷ 101 ∷ 101 ∷ 112 ∷ 32 ∷ 53 ∷ 32 ∷ 38 ∷ 38 ∷ []) ≡ some allow
unfolding evaluate_command
run_chain = refl
