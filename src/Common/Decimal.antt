-- ===== src/Common/Decimal.antt =====
-- str(n) of Python, for the numbers that identities are spelled with.
use codex_tmux_session_manag.Common.Tests.{◌==◌, nat_eq, ltb, concat, if◌then◌else◌}
use Prim.Native.Nat.{ℕ, zero, suc, ◌/◌, ◌%◌}
use Prim.Native.String.{String}

abbrev digit : ℕ → String
digit d =
    if d == 0
    then "0"
    else if d == 1
    then "1"
    else if d == 2
    then "2"
    else if d == 3
    then "3"
    else if d == 4
    then "4"
    else if d == 5
    then "5"
    else if d == 6
    then "6"
    else if d == 7
    then "7"
    else if d == 8
    then "8"
    else "9"

-- on as many rounds as the number says, which its digits do not exceed
decimal_on : ℕ → ℕ → String
decimal_on zero n = digit n
decimal_on (suc rounds) n =
    let rest = decimal_on rounds (n / 10) in
    if ltb n 10 then digit n else concat rest (digit (n % 10))

unfoldable pub decimal : ℕ → String
unfolding decimal_on
decimal n = decimal_on n n
