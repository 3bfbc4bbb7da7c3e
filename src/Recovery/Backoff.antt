-- ===== src/Recovery/Backoff.antt =====
-- _recovery_delay_seconds of server_overloaded_recovery.py, and its closed form.
use native.Mathlib.Nat.{pow-le-pow_right}
use codex_tmux_session_manag.Common.{
  ℕ, zero, suc, ◌-◌, ◌*◌, ◌/◌, ◌^◌, ◌≤◌, ◌≡◌, min, arith, inl, inr, ◌⊎◌, nat_eq, ◌==◌,
  if◌then◌else◌,
}

abbrev pub initial_delay : ℕ
initial_delay = 30

abbrev pub max_delay : ℕ
max_delay = 16 * 60

-- int.bit_length: the number of halvings that reach 0, on as many rounds as the number says
bit_length_on : ℕ → ℕ → ℕ
bit_length_on zero n = 0
bit_length_on (suc rounds) n =
    let rest = bit_length_on rounds (n / 2) in if n == 0 then 0 else suc rest

unfoldable pub bit_length : ℕ → ℕ
unfolding bit_length_on
bit_length n = bit_length_on n n

abbrev doublings_before_cap : ℕ
doublings_before_cap = bit_length (max_delay / initial_delay) - 1

-- Truncated subtraction is the `max(count - 1, 0)` of the source.
unfoldable pub recovery_delay_seconds : ℕ → ℕ
unfolding bit_length
recovery_delay_seconds count =
    let exponent = min (count - 1) doublings_before_cap in
    min (initial_delay * 2 ^ exponent) max_delay

pow_mono : (i j : ℕ) → i ≤ j → 2 ^ i ≤ 2 ^ j
pow_mono i j h = pow-le-pow_right {n = 2} (omega arith) h

min-low : (n : ℕ) → n ≤ 5 → min (suc n - 1) doublings_before_cap ≡ n
unfolding bit_length
min-low n h = omega arith

min-high : (n : ℕ) → 5 ≤ n → min (suc n - 1) doublings_before_cap ≡ 5
unfolding bit_length
min-high n h = omega arith

le_total : (a b : ℕ) → (a ≤ b) ⊎ (b ≤ a)
le_total a b = omega arith

-- The delay before the (n + 1)-st consecutive overload is retried is 30 * 2^n seconds, up to the cap
-- of 960 seconds: the bound on the exponent, which the code takes from a bit length, never shows.
pub recovery_delay_seconds-closed :
    (n : ℕ) → recovery_delay_seconds (suc n) ≡ min (initial_delay * 2 ^ n) max_delay
unfolding recovery_delay_seconds
recovery_delay_seconds-closed n = elim (le_total n 5) [
  | inl low ↦ rw (min-low n low)
  | inr high ↦ rw (min-high n high) (omega (arith, pow_mono 5 n high))
]
