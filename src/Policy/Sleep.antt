-- ===== src/Policy/Sleep.antt =====
-- Which sleep commands the policy of rodex/command_policy.py denies.
use codex_tmux_session_manag.Common.{
  ℕ, ◌+◌, ◌-◌, ◌*◌, ◌≤◌, ◌≡◌, ◌∙◌, refl, ap, Bool, true, false, ◌&&◌, ◌||◌, Option, none, some, [],
  ◌∷◌, ◌++◌, ◌==◌, nat_eq, if◌then◌else◌, length, ltb, All, arith, Bool-cases, inl, inr,
}
use codex_tmux_session_manag.Policy.{
  Chars, allow, deny_sleep, is_blank, is_digit, skip_blanks, strip_word, digits_of, ends_there,
  seconds_of, strip_zeros, or_zero, text_less, below_minimum, minimum_seconds, evaluate_short_sleep,
  evaluate_command, first_of, passes, sleep_word, after_word,
}

-- The number that digits are written for.
abbrev pub value_from : ℕ → Chars → ℕ
value_from acc [] = acc
value_from acc (c ∷ cs) = value_from (acc * 10 + (c - 48)) cs

abbrev pub IsDigits : Chars → Type 0
IsDigits = All (λ c. is_digit c ≡ true)

abbrev pub AreBlanks : Chars → Type 0
AreBlanks = All (λ c. is_blank c ≡ true)

value_from-grows : (acc : ℕ) (cs : Chars) → acc ≤ value_from acc cs
value_from-grows acc [] = omega arith
value_from-grows acc (c ∷ cs) = omega (arith, value_from-grows (acc * 10 + (c - 48)) cs)

ten_at_least : (c : ℕ) → is_digit c ≡ true → (c == 48) ≡ false → 49 ≤ c
ten_at_least c h o = ground arith

-- Digits without a zero in front are fewer than two just if their number is below ten.
significant :
    (cs : Chars)
    → IsDigits cs
    → (ltb (length (or_zero (strip_zeros cs))) 2
        || (length (or_zero (strip_zeros cs)) == 2
            && text_less (or_zero (strip_zeros cs)) minimum_seconds))
      ≡ ltb (value_from 0 cs) 10
unfolding strip_zeros text_less
significant [] h = refl
significant (c ∷ cs) h = elim (Bool-cases (c == 48)) [
  | inl zero_first ↦
      let nothing : 0 ≡ 0 * 10 + (c - 48) = ground arith in
      rw zero_first (significant cs h.1 ∙ ap (λ n. ltb (value_from n cs) 10) nothing)
  | inr other ↦ rw other (by_length cs h.1 other)
]
  where
    by_length :
        (ds : Chars)
        → IsDigits ds
        → (c == 48) ≡ false
        → (ltb (length (c ∷ ds)) 2 || (length (c ∷ ds) == 2 && text_less (c ∷ ds) minimum_seconds))
          ≡ ltb (value_from 0 (c ∷ ds)) 10
    by_length [] k o = let digit = h.0 in ground arith
    by_length (d ∷ []) k o = let first = h.0 in let second = k.0 in ground arith
    by_length (d ∷ e ∷ ds) k o =
        let first = h.0 in
        let large : 10 ≤ value_from 0 (c ∷ d ∷ e ∷ ds) = omega (
          arith,
          ten_at_least c first o,
          value_from-grows (((0 * 10 + (c - 48)) * 10 + (d - 48)) * 10 + (e - 48)) ds,
        ) in
        ground arith

below_minimum-value : (cs : Chars) → IsDigits cs → below_minimum cs ≡ ltb (value_from 0 cs) 10
unfolding below_minimum
below_minimum-value cs h = significant cs h

skip_blanks-append : (bs cs : Chars) → AreBlanks bs → skip_blanks (bs ++ cs) ≡ skip_blanks cs
unfolding skip_blanks
skip_blanks-append [] cs h = refl
skip_blanks-append (b ∷ bs) cs h = rw h.0 (skip_blanks-append bs cs h.1)

skip_blanks-other : (c : ℕ) (cs : Chars) → is_blank c ≡ false → skip_blanks (c ∷ cs) ≡ c ∷ cs
unfolding skip_blanks
skip_blanks-other c cs h = rw h refl

word_found : (rest : Chars) → strip_word sleep_word (skip_blanks (sleep_word ++ rest)) ≡ some rest
unfolding strip_word skip_blanks
word_found rest = refl

digits_of-append :
    (ds cs : Chars) → IsDigits ds → digits_of cs ≡ ([], cs) → digits_of (ds ++ cs) ≡ (ds, cs)
unfolding digits_of
digits_of-append [] cs h e = e
digits_of-append (d ∷ ds) cs h e = rw (h.0, digits_of-append ds cs h.1 e) refl

abbrev pub semicolon : Bool → Chars
semicolon true = 59 ∷ []
semicolon false = []

abbrev pub tail_of : Chars → Bool → Chars → Chars
tail_of gap semi last = gap ++ (semicolon semi ++ last)

digits_of-blanks : (bs : Chars) → AreBlanks bs → digits_of bs ≡ ([], bs)
unfolding digits_of
digits_of-blanks [] h = refl
digits_of-blanks (b ∷ bs) h =
    let blank = h.0 in let other : is_digit b ≡ false = ground arith in rw other refl

digits_of-tail :
    (gap : Chars) (semi : Bool) (last : Chars)
    → AreBlanks gap
    → AreBlanks last
    → digits_of (tail_of gap semi last) ≡ ([], tail_of gap semi last)
unfolding digits_of
digits_of-tail [] true last g l = refl
digits_of-tail [] false last g l = digits_of-blanks last l
digits_of-tail (b ∷ bs) semi last g l =
    let blank = g.0 in let other : is_digit b ≡ false = ground arith in rw other refl

skip_all : (bs : Chars) → AreBlanks bs → skip_blanks bs ≡ []
unfolding skip_blanks
skip_all [] h = refl
skip_all (b ∷ bs) h = rw h.0 (skip_all bs h.1)

ends_there-tail :
    (gap : Chars) (semi : Bool) (last : Chars)
    → AreBlanks gap
    → AreBlanks last
    → ends_there (tail_of gap semi last) ≡ true
unfolding skip_blanks
ends_there-tail gap true last g l = rw (skip_blanks-append gap (59 ∷ last) g, skip_all last l) refl
ends_there-tail gap false last g l = rw (skip_blanks-append gap last g, skip_all last l) refl

-- A sleep command: blanks, the word, blanks, the digits d and ds, blanks, a semicolon or none, blanks.
abbrev pub sleep_command : Chars → ℕ → Chars → ℕ → Chars → Chars → Bool → Chars → Chars
sleep_command lead b between d ds gap semi last =
    lead ++ (sleep_word ++ (b ∷ (between ++ ((d ∷ ds) ++ tail_of gap semi last))))

module _ (lead between gap last : Chars) (b d : ℕ) (ds : Chars) (semi : Bool) (h1 : AreBlanks lead)
    (h2 : is_blank b ≡ true) (h3 : AreBlanks between) (h4 : IsDigits (d ∷ ds)) (h5 : AreBlanks gap)
    (h6 : AreBlanks last) where
  abbrev after_sleep : Chars
  after_sleep = b ∷ (between ++ ((d ∷ ds) ++ tail_of gap semi last))

  digits_found : after_word (some after_sleep) ≡ some (d ∷ ds)
  digits_found =
      let first = h4.0 in
      let plain : is_blank d ≡ false = ground arith in
      rw
        (
          h2,
          skip_blanks-append between ((d ∷ ds) ++ tail_of gap semi last) h3,
          skip_blanks-other d (ds ++ tail_of gap semi last) plain,
          digits_of-append (d ∷ ds) (tail_of gap semi last) h4 (digits_of-tail gap semi last h5 h6),
          ends_there-tail gap semi last h5 h6,
        )
        refl

  seconds_of-sleep_command :
      seconds_of (sleep_command lead b between d ds gap semi last) ≡ some (d ∷ ds)
  unfolding seconds_of
  seconds_of-sleep_command =
      ap (λ t. after_word (strip_word sleep_word t))
        (skip_blanks-append lead (sleep_word ++ after_sleep) h1)
      ∙ ap after_word (word_found after_sleep)
      ∙ digits_found

  -- A command that sleeps for a written number of seconds, and that the policy on find and rg passes,
  -- is denied if that number is below ten, however many zeros it begins with, and allowed otherwise.
  pub evaluate_command-sleep :
      (find_rg : Chars → Option Chars)
      → find_rg (sleep_command lead b between d ds gap semi last) ≡ none
      → evaluate_command find_rg (sleep_command lead b between d ds gap semi last)
        ≡ some (if ltb (value_from 0 (d ∷ ds)) 10 then deny_sleep else allow)
  unfolding evaluate_command evaluate_short_sleep
  evaluate_command-sleep find_rg passed =
      rw (evaluate_command, passed, seconds_of-sleep_command, below_minimum-value (d ∷ ds) h4)
        (by_value (ltb (value_from 0 (d ∷ ds)) 10))
    where
      by_value :
          (b : Bool)
          → first_of passes (if b then some deny_sleep else none)
            ≡ some (if b then deny_sleep else allow)
      by_value true = refl
      by_value false = refl
