-- ===== src/Cli/Total.antt =====
-- The loop of codex_cli_contract/contract.py ends within as many rounds as there are arguments, and
-- the positionals that it collects stand at their places in the arguments.
use mathlib.Core.Path.{subst}
use native.Mathlib.Nat.{zero-add, add-zero, add_assoc}
use codex_tmux_session_manag.Common.{
  ℕ, zero, suc, ◌+◌, ◌≤◌, String, ◌≡◌, sym, ap, ◌∙◌, Option, none, some, List, [], ◌∷◌, ◌++◌, arith,
  length, drop, get_elem?, get_elem?-drop, drop-suc, drop-drop, length-drop, All, if_intro,
  Bool-cases, inl, inr, ◌==◌, string_eq, nat_eq, ◌||◌, ◌&&◌,
}
use codex_tmux_session_manag.Common.Dict.{member}
use codex_tmux_session_manag.Cli.{
  Contract, Collected, Match, Action, reject, break, go_on, Scanned, rejected, collected, Arity,
  no_value, one, one_or_more, round, scan, take_values, token_action, by_arity, match_option, place,
  place_all, starts_dash, after_values, flag, one_value, many_values, separate_value, is_first,
}

abbrev pub Placed : List String → List (ℕ × String) → Type 0
Placed args = All (λ (p : ℕ × String). get_elem? args p.0 ≡ some p.1)

Placed-place :
    (args : List String) (index : ℕ) (token : String) (l : List (ℕ × String))
    → get_elem? args index ≡ some token
    → Placed args l
    → Placed args (l ++ (index, token) ∷ [])
Placed-place args index token [] e h = (e, tt)
Placed-place args index token (p ∷ l) e h = (h.0, Placed-place args index token l e h.1)

-- A round goes on with a suffix of the arguments that is no longer than the one it was left.
abbrev pub Fits : List String → ℕ → Action → Type 0
Fits args k (reject reason) = Unit
Fits args k (break acc) = Placed args acc.positionals
Fits args k (go_on index rest acc) =
    (drop index args ≡ rest) × (length rest ≤ k) × Placed args acc.positionals

take_values-drop :
    (rest : List String) (n : ℕ) → (k : ℕ) × (take_values rest n ≡ (n + k, drop k rest))
unfolding take_values
take_values-drop [] n = (0, ap (λ (m : ℕ). (m, [])) (sym (add-zero n)))
take_values-drop (value ∷ rest) n = elim (Bool-cases (value == "--" || starts_dash value)) [
  | inl stop ↦ (0, rw stop (ap (λ (m : ℕ). (m, value ∷ rest)) (sym (add-zero n))))
  | inr go ↦
      let (k, e) = take_values-drop rest (n + 1) in
      (suc k, rw go (e ∙ ap (λ (m : ℕ). (m, drop k rest)) (omega arith)))
]

place_all-Placed :
    (args : List String) (index : ℕ) (rest : List String) (acc : Collected)
    → drop index args ≡ rest
    → Placed args acc.positionals
    → Placed args (place_all index rest acc).positionals
unfolding place_all
place_all-Placed args index [] acc e h = h
place_all-Placed args index (token ∷ rest) acc e h =
    place_all-Placed args (index + 1) rest (place index token acc) (drop-suc index args e)
      (Placed-place args index token acc.positionals (get_elem?-drop index args e) h)

module _ (args : List String) (index : ℕ) (rest : List String) (acc : Collected)
    (here : drop (index + 1) args ≡ rest) (placed : Placed args acc.positionals) where
  after_values-Fits :
      (inline k : ℕ) → Fits args (length rest) (after_values inline index (k, drop k rest) acc)
  after_values-Fits inline k =
      if_intro (Fits args (length rest)) (inline + k == 0) _ _ (λ _. tt)
        (λ _. (
          sym (drop-drop k (index + 1) args) ∙ ap (drop k) here,
          omega (arith, length-drop k rest),
          placed,
        ))

  flag-Fits : (v : Option String) → Fits args (length rest) (flag v index rest acc)
  flag-Fits none = (here, omega arith, placed)
  flag-Fits (some v) = tt

  many_values-Fits : (v : Option String) → Fits args (length rest) (many_values v index rest acc)
  many_values-Fits none =
      let (k, e) = take_values-drop rest 0 in
      subst (λ (p : ℕ × List String). Fits args (length rest) (after_values 0 index p acc))
        (sym (e ∙ ap (λ (m : ℕ). (m, drop k rest)) (zero-add k))) (after_values-Fits 0 k)
  many_values-Fits (some value) =
      let (k, e) = take_values-drop rest 0 in
      if_intro (Fits args (length rest)) (value == "") _ _ (λ _. tt)
        (λ _.
          subst (λ (p : ℕ × List String). Fits args (length rest) (after_values 1 index p acc))
            (sym (e ∙ ap (λ (m : ℕ). (m, drop k rest)) (zero-add k))) (after_values-Fits 1 k))

separate_value-Fits :
    (args : List String) (index : ℕ) (rest : List String) (acc : Collected)
    → drop (index + 1) args ≡ rest
    → Placed args acc.positionals
    → Fits args (length rest) (separate_value index rest acc)
separate_value-Fits args index [] acc e h = tt
separate_value-Fits args index (value ∷ rest) acc e h =
    if_intro (Fits args (suc (length rest))) (starts_dash value) _ _ (λ _. tt)
      (λ _. (
        sym (ap (λ (n : ℕ). drop n args) (add_assoc index 1 1)) ∙ drop-suc (index + 1) args e,
        omega arith,
        h,
      ))

one_value-Fits :
    (args : List String) (index : ℕ) (rest : List String) (acc : Collected)
    → drop (index + 1) args ≡ rest
    → Placed args acc.positionals
    → (v : Option String) → Fits args (length rest) (one_value v index rest acc)
one_value-Fits args index rest acc e h none = separate_value-Fits args index rest acc e h
one_value-Fits args index rest acc e h (some value) =
    if_intro (Fits args (length rest)) (value == "") _ _ (λ _. tt) (λ _. (e, omega arith, h))

by_arity-Fits :
    (args : List String) (index : ℕ) (rest : List String) (acc : Collected)
    → drop (index + 1) args ≡ rest
    → Placed args acc.positionals
    → (a : Arity) (v : Option String) → Fits args (length rest) (by_arity a v index rest acc)
by_arity-Fits args index rest acc e h no_value v = flag-Fits args index rest acc e h v
by_arity-Fits args index rest acc e h one v = one_value-Fits args index rest acc e h v
by_arity-Fits args index rest acc e h one_or_more v = many_values-Fits args index rest acc e h v

token_action-Fits :
    (contract : Contract) (args : List String) (index : ℕ) (token : String) (rest : List String)
    (acc : Collected)
    → drop index args ≡ token ∷ rest
    → Placed args acc.positionals
    → (m : Option Match) → Fits args (length rest) (token_action contract m index token rest acc)
token_action-Fits contract args index token rest acc e h none =
    if_intro (Fits args (length rest)) (starts_dash token) _ _ (λ _. tt)
      (λ _.
        if_intro (Fits args (length rest)) (is_first acc && member token contract.command_tokens) _
          _ (λ _. tt)
          (λ _. (
            drop-suc index args e,
            omega arith,
            Placed-place args index token acc.positionals (get_elem?-drop index args e) h,
          )))
token_action-Fits contract args index token rest acc e h (some (spec, v)) =
    if_intro (Fits args (length rest)) spec.managed _ _
      (λ _. by_arity-Fits args index rest _ (drop-suc index args e) h spec.value_arity v) (λ _. tt)

round-Fits :
    (contract : Contract) (args : List String) (index : ℕ) (token : String) (rest : List String)
    (acc : Collected)
    → drop index args ≡ token ∷ rest
    → Placed args acc.positionals
    → Fits args (length rest) (round contract index token rest acc)
unfolding round
round-Fits contract args index token rest acc e h =
    if_intro (Fits args (length rest)) (token == "--") _ _
      (λ _. place_all-Placed args (index + 1) rest acc (drop-suc index args e) h)
      (λ _.
        token_action-Fits contract args index token rest acc e h
          (match_option contract.option_specs token))

-- What a finished loop returns: the positionals that it collected are in their places.
abbrev pub Ends : List String → Option Scanned → Type 0
Ends args none = ⊥
Ends args (some (rejected reason)) = Unit
Ends args (some (collected acc)) = Placed args acc.positionals

abbrev next : Contract → ℕ → Action → Option Scanned
next contract fuel (reject reason) = some (rejected reason)
next contract fuel (break acc) = some (collected acc)
next contract fuel (go_on index rest acc) = scan contract fuel index rest acc

next-Ends :
    (contract : Contract) (args : List String) (fuel k : ℕ) (action : Action)
    → k ≤ fuel
    → Fits args k action
    → ((index : ℕ) (rest : List String) (acc : Collected)
        → length rest ≤ fuel
        → drop index args ≡ rest
        → Placed args acc.positionals
        → Ends args (scan contract fuel index rest acc))
    → Ends args (next contract fuel action)
next-Ends contract args fuel k (reject reason) l f ends = tt
next-Ends contract args fuel k (break acc) l f ends = f
next-Ends contract args fuel k (go_on index rest acc) l (e, short, h) ends =
    ends index rest acc (omega arith) e h

pub scan-Ends :
    (contract : Contract) (args : List String) (fuel index : ℕ) (rest : List String)
    (acc : Collected)
    → length rest ≤ fuel
    → drop index args ≡ rest
    → Placed args acc.positionals
    → Ends args (scan contract fuel index rest acc)
unfolding scan
scan-Ends contract args fuel index [] acc l e h = h
scan-Ends contract args zero index (token ∷ rest) acc l e h = absurd (omega arith)
scan-Ends contract args (suc fuel) index (token ∷ rest) acc l e h =
    next-Ends contract args fuel (length rest) (round contract index token rest acc) (omega arith)
      (round-Fits contract args index token rest acc e h)
      (λ index' rest' acc'. scan-Ends contract args fuel index' rest' acc')
