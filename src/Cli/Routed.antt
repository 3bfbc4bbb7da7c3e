-- ===== src/Cli/Routed.antt =====
-- What the classification of codex_cli_contract/contract.py returns on each of its routes.
use codex_tmux_session_manag.Common.{
  ℕ, String, ◌≡◌, refl, sym, false, not, ◌&&◌, Option, none, some, List, [], ◌∷◌, arith, length,
  get_elem?, if_intro, Bool-cases, Option-cases, inl, inr, ◌==◌, string_eq, eq_iff,
}
use codex_tmux_session_manag.Cli.{
  Contract, Invocation, Route, managed_interactive, resume_selector, passthrough, Scanned, rejected,
  collected, nothing, scan, classify, conclude, conclude?, explicit_resume_of, starts_dash,
  by_positionals, managed_option_conflict, candidate, resume_invocation,
}
use codex_tmux_session_manag.Cli.Total.{Placed, Ends, scan-Ends}

-- The candidate of a managed invocation is its only argument.
abbrev IsCandidate : List String → String → Option String → Type 0
IsCandidate arguments token none = Unit
IsCandidate arguments token (some s) = (s ≡ token) × (arguments ≡ token ∷ [])

abbrev HasPrompt : List String → Option String → Option ℕ → Type 0
HasPrompt arguments selector none = selector ≡ none
HasPrompt arguments selector (some index) =
    (token : String) × (get_elem? arguments index ≡ some token)
    × IsCandidate arguments token selector

abbrev pub ByRoute : Route → List String → Option String → Option ℕ → Type 0
ByRoute managed_interactive arguments selector prompt = HasPrompt arguments selector prompt
ByRoute resume_selector arguments selector prompt =
    (id : String) × (arguments ≡ "resume" ∷ id ∷ [])
    × (starts_dash id ≡ false)
    × (selector ≡ some id)
    × (prompt ≡ none)
ByRoute passthrough arguments selector prompt = (selector ≡ none) × (prompt ≡ none)

-- What an invocation promises of the arguments that it classifies.
abbrev pub IsRouted : List String → Invocation → Type 0
IsRouted arguments i =
    (i.arguments ≡ arguments) × ByRoute i.route arguments i.selector_candidate i.prompt_index

candidate-IsCandidate :
    (arguments : List String) (index : ℕ) (token : String)
    → IsCandidate arguments token (candidate arguments ((index, token) ∷ []))
candidate-IsCandidate [] index token = tt
candidate-IsCandidate (a ∷ []) index token = elim (Bool-cases (token == a)) [
  | inl e ↦ rw e (refl, ground (arith, eq_iff token a))
  | inr e ↦ rw e tt
]
candidate-IsCandidate (a ∷ b ∷ l) index token = tt

by_positionals-IsRouted :
    (arguments : List String) (l : List (ℕ × String))
    → Placed arguments l
    → IsRouted arguments (by_positionals arguments l)
by_positionals-IsRouted arguments [] h = (refl, refl)
by_positionals-IsRouted arguments ((index, token) ∷ []) h =
    (refl, (token, h.0, candidate-IsCandidate arguments index token))
by_positionals-IsRouted arguments (p ∷ q ∷ l) h = (refl, (refl, refl))

conclude-IsRouted :
    (arguments : List String) (s : Option Scanned)
    → Ends arguments s
    → (i : Invocation) × (conclude? arguments s ≡ some i) × IsRouted arguments i
unfolding conclude
conclude-IsRouted arguments none h = elim h [ ]
conclude-IsRouted arguments (some (rejected reason)) h = (_, refl, (refl, (refl, refl)))
conclude-IsRouted arguments (some (collected acc)) h = (
  _,
  refl,
  if_intro (IsRouted arguments) (managed_option_conflict acc.seen_options) _ _
      (λ _. (refl, (refl, refl))) (λ _. by_positionals-IsRouted arguments acc.positionals h),
)

explicit_resume_of-only :
    (arguments : List String) (id : String)
    → explicit_resume_of arguments ≡ some id
    → (arguments ≡ "resume" ∷ id ∷ []) × (starts_dash id ≡ false)
unfolding explicit_resume_of
explicit_resume_of-only [] id e = cc
explicit_resume_of-only (a ∷ []) id e = cc
explicit_resume_of-only (a ∷ b ∷ []) id e =
    elim (Bool-cases (a == "resume" && not (b == "") && not (starts_dash b))) [
      | inl h ↦
          let verb : a ≡ "resume" = ground (arith, eq_iff a "resume") in
          let plain : starts_dash b ≡ false = ground arith in
          let e' : some b ≡ some id = (rw h at e) in
          let same : b ≡ id = cc in (rw (verb, same) refl, rw (sym same) plain)
      | inr h ↦ let e' : none ≡ some id = (rw h at e) in cc
    ]
explicit_resume_of-only (a ∷ b ∷ c ∷ l) id e = cc

-- Whatever the arguments, the loop of the classification ends with as many rounds as there are
-- arguments, and returns an invocation of these arguments. On the route into a resume they are `resume` and
-- an identifier that is no option, and the identifier is the candidate. On the managed route, a
-- prompt index is the place of an argument, and a candidate is that argument and the only one;
-- without a prompt index there is no candidate. A passthrough has neither.
pub classify-IsRouted :
    (contract : Contract) (arguments : List String)
    → (i : Invocation) × (classify contract arguments ≡ some i) × IsRouted arguments i
unfolding classify
classify-IsRouted contract arguments = elim (Option-cases (explicit_resume_of arguments)) [
  | inl e ↦
      rw (classify, e)
        (conclude-IsRouted arguments (scan contract (length arguments) 0 arguments nothing) (
          scan-Ends contract arguments (length arguments) 0 arguments nothing (omega arith) refl
            tt))
  | inr (id, e) ↦
      let (a, d) = explicit_resume_of-only arguments id e in
      rw (classify, e) (resume_invocation arguments id, refl, (refl, (id, a, d, refl, refl)))
]
