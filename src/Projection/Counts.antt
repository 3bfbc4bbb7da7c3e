-- ===== src/Projection/Counts.antt =====
-- The health records of rodex/protocol_projection.py next to the observations themselves.
use codex_tmux_session_manag.Common.{
  ℕ, ◌+◌, String, ◌≡◌, ◌∙◌, refl, ap, Bool, true, false, Option, none, some, List, [], ◌∷◌, ◌==◌,
  string_eq, if◌then◌else◌, arith, Bool-cases, inl, inr, eq_iff, length,
}
use codex_tmux_session_manag.Common.Dict.{lookup, lookup-insert}
use codex_tmux_session_manag.Projection.{
  Failure, Guard, Ending, returns, raises, failed_again, observe, run,
}

-- The exceptions of one participant, in their order.
abbrev raised_by : Ending → List String → List String
raised_by returns rest = rest
raised_by (raises exception) rest = exception ∷ rest

abbrev pub exceptions_of : String → List (String × Ending) → List String
exceptions_of name [] = []
exceptions_of name (o ∷ later) =
    let rest = exceptions_of name later in if o.0 == name then raised_by o.1 rest else rest

-- Further exceptions of a participant, after a record of the earlier ones.
abbrev counted : String → Option Failure → List String → Option Failure
counted name before [] = before
counted name before (exception ∷ rest) =
    counted name (some (failed_again name exception before)) rest

abbrev last_of : String → List String → String
last_of exception [] = exception
last_of exception (next ∷ rest) = last_of next rest

-- How many exceptions there were, and which was the last; nothing for none.
abbrev pub health : String → List String → Option Failure
health name [] = none
health name (exception ∷ rest) = some (record {
  participant_name = name;
  failure_count = length (exception ∷ rest);
  last_exception_type = last_of exception rest;
})

abbrev pub has_returned : Ending → Bool
has_returned returns = true
has_returned (raises exception) = false

abbrev pub reports_of : List (String × Ending) → List Bool
reports_of [] = []
reports_of (o ∷ later) = has_returned o.1 ∷ reports_of later

lookup-observe :
    (name other : String) (e : Ending) (guard : Guard)
    → lookup name (observe other e guard).0 ≡ (
        if other == name
        then counted name (lookup name guard) (raised_by e [])
        else lookup name guard)
unfolding observe
lookup-observe name other returns guard = ground arith
lookup-observe name other (raises exception) guard =
    lookup-insert other name (failed_again other exception (lookup other guard)) guard
    ∙ elim (Bool-cases (other == name)) [
      | inl same ↦
          let n : other ≡ name = (eq_iff other name).0 same in
          rw same (ap (λ m. some (failed_again m exception (lookup m guard))) n)
      | inr apart ↦ rw apart refl
    ]

counted-raised_by :
    (name : String) (before : Option Failure) (e : Ending) (rest : List String)
    → counted name (counted name before (raised_by e [])) rest
      ≡ counted name before (raised_by e rest)
counted-raised_by name before returns rest = refl
counted-raised_by name before (raises exception) rest = refl

lookup-run :
    (name : String) (observations : List (String × Ending)) (guard : Guard)
    → lookup name (run observations guard).0
      ≡ counted name (lookup name guard) (exceptions_of name observations)
unfolding run
lookup-run name [] guard = refl
lookup-run name (o ∷ later) guard =
    lookup-run name later (observe o.0 o.1 guard).0
    ∙ ap (λ f. counted name f (exceptions_of name later)) (lookup-observe name o.0 o.1 guard)
    ∙ elim (Bool-cases (o.0 == name)) [
      | inl same ↦
          rw same (counted-raised_by name (lookup name guard) o.1 (exceptions_of name later))
      | inr apart ↦ rw apart refl
    ]

-- A record of so many exceptions, of which the last was that one.
abbrev record_of : String → ℕ → String → Failure
record_of name count exception = record {
  participant_name = name;
  failure_count = count;
  last_exception_type = exception;
}

counted-record_of :
    (name exception : String) (count : ℕ) (rest : List String)
    → counted name (some (record_of name count exception)) rest
      ≡ some (record_of name (length rest + count) (last_of exception rest))
counted-record_of name exception count [] =
    ap (λ k. some (record_of name k exception)) (omega arith)
counted-record_of name exception count (next ∷ rest) =
    counted-record_of name next (count + 1) rest
    ∙ ap (λ k. some (record_of name k (last_of next rest))) (omega arith)

counted-health :
    (name : String) (exceptions : List String)
    → counted name none exceptions ≡ health name exceptions
counted-health name [] = refl
counted-health name (exception ∷ rest) =
    counted-record_of name exception 1 rest
    ∙ ap (λ k. some (record_of name k (last_of exception rest))) (omega arith)

reports-run :
    (observations : List (String × Ending)) (guard : Guard)
    → (run observations guard).1 ≡ reports_of observations
unfolding run observe
reports-run [] guard = refl
reports-run ((name, returns) ∷ later) guard = ap (λ r. true ∷ r) (reports-run later guard)
reports-run ((name, raises exception) ∷ later) guard =
    ap (λ r. false ∷ r) (reports-run later (observe name (raises exception) guard).0)

-- After any observations by a new guard, the record of a participant holds the number of the
-- exceptions that its own observers raised and the type of the last, and there is none if they raised
-- none; and each observation reported whether its observer returned.
pub run-health :
    (observations : List (String × Ending)) (name : String)
    → (lookup name (run observations []).0 ≡ health name (exceptions_of name observations))
      × ((run observations []).1 ≡ reports_of observations)
unfolding lookup
run-health observations name = (
  lookup-run name observations [] ∙ counted-health name (exceptions_of name observations),
  reports-run observations [],
)
