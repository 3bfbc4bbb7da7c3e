-- ===== src/Turns/Admission.antt =====
-- What the admission of rollout records by their coordinates promises (rollout_turn_lifecycle.py).
use mathlib.Core.Path.{subst}
use codex_tmux_session_manag.Common.{
  ℕ, String, ◌≡◌, ◌∙◌, refl, sym, ap, true, false, Option, none, some, List, [], ◌∷◌, ◌==◌, nat_eq,
  nat_beq_iff, string_eq, arith, Option-cases, Bool-cases, inl, inr, if◌then◌else◌,
}
use codex_tmux_session_manag.Common.Json.{Fields}
use codex_tmux_session_manag.Turns.{
  Fingerprints, find_fingerprint, ordinal_of, Admitted, changed, answer, compared, admit,
}

-- What is kept after a record: an error leaves the fingerprints as they are.
abbrev after : Admitted → Fingerprints → Fingerprints
after changed prints = prints
after (answer fresh prints') prints = prints'

-- The records of a source with their physical places, one after the other.
unfoldable pub admit_all :
    (Fields → String) → List (Fields × Option ℕ) → Fingerprints → Fingerprints
admit_all fingerprint [] prints = prints
admit_all fingerprint ((r, physical) ∷ rs) prints =
    admit_all fingerprint rs (after (admit fingerprint r physical prints) prints)

module _ (k : ℕ) (f : String) where
  compared-keeps :
      (ordinal : ℕ) (print : String) (previous : Option String) (prints : Fingerprints)
      → find_fingerprint ordinal prints ≡ previous
      → find_fingerprint k prints ≡ some f
      → find_fingerprint k (after (compared ordinal print previous prints) prints) ≡ some f
  unfolding find_fingerprint
  compared-keeps ordinal print none prints e h = elim (Bool-cases (ordinal == k)) [
    | inl same ↦
        let q : ordinal ≡ k = (nat_beq_iff ordinal k).0 same in
        let lost : none ≡ some f = sym e ∙ ap (λ (n : ℕ). find_fingerprint n prints) q ∙ h in cc
    | inr other ↦ rw other h
  ]
  compared-keeps ordinal print (some previous) prints e h = ground arith

  admit-keeps :
      (fingerprint : Fields → String) (r : Fields) (physical : Option ℕ) (prints : Fingerprints)
      → find_fingerprint k prints ≡ some f
      → find_fingerprint k (after (admit fingerprint r physical prints) prints) ≡ some f
  unfolding admit
  admit-keeps fingerprint r physical prints h = elim (Option-cases (ordinal_of r physical)) [
    | inl e ↦ rw e h
    | inr (n, e) ↦ rw e (compared-keeps n (fingerprint r) (find_fingerprint n prints) prints refl h)
  ]

  admit_all-keeps :
      (fingerprint : Fields → String) (rs : List (Fields × Option ℕ)) (prints : Fingerprints)
      → find_fingerprint k prints ≡ some f
      → find_fingerprint k (admit_all fingerprint rs prints) ≡ some f
  unfolding admit_all
  admit_all-keeps fingerprint [] prints h = h
  admit_all-keeps fingerprint ((r, physical) ∷ rs) prints h =
      admit_all-keeps fingerprint rs _ (admit-keeps fingerprint r physical prints h)

compared-records :
    (k : ℕ) (print : String) (previous : Option String) (prints prints' : Fingerprints)
    → compared k print previous prints ≡ answer true prints'
    → find_fingerprint k prints' ≡ some print
unfolding find_fingerprint
compared-records k print none prints prints' e =
    let same : ((k, print) ∷ prints) ≡ prints' = cc in
    subst (λ (ps : Fingerprints). find_fingerprint k ps ≡ some print) same (ground arith)
compared-records k print (some previous) prints prints' e = elim (Bool-cases (previous == print)) [
  | inl b ↦ let e' : answer false prints ≡ answer true prints' = (rw b at e) in cc
  | inr b ↦ let e' : changed ≡ answer true prints' = (rw b at e) in cc
]

admit-records :
    (fingerprint : Fields → String) (r : Fields) (physical : Option ℕ) (k : ℕ)
    (prints prints' : Fingerprints)
    → ordinal_of r physical ≡ some k
    → admit fingerprint r physical prints ≡ answer true prints'
    → find_fingerprint k prints' ≡ some (fingerprint r)
unfolding admit
admit-records fingerprint r physical k prints prints' o e =
    compared-records k (fingerprint r) (find_fingerprint k prints) prints prints' (rw o at e)

-- Once a record with a coordinate is admitted, whatever other records the source then brings, a
-- record at the same coordinate is never admitted again: it is refused quietly and nothing changes
-- if its fingerprint is the same, and it raises an error if its fingerprint is another.
pub admitted_once :
    (fingerprint : Fields → String) (r : Fields) (physical : Option ℕ) (k : ℕ)
    (prints prints' : Fingerprints) (later : List (Fields × Option ℕ)) (r' : Fields)
    (physical' : Option ℕ)
    → ordinal_of r physical ≡ some k
    → ordinal_of r' physical' ≡ some k
    → admit fingerprint r physical prints ≡ answer true prints'
    → admit fingerprint r' physical' (admit_all fingerprint later prints') ≡ (
        if fingerprint r == fingerprint r'
        then answer false (admit_all fingerprint later prints')
        else changed)
unfolding admit
admitted_once fingerprint r physical k prints prints' later r' physical' o o' e =
    let kept =
      admit_all-keeps k (fingerprint r) fingerprint later prints'
        (admit-records fingerprint r physical k prints prints' o e) in
    rw (o', kept) refl
