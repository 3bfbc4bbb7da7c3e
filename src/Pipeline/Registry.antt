-- ===== src/Pipeline/Registry.antt =====
-- interaction_pipeline.py: the registry of targets. A target object carries a serial number, by which
-- `is` compares it; a dict keeps one target for each name.
use codex_tmux_session_manag.Common.{
  ℕ, String, ◌≡◌, ◌∙◌, refl, sym, Bool, true, false, ◌||◌, Option, none, some, List, ◌==◌, nat_eq,
  string_eq, if◌then◌else◌, is_some, arith, Bool-cases, if_intro, ap, inl, inr, eq_iff, eq_refl,
}
use codex_tmux_session_manag.Common.Dict.{lookup, insert, without, lookup-insert, lookup-without}

pub record Target : Type 0 where
  pub serial : ℕ
  pub name : String
  pub runtime_identity : String

abbrev pub Registry : Type 0
Registry = List (String × Target)

-- register; none is a ValueError
unfoldable pub register : Target → Registry → Option Registry
unfolding lookup insert
register t targets =
    if t.name == "" || t.runtime_identity == "" || is_some (lookup t.name targets)
    then none
    else some (insert t.name t targets)

abbrev is_this : Target → Option Target → Bool
is_this t none = false
is_this t (some u) = u.serial == t.serial

-- unregister
unfoldable pub unregister : Target → Registry → Registry
unfolding lookup without
unregister t targets = if is_this t (lookup t.name targets) then without t.name targets else targets

absent_of : (o : Option Target) → is_some o ≡ false → o ≡ none
absent_of none h = refl
absent_of (some t) h = cc

stays :
    (t u : Target) (targets : Registry)
    → lookup t.name targets ≡ some t
    → (t.serial == u.serial) ≡ false
    → lookup t.name (unregister u targets) ≡ some t
unfolding unregister
stays t u targets h other =
    if_intro (λ (r : Registry). lookup t.name r ≡ some t) (is_this u (lookup u.name targets))
      (without u.name targets) targets
      (λ this. lookup-without u.name t.name targets ∙ rw (apart this) h) (λ _. h)
  where
    apart : is_this u (lookup u.name targets) ≡ true → (u.name == t.name) ≡ false
    apart this = elim (Bool-cases (u.name == t.name)) [
      | inl same ↦
          let here : lookup u.name targets ≡ some t =
            ap (λ n. lookup n targets) ((eq_iff u.name t.name).0 same) ∙ h in
          let bad : (t.serial == u.serial) ≡ true = (rw here at this) in
          let worse : true ≡ false = sym bad ∙ other in cc
      | inr differ ↦ differ
    ]

goes :
    (t : Target) (targets : Registry) (name : String)
    → lookup t.name targets ≡ none
    → lookup name (unregister t (insert t.name t targets)) ≡ lookup name targets
unfolding unregister
goes t targets name absent =
    let found : lookup t.name (insert t.name t targets) ≡ some t =
      lookup-insert t.name t.name t targets ∙ rw (eq_refl t.name) refl in
    let this : (t.serial == t.serial) ≡ true = ground arith in
    rw (unregister, found, this)
      (lookup-without t.name name (insert t.name t targets) ∙ elim (Bool-cases (t.name == name)) [
        | inl same ↦ rw same (sym absent ∙ ap (λ n. lookup n targets) ((eq_iff t.name name).0 same))
        | inr differ ↦ rw differ (lookup-insert t.name name t targets ∙ rw differ refl)
      ])

-- What is registered stands under a name that no target had. The removal of that target gives every
-- name what it had before, and the removal of any other object, one of the same name included,
-- leaves it registered.
pub unregister-register :
    (t : Target) (targets more : Registry)
    → register t targets ≡ some more
    → ((name : String) → lookup name (unregister t more) ≡ lookup name targets)
      × ((u : Target) → (t.serial == u.serial) ≡ false → lookup t.name (unregister u more) ≡ some t)
unfolding register
unregister-register t targets more h =
    elim (Bool-cases
      (t.name == "" || t.runtime_identity == "" || is_some (lookup t.name targets))) [
        | inl invalid ↦ let bad : none ≡ some more = (rw (register, invalid) at h) in cc
        | inr valid ↦
            let made : some (insert t.name t targets) ≡ some more = (rw (register, valid) at h) in
            let same : insert t.name t targets ≡ more = cc in
            let unused : is_some (lookup t.name targets) ≡ false = ground arith in
            let found : lookup t.name more ≡ some t =
              ap (lookup t.name) (sym same)
              ∙ lookup-insert t.name t.name t targets
              ∙ rw (eq_refl t.name) refl in
            (
              λ name.
                  ap (λ r. lookup name (unregister t r)) (sym same)
                  ∙ goes t targets name (absent_of (lookup t.name targets) unused),
              λ u other. stays t u more found other,
            )
      ]
