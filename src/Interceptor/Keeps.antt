-- ===== src/Interceptor/Keeps.antt =====
-- That every input keeps the interceptor of rodex/terminal_input.py sound, and raises nothing.
use codex_tmux_session_manag.Common.{
  ℕ, zero, suc, String, ◌≡◌, refl, Bool, true, false, Option, none, some, List, [], ◌∷◌, if_intro,
  length, get_elem?, ◌==◌, string_eq, nat_eq, ◌<◌, arith, if◌then◌else◌,
}
use mathlib.Core.Path.{subst}
use codex_tmux_session_manag.Menu.{
  Registration, Choice, Menu, Stage, commands, arguments, has_options, selected_command,
  update_draft, open_arguments, back_to_commands,
}
use codex_tmux_session_manag.Menu.Valid.{Valid, Picks}
use codex_tmux_session_manag.Menu.Steps.{back-Ok, arguments-Ok, update_draft-Ok}
use codex_tmux_session_manag.Interceptor.{
  Kind, control, Input, key_is, is_enter, append, interactive_input, input_configuration_error,
  Effect, Session, then_,
}
use codex_tmux_session_manag.Interceptor.Handling.{
  publish, release, complete, submitting, submit, return_to_native, transition,
}
use codex_tmux_session_manag.Interceptor.Accepting.{
  chosen_option, chosen, paired, accept_picker, edited, complete_tab, enter_command,
}
use codex_tmux_session_manag.Interceptor.Guarded.{
  Sound, Goes, then_-Goes, publish-Results, release-Goes, complete-Results, submit-Results,
  return_to_native-Goes, transition-Goes,
}

module _ (live on_enter : Registration → String → Bool) (registrations : List Registration)
    (answer : List Effect → Effect → Bool) where
  abbrev pub Keeps : Option Session → Type 0
  Keeps = Goes live on_enter registrations answer

  abbrev pub Holds : Session → Type 0
  Holds = Sound live on_enter registrations answer

  abbrev pub Ok : Menu → Type 0
  Ok = Valid live registrations

  pub draft-Ok :
      (draft : String) (m : Menu)
      → m.stage ≡ commands
      → Ok m
      → Ok (update_draft live registrations draft m)
  draft-Ok draft m e h = update_draft-Ok live registrations draft m e h

  pub submitted-Keeps :
      (rs : List Registration) (draft prefix : String) (s : Session)
      → Holds s
      → Keeps
          (then_ (submit live on_enter registrations answer rs draft prefix s) (λ done t. some t))
  submitted-Keeps rs draft prefix s h =
      then_-Goes live on_enter registrations answer
        (submit live on_enter registrations answer rs draft prefix s) (λ done t. some t)
        (submit-Results live on_enter registrations answer rs draft prefix s h) (λ b t k. k)

  pub chosen-Keeps :
      (entry : Option Registration) (index : ℕ) (s : Session)
      → Picks arguments entry index
      → Holds s
      → Keeps (chosen live on_enter registrations answer entry index s)
  chosen-Keeps none index s p h = h
  chosen-Keeps (some entry) index s p h =
      if_intro Keeps (has_options entry)
        (chosen_option live on_enter registrations answer entry (get_elem? entry.options index) s)
        (some s) (λ _. by_option (get_elem? entry.options index) (found entry.options index p))
        (λ _. h)
    where
      found : (os : List Choice) (i : ℕ) → i < length os → (o : Choice) × (get_elem? os i ≡ some o)
      found [] i l = ground arith
      found (o ∷ os) zero l = (o, refl)
      found (o ∷ os) (suc i) l = found os i (omega arith)

      by_option :
          (o : Option Choice)
          → (c : Choice) × (o ≡ some c)
          → Keeps (chosen_option live on_enter registrations answer entry o s)
      by_option none q = cc
      by_option (some o) q =
          submitted-Keeps (entry ∷ []) (append entry.completion_text (append " " o.name))
            s.forwarded_prefix s h

  pub picker-Keeps :
      (e : Input) (m : Menu) (s : Session)
      → m.stage ≡ arguments
      → Ok m
      → Holds s
      → Keeps (accept_picker live on_enter registrations answer e m s)
  picker-Keeps e m s q v h = by_kind e.kind
    where
      entry : Option Registration
      entry = selected_command live registrations m

      picks : Picks arguments entry m.selected_option_index
      picks = subst (λ (st : Stage). Picks st entry m.selected_option_index) q v.1

      by_kind :
          (k : Kind)
          → Keeps (accept_picker live on_enter registrations answer (record e { kind = k }) m s)
      by_kind control =
          let f = record e { kind = control } in
          let to_back =
            transition live on_enter registrations answer
              (some (back_to_commands live registrations m)) s in
          let leave = release live on_enter registrations answer s in
          let choose =
            chosen live on_enter registrations answer entry m.selected_option_index
              (paired live on_enter registrations answer f s) in
          if_intro Keeps (key_is 27 f) to_back
            (if key_is 3 f then leave else if is_enter f then choose else some s)
            (λ _.
              transition-Goes live on_enter registrations answer
                (back_to_commands live registrations m) s (back-Ok live registrations m v) h)
            (λ _.
              if_intro Keeps (key_is 3 f) leave (if is_enter f then choose else some s)
                (λ _. release-Goes live on_enter registrations answer s h)
                (λ _.
                  if_intro Keeps (is_enter f) choose (some s)
                    (λ _.
                      chosen-Keeps entry m.selected_option_index
                        (paired live on_enter registrations answer f s) picks h)
                    (λ _. h)))
      by_kind k = h

  pub edited-Keeps :
      (m : Menu) (s : Session)
      → Ok m
      → Holds s
      → Keeps (edited live on_enter registrations answer m s)
  edited-Keeps m s v h =
      let t = record s { menu = some m } in
      let shown = publish live on_enter registrations answer interactive_input m t in
      if_intro Keeps (m.draft == s.forwarded_prefix) (release live on_enter registrations answer t)
        (then_ shown (λ accepted u. elim accepted [
          | true ↦ some u
          | false ↦ return_to_native live on_enter registrations answer m [] u
        ]))
        (λ _. release-Goes live on_enter registrations answer t (v, h.1))
        (λ _.
          then_-Goes live on_enter registrations answer shown
            (λ accepted u. elim accepted [
              | true ↦ some u
              | false ↦ return_to_native live on_enter registrations answer m [] u
            ])
            (publish-Results live on_enter registrations answer interactive_input m t v (v, h.1))
            by_answer)
    where
      by_answer :
          (b : Bool) (u : Session)
          → Holds u
          → Keeps (elim b [
            | true ↦ some u
            | false ↦ return_to_native live on_enter registrations answer m [] u
          ])
      by_answer true u k = k
      by_answer false u k = return_to_native-Goes live on_enter registrations answer m [] u k

  pub tab-Keeps :
      (entry : Option Registration) (m : Menu) (s : Session)
      → m.stage ≡ commands
      → Ok m
      → Holds s
      → Keeps (complete_tab live on_enter registrations answer entry m s)
  tab-Keeps none m s q v h = h
  tab-Keeps (some entry) m s q v h =
      transition-Goes live on_enter registrations answer
        (update_draft live registrations entry.completion_text m) s
        (draft-Ok entry.completion_text m q v) h

  pub enter-Keeps :
      (entry : Option Registration) (e : Input) (m : Menu) (s : Session)
      → Ok m
      → Holds s
      → Keeps (enter_command live on_enter registrations answer entry e m s)
  enter-Keeps (some entry) e m s v h =
      let done =
        complete live on_enter registrations answer entry input_configuration_error
          entry.completion_text s.forwarded_prefix s in
      if_intro Keeps (has_options entry)
        (transition live on_enter registrations answer
          (some (open_arguments live registrations m).0) s)
        (then_ done (λ b t. some t))
        (λ _.
          transition-Goes live on_enter registrations answer (open_arguments live registrations m).0
            s (arguments-Ok live registrations m v) h)
        (λ _.
          then_-Goes live on_enter registrations answer done (λ b t. some t)
            (complete-Results live on_enter registrations answer entry input_configuration_error
              entry.completion_text s.forwarded_prefix s refl h)
            (λ b t k. k))
  enter-Keeps none e m s v h =
      if_intro Keeps
        (length (submitting live on_enter registrations answer registrations m.draft) == 1)
        (then_
          (submit live on_enter registrations answer registrations m.draft s.forwarded_prefix s)
          (λ done t. some t))
        (return_to_native live on_enter registrations answer m e.raw s)
        (λ _. submitted-Keeps registrations m.draft s.forwarded_prefix s h)
        (λ _. return_to_native-Goes live on_enter registrations answer m e.raw s h)
