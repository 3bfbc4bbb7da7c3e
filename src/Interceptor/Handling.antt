-- ===== src/Interceptor/Handling.antt =====
-- rodex/terminal_input.py: the methods of TerminalInputInterceptor.
use codex_tmux_session_manag.Common.{
  ℕ, String, Bool, true, false, not, Option, none, some, List, [], ◌∷◌, nat_eq, string_eq,
  if◌then◌else◌,
}
use codex_tmux_session_manag.Menu.{Registration, View, Menu, view}
use codex_tmux_session_manag.Interceptor.{
  after, count_chars, Shown, interactive_input, input_release, Submitted, submitted_command, Effect,
  forwards, pastes, deletes, confirms, shows, submits, Session, emit, Outcome, then_,
}

module _ (live on_enter : Registration → String → Bool) (registrations : List Registration)
    (answer : List Effect → Effect → Bool) where
  abbrev pub ask : Effect → Session → Bool × Session
  ask e s = (answer s.log e, emit e s)

  abbrev publish_view : Shown → Option View → Session → Outcome
  publish_view what none s = none
  publish_view what (some v) s = some (ask (shows what v) s)

  -- _publish, of the menu m
  unfoldable pub publish : Shown → Menu → Session → Outcome
  unfolding view
  publish what m s = publish_view what (view live registrations s.forwarded_prefix m) s

  abbrev pub closed : String → Session → Session
  closed candidate s = record s { candidate = candidate; menu = none; forwarded_prefix = "" }

  abbrev pub release_of : Option Menu → Session → Option Session
  release_of none s = some (closed s.candidate s)
  release_of (some m) s =
      then_ (publish input_release m s) (λ accepted t. some (closed s.forwarded_prefix t))

  -- release
  unfoldable pub release : Session → Option Session
  unfolding publish
  release s = release_of s.menu s

  abbrev pub then_do : Option Session → (Session → Option Session) → Option Session
  then_do none f = none
  then_do (some s) f = f s

  abbrev pub reset_candidate : Session → Session
  reset_candidate s = record s { candidate = "" }

  abbrev pub and_then : Option Session → (Session → Outcome) → Outcome
  and_then none f = none
  and_then (some s) f = f s

  -- _complete_local_request
  unfoldable pub complete : Registration → Submitted → String → String → Session → Outcome
  unfolding release
  complete entry what draft prefix s =
      let (held, s1) = ask (confirms prefix) s in
      let (accepted, s2) = ask (submits entry what draft) s1 in
      if not held
      then some (false, s1)
      else if not accepted
      then some (false, s2)
      else and_then (release (emit (deletes (count_chars prefix)) s2))
          (λ t. some (true, reset_candidate t))

  unfoldable pub submitting : List Registration → String → List Registration
  submitting [] draft = []
  submitting (r ∷ rs) draft =
      let rest = submitting rs draft in if on_enter r draft then r ∷ rest else rest

  abbrev pub submit_matches : List Registration → String → String → Session → Outcome
  submit_matches (entry ∷ []) draft prefix s = complete entry submitted_command draft prefix s
  submit_matches _ draft prefix s = some (false, s)

  -- _submit
  unfoldable pub submit : List Registration → String → String → Session → Outcome
  unfolding submitting complete
  submit candidates draft prefix s = submit_matches (submitting candidates draft) draft prefix s

  -- _return_to_native, of the menu m
  unfoldable pub return_to_native : Menu → List ℕ → Session → Option Session
  unfolding release after
  return_to_native m raw s =
      then_do (release (emit (pastes (after s.forwarded_prefix m.draft)) s))
        (λ t. some (emit (forwards raw) (reset_candidate t)))

  abbrev pub shown_or : Menu → Session → Bool → Session → Option Session
  shown_or m before accepted t = some (if accepted then record t { menu = some m } else t)

  -- _transition_menu, to the menu that the transition made
  unfoldable pub transition : Option Menu → Session → Option Session
  unfolding publish
  transition none s = none
  transition (some m) s = then_ (publish interactive_input m s) (shown_or m s)
