-- ===== src/Interceptor/Guarded.antt =====
-- What the interceptor of rodex/terminal_input.py keeps: a menu in order, and effects that are each
-- allowed after those before it.
use codex_tmux_session_manag.Common.{
  ℕ, String, ◌≡◌, refl, Bool, true, Option, none, some, List, [], ◌∷◌, inl, inr, Bool-cases, All,
  if_intro,
}
use codex_tmux_session_manag.Menu.{Registration, Menu}
use codex_tmux_session_manag.Menu.Valid.{Valid, view-accepted}
use codex_tmux_session_manag.Interceptor.{
  count_chars, after, Shown, input_release, interactive_input, Submitted, submitted_command,
  input_configuration_error, Effect, forwards, pastes, deletes, confirms, submits, Session, emit,
  Outcome, then_,
}
use codex_tmux_session_manag.Interceptor.Handling.{
  publish, closed, release_of, release, then_do, and_then, complete, submitting, submit_matches,
  submit, return_to_native, reset_candidate, transition, shown_or,
}

module _ (live on_enter : Registration → String → Bool) (registrations : List Registration)
    (answer : List Effect → Effect → Bool) where
  -- A command that is submitted matches its registration's Enter expression; an error names the command.
  abbrev pub Fits : Submitted → Registration → String → Type 0
  Fits submitted_command entry draft = on_enter entry draft ≡ true
  Fits input_configuration_error entry draft = draft ≡ entry.completion_text

  -- A local request follows the composer's yes to the prefix; a deletion follows an accepted local
  -- request, and takes as many characters as that prefix has.
  abbrev pub Allowed : Effect → List Effect → Type 0
  Allowed (submits entry what draft) (confirms p ∷ earlier) =
      (answer earlier (confirms p) ≡ true) × Fits what entry draft
  Allowed (submits entry what draft) _ = ⊥
  Allowed (deletes n) (submits entry what draft ∷ confirms p ∷ earlier) =
      (answer (confirms p ∷ earlier) (submits entry what draft) ≡ true) × (n ≡ count_chars p)
  Allowed (deletes n) _ = ⊥
  Allowed _ earlier = Unit

  abbrev pub Guarded : List Effect → Type 0
  Guarded [] = Unit
  Guarded (e ∷ earlier) = Allowed e earlier × Guarded earlier

  abbrev pub InOrder : Option Menu → String → Type 0
  InOrder none prefix = prefix ≡ ""
  InOrder (some m) prefix = Valid live registrations m

  abbrev pub Sound : Session → Type 0
  Sound s = InOrder s.menu s.forwarded_prefix × Guarded s.log

  -- No exception, and a sound session.
  abbrev pub Goes : Option Session → Type 0
  Goes none = ⊥
  Goes (some s) = Sound s

  abbrev pub Results : Outcome → Type 0
  Results none = ⊥
  Results (some (b, s)) = Sound s

  pub then_-Goes :
      (o : Outcome) (f : Bool → Session → Option Session)
      → Results o
      → ((b : Bool) (t : Session) → Sound t → Goes (f b t))
      → Goes (then_ o f)
  then_-Goes none f h next = h
  then_-Goes (some (b, s)) f h next = next b s h

  pub then_do-Goes :
      (o : Option Session) (f : Session → Option Session)
      → Goes o
      → ((t : Session) → Sound t → Goes (f t))
      → Goes (then_do live on_enter registrations answer o f)
  then_do-Goes none f h next = h
  then_do-Goes (some s) f h next = next s h

  and_then-Results :
      (o : Option Session) (f : Session → Outcome)
      → Goes o
      → ((t : Session) → Sound t → Results (f t))
      → Results (and_then live on_enter registrations answer o f)
  and_then-Results none f h next = h
  and_then-Results (some s) f h next = next s h

  pub publish-Results :
      (what : Shown) (m : Menu) (s : Session)
      → Valid live registrations m
      → Sound s
      → Results (publish live on_enter registrations answer what m s)
  unfolding publish
  publish-Results what m s v h =
      let (shown, e) = view-accepted live registrations s.forwarded_prefix m v in
      rw (publish, e) (h.0, (tt, h.1))

  pub release-Goes : (s : Session) → Sound s → Goes (release live on_enter registrations answer s)
  unfolding release
  release-Goes s h = by_menu s.menu h.0
    where
      by_menu :
          (o : Option Menu)
          → InOrder o s.forwarded_prefix
          → Goes (release_of live on_enter registrations answer o s)
      by_menu none i = (refl, h.1)
      by_menu (some m) i =
          then_-Goes (publish live on_enter registrations answer input_release m s)
            (λ accepted t. some (closed live on_enter registrations answer s.forwarded_prefix t))
            (publish-Results input_release m s i h) (λ b t k. (refl, k.1))

  pub complete-Results :
      (entry : Registration) (what : Submitted) (draft prefix : String) (s : Session)
      → Fits what entry draft
      → Sound s
      → Results (complete live on_enter registrations answer entry what draft prefix s)
  unfolding complete
  complete-Results entry what draft prefix s fits h =
      elim (Bool-cases (answer s.log (confirms prefix))) [
        | inr refused ↦ rw (complete, refused) (h.0, (tt, h.1))
        | inl held ↦
            elim (Bool-cases (answer (confirms prefix ∷ s.log) (submits entry what draft))) [
              | inr declined ↦ rw (complete, held, declined) (h.0, ((held, fits), (tt, h.1)))
              | inl accepted ↦
                  rw (complete, held, accepted)
                    (and_then-Results
                      (release live on_enter registrations answer (
                        emit (deletes (count_chars prefix))
                          (emit (submits entry what draft) (emit (confirms prefix) s))))
                      (λ t. some (true, reset_candidate live on_enter registrations answer t))
                      (release-Goes
                        (emit (deletes (count_chars prefix))
                          (emit (submits entry what draft) (emit (confirms prefix) s)))
                        (h.0, ((accepted, refl), ((held, fits), (tt, h.1)))))
                      (λ t k. k))
            ]
      ]

  submitting-Fits :
      (rs : List Registration) (draft : String)
      → All (λ r. on_enter r draft ≡ true) (submitting live on_enter registrations answer rs draft)
  unfolding submitting
  submitting-Fits [] draft = tt
  submitting-Fits (r ∷ rs) draft =
      if_intro (All (λ q. on_enter q draft ≡ true)) (on_enter r draft)
        (r ∷ submitting live on_enter registrations answer rs draft)
        (submitting live on_enter registrations answer rs draft)
        (λ fits. (fits, submitting-Fits rs draft)) (λ _. submitting-Fits rs draft)

  pub submit-Results :
      (rs : List Registration) (draft prefix : String) (s : Session)
      → Sound s
      → Results (submit live on_enter registrations answer rs draft prefix s)
  unfolding submit
  submit-Results rs draft prefix s h =
      by_matches (submitting live on_enter registrations answer rs draft) (submitting-Fits rs draft)
    where
      by_matches :
          (found : List Registration)
          → All (λ r. on_enter r draft ≡ true) found
          → Results (submit_matches live on_enter registrations answer found draft prefix s)
      by_matches [] f = h
      by_matches (entry ∷ []) f = complete-Results entry submitted_command draft prefix s f.0 h
      by_matches (entry ∷ next ∷ found) f = h

  pub return_to_native-Goes :
      (m : Menu) (raw : List ℕ) (s : Session)
      → Sound s
      → Goes (return_to_native live on_enter registrations answer m raw s)
  unfolding return_to_native
  return_to_native-Goes m raw s h =
      then_do-Goes
        (release live on_enter registrations answer
          (emit (pastes (after s.forwarded_prefix m.draft)) s))
        (λ t. some (emit (forwards raw) (reset_candidate live on_enter registrations answer t)))
        (release-Goes (emit (pastes (after s.forwarded_prefix m.draft)) s) (h.0, (tt, h.1)))
        (λ t k. (k.0, (tt, k.1)))

  pub transition-Goes :
      (m : Menu) (s : Session)
      → Valid live registrations m
      → Sound s
      → Goes (transition live on_enter registrations answer (some m) s)
  unfolding transition
  transition-Goes m s v h =
      then_-Goes (publish live on_enter registrations answer interactive_input m s)
        (shown_or live on_enter registrations answer m s)
        (publish-Results interactive_input m s v h)
        (λ b t k. if_intro Sound b (record t { menu = some m }) t (λ _. (v, k.1)) (λ _. k))
