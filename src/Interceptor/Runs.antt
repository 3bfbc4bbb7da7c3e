-- ===== src/Interceptor/Runs.antt =====
-- Sequences of inputs to the interceptor of rodex/terminal_input.py: they raise nothing, and every
-- effect on the way is allowed.
use codex_tmux_session_manag.Common.{
  String, ◌≡◌, refl, Bool, true, false, ◌&&◌, Option, none, some, List, [], ◌∷◌, if_intro,
  string_eq, nat_eq, if◌then◌else◌,
}
use mathlib.Core.Path.{subst}
use codex_tmux_session_manag.Menu.{Registration, Menu, open_menu, matching_commands}
use codex_tmux_session_manag.Menu.Steps.{open_menu-Ok}
use codex_tmux_session_manag.Interceptor.{
  Kind, reply, text, paste, control, navigation, other, Input, key_is, is_enter, is_backspace,
  append, drop_last, interactive_input, Effect, confirms, Session, emit, new_session,
}
use codex_tmux_session_manag.Interceptor.Handling.{
  publish, release, submit, reset_candidate, then_do,
}
use codex_tmux_session_manag.Interceptor.Accepting.{
  paired, pass, keep_candidate, opened, accept_draft, accept_enter, accept_control, accept_native,
  by_menu, accept_input, accept, run,
}
use codex_tmux_session_manag.Interceptor.Guarded.{
  Sound, InOrder, then_-Goes, then_do-Goes, publish-Results, release-Goes, submit-Results,
}
use codex_tmux_session_manag.Interceptor.Keeps.{Ok}
use codex_tmux_session_manag.Interceptor.Local.{Kept, Fine, local-Keeps}

module _ (live on_enter : Registration → String → Bool) (registrations : List Registration)
    (answer : List Effect → Effect → Bool) where
  enter_native-Keeps :
      (e : Input) (s : Session)
      → Fine live on_enter registrations answer s
      → Kept live on_enter registrations answer
          (accept_enter live on_enter registrations answer e s)
  enter_native-Keeps e s h =
      then_-Goes live on_enter registrations answer
        (submit live on_enter registrations answer registrations s.candidate s.candidate
          (paired live on_enter registrations answer e s))
        (λ done t. elim done [
          | true ↦ some t
          | false ↦
              pass live on_enter registrations answer e
                (reset_candidate live on_enter registrations answer t)
        ])
        (submit-Results live on_enter registrations answer registrations s.candidate s.candidate
          (paired live on_enter registrations answer e s) h)
        by_done
    where
      by_done :
          (b : Bool) (t : Session)
          → Fine live on_enter registrations answer t
          → Kept live on_enter registrations answer (elim b [
            | true ↦ some t
            | false ↦
                pass live on_enter registrations answer e
                  (reset_candidate live on_enter registrations answer t)
          ])
      by_done true t k = k
      by_done false t k = (k.0, (tt, k.1))

  control-Keeps :
      (e : Input) (s : Session)
      → Fine live on_enter registrations answer s
      → Kept live on_enter registrations answer
          (accept_control live on_enter registrations answer e s)
  control-Keeps e s h =
      let deleted =
        pass live on_enter registrations answer e
          (record s { candidate = drop_last s.candidate }) in
      let plain =
        pass live on_enter registrations answer e
          (reset_candidate live on_enter registrations answer s) in
      if_intro (Kept live on_enter registrations answer) (is_enter e)
        (accept_enter live on_enter registrations answer e s)
        (if is_backspace e then deleted else plain) (λ _. enter_native-Keeps e s h)
        (λ _.
          if_intro (Kept live on_enter registrations answer) (is_backspace e) deleted plain
            (λ _. (h.0, (tt, h.1))) (λ _. (h.0, (tt, h.1))))

  opened-Keeps :
      (m : Menu) (candidate : String) (e : Input) (s : Session)
      → Ok live on_enter registrations answer m
      → Fine live on_enter registrations answer s
      → Kept live on_enter registrations answer
          (opened live on_enter registrations answer m candidate e s)
  opened-Keeps m candidate e s v h =
      let t = record s { menu = some m; forwarded_prefix = s.candidate } in
      then_-Goes live on_enter registrations answer
        (publish live on_enter registrations answer interactive_input m t) _
        (publish-Results live on_enter registrations answer interactive_input m t v (v, h.1))
        by_answer
    where
      forward : Session → Option Session
      forward u =
          pass live on_enter registrations answer e
            (keep_candidate live on_enter registrations answer candidate u)

      by_answer :
          (b : Bool) (t : Session)
          → Fine live on_enter registrations answer t
          → Kept live on_enter registrations answer (elim b [
            | true ↦ some t
            | false ↦
                then_do live on_enter registrations answer
                  (release live on_enter registrations answer t)
                  forward
          ])
      by_answer true t k = k
      by_answer false t k =
          then_do-Goes live on_enter registrations answer
            (release live on_enter registrations answer t) forward
            (release-Goes live on_enter registrations answer t k) (λ u w. (w.0, (tt, w.1)))

  draft-Keeps :
      (e : Input) (s : Session)
      → Fine live on_enter registrations answer s
      → Kept live on_enter registrations answer
          (accept_draft live on_enter registrations answer e s)
  draft-Keeps e s h = by_matches (matching_commands live registrations m)
    where
      m : Menu
      m = open_menu live registrations (append s.candidate e.text)

      t : Session
      t = emit (confirms s.candidate) s

      by_matches :
          (found : List Registration)
          → Kept live on_enter registrations answer (elim found [
            | [] ↦
                pass live on_enter registrations answer e
                  (keep_candidate live on_enter registrations answer (append s.candidate e.text) s)
            | _ ↦
                if answer s.log (confirms s.candidate)
                then opened live on_enter registrations answer m (append s.candidate e.text) e t
                else pass live on_enter registrations answer e (
                    keep_candidate live on_enter registrations answer (append s.candidate e.text) t)
          ])
      by_matches [] = (h.0, (tt, h.1))
      by_matches (r ∷ rs) =
          if_intro (Kept live on_enter registrations answer) (answer s.log (confirms s.candidate))
            (opened live on_enter registrations answer m (append s.candidate e.text) e t)
            (pass live on_enter registrations answer e
              (keep_candidate live on_enter registrations answer (append s.candidate e.text) t))
            (λ _.
              opened-Keeps m (append s.candidate e.text) e t
                (open_menu-Ok live registrations (append s.candidate e.text)) (h.0, (tt, h.1)))
            (λ _. (h.0, (tt, (tt, h.1))))

  native-Keeps :
      (e : Input) (s : Session)
      → Fine live on_enter registrations answer s
      → Kept live on_enter registrations answer
          (accept_native live on_enter registrations answer e s)
  unfolding accept_native
  native-Keeps e s h = by_kind e.kind
    where
      by_kind :
          (k : Kind)
          → Kept live on_enter registrations answer
              (accept_native live on_enter registrations answer (record e { kind = k }) s)
      by_kind text = draft-Keeps (record e { kind = text }) s h
      by_kind paste = draft-Keeps (record e { kind = paste }) s h
      by_kind control = control-Keeps (record e { kind = control }) s h
      by_kind k = (h.0, (tt, h.1))

  accept-Keeps :
      (e : Input) (s : Session)
      → Fine live on_enter registrations answer s
      → Kept live on_enter registrations answer (accept live on_enter registrations answer e s)
  unfolding accept
  accept-Keeps e s h = by_kind e.kind
    where
      fresh : Session
      fresh = record s { discard_paired_lf = false }

      by_held :
          (o : Option Menu) (f : Input)
          → s.menu ≡ o
          → Kept live on_enter registrations answer
              (by_menu live on_enter registrations answer o f fresh)
      by_held none f q = native-Keeps f fresh h
      by_held (some m) f q =
          local-Keeps live on_enter registrations answer f m fresh
            (subst (λ o. InOrder live on_enter registrations answer o s.forwarded_prefix) q h.0) h

      handled :
          (f : Input)
          → Kept live on_enter registrations answer
              (accept_input live on_enter registrations answer f s)
      handled f =
          if_intro (Kept live on_enter registrations answer) (s.discard_paired_lf && key_is 10 f)
            (some fresh) (by_menu live on_enter registrations answer s.menu f fresh) (λ _. h)
            (λ _. by_held s.menu f refl)

      by_kind :
          (k : Kind)
          → Kept live on_enter registrations answer
              (accept live on_enter registrations answer (record e { kind = k }) s)
      by_kind reply = (h.0, (tt, h.1))
      by_kind text = handled (record e { kind = text })
      by_kind paste = handled (record e { kind = paste })
      by_kind control = handled (record e { kind = control })
      by_kind navigation = handled (record e { kind = navigation })
      by_kind other = handled (record e { kind = other })

  run-Keeps :
      (es : List Input) (s : Session)
      → Fine live on_enter registrations answer s
      → Kept live on_enter registrations answer (run live on_enter registrations answer es s)
  unfolding run
  run-Keeps [] s h = h
  run-Keeps (e ∷ es) s h =
      then_do-Goes live on_enter registrations answer
        (accept live on_enter registrations answer e s)
        (λ t. run live on_enter registrations answer es t) (accept-Keeps e s h)
        (λ t k. run-Keeps es t k)

  goes :
      (o : Option Session)
      → Kept live on_enter registrations answer o
      → (s : Session) × (o ≡ some s) × Fine live on_enter registrations answer s
  goes none h = elim h [ ]
  goes (some s) h = (s, refl, h)

  -- Whatever is typed into a new interceptor, and whatever the composer and the pipeline answer, it
  -- raises nothing. An open menu is valid, and without one no prefix is held back. Each local request
  -- that was made followed the composer's yes to the native prefix, a submitted command matches the
  -- Enter expression of its registration, and native text was deleted only after an accepted local
  -- request, as many characters as the prefix that the composer had just confirmed.
  pub run-Sound :
      (es : List Input)
      → (s : Session) × (run live on_enter registrations answer es new_session ≡ some s)
        × Sound live on_enter registrations answer s
  run-Sound es =
      goes (run live on_enter registrations answer es new_session)
        (run-Keeps es new_session (refl, tt))
