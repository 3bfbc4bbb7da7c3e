-- ===== src/Interceptor/Local.antt =====
-- That every input to an open menu keeps the interceptor of rodex/terminal_input.py sound.
use codex_tmux_session_manag.Common.{
  String, ◌≡◌, refl, Bool, ◌||◌, Option, List, if_intro, ltb, string_eq, nat_eq, if◌then◌else◌,
}
use codex_tmux_session_manag.Menu.{
  Registration, Menu, Stage, commands, arguments, selected_command, update_draft,
}
use codex_tmux_session_manag.Menu.Steps.{move-Ok}
use codex_tmux_session_manag.Interceptor.{
  Kind, reply, text, paste, control, navigation, other, Input, key_is, is_enter, is_backspace,
  append, drop_last, utf8_length, max_local_draft_bytes, Effect, Session,
}
use codex_tmux_session_manag.Interceptor.Handling.{release, return_to_native}
use codex_tmux_session_manag.Interceptor.Accepting.{
  paired, edited, complete_tab, enter_command, accept_key, accept_text, accept_command, by_stage,
  accept_local, offset_of,
}
use codex_tmux_session_manag.Interceptor.Guarded.{
  release-Goes, return_to_native-Goes, transition-Goes,
}
use codex_tmux_session_manag.Interceptor.Keeps.{
  Keeps, Holds, Ok, draft-Ok, picker-Keeps, edited-Keeps, tab-Keeps, enter-Keeps,
}

module _ (live on_enter : Registration → String → Bool) (registrations : List Registration)
    (answer : List Effect → Effect → Bool) where
  abbrev pub Kept : Option Session → Type 0
  Kept = Keeps live on_enter registrations answer

  abbrev pub Fine : Session → Type 0
  Fine = Holds live on_enter registrations answer

  key-Keeps :
      (e : Input) (m : Menu) (s : Session)
      → m.stage ≡ commands
      → Ok live on_enter registrations answer m
      → Fine s
      → Kept (accept_key live on_enter registrations answer e m s)
  key-Keeps e m s q v h =
      let leave = release live on_enter registrations answer s in
      let shorter = update_draft live registrations (drop_last m.draft) m in
      let shorten = edited live on_enter registrations answer shorter s in
      let fill =
        complete_tab live on_enter registrations answer (selected_command live registrations m) m
          s in
      let enter =
        enter_command live on_enter registrations answer (selected_command live registrations m) e m
          (paired live on_enter registrations answer e s) in
      let back = return_to_native live on_enter registrations answer m e.raw s in
      if_intro Kept (key_is 27 e || key_is 3 e) leave
        (if is_backspace e
          then shorten
          else if key_is 9 e
          then fill
          else if is_enter e
          then enter
          else back)
        (λ _. release-Goes live on_enter registrations answer s h)
        (λ _.
          if_intro Kept (is_backspace e) shorten
            (if key_is 9 e then fill else if is_enter e then enter else back)
            (λ _.
              edited-Keeps live on_enter registrations answer shorter s
                (draft-Ok live on_enter registrations answer (drop_last m.draft) m q v) h)
            (λ _.
              if_intro Kept (key_is 9 e) fill (if is_enter e then enter else back)
                (λ _.
                  tab-Keeps live on_enter registrations answer
                    (selected_command live registrations m) m s q v h)
                (λ _.
                  if_intro Kept (is_enter e) enter back
                    (λ _.
                      enter-Keeps live on_enter registrations answer
                        (selected_command live registrations m) e m
                        (paired live on_enter registrations answer e s) v h)
                    (λ _. return_to_native-Goes live on_enter registrations answer m e.raw s h))))

  text-Keeps :
      (e : Input) (m : Menu) (s : Session)
      → m.stage ≡ commands
      → Ok live on_enter registrations answer m
      → Fine s
      → Kept (accept_text live on_enter registrations answer e m s)
  text-Keeps e m s q v h =
      let longer = update_draft live registrations (append m.draft e.text) m in
      if_intro Kept (ltb max_local_draft_bytes (utf8_length (append m.draft e.text)))
        (return_to_native live on_enter registrations answer m e.raw s)
        (edited live on_enter registrations answer longer s)
        (λ _. return_to_native-Goes live on_enter registrations answer m e.raw s h)
        (λ _.
          edited-Keeps live on_enter registrations answer longer s
            (draft-Ok live on_enter registrations answer (append m.draft e.text) m q v) h)

  command-Keeps :
      (e : Input) (m : Menu) (s : Session)
      → m.stage ≡ commands
      → Ok live on_enter registrations answer m
      → Fine s
      → Kept (accept_command live on_enter registrations answer e m s)
  command-Keeps e m s q v h = by_kind e.kind
    where
      by_kind :
          (k : Kind)
          → Kept (accept_command live on_enter registrations answer (record e { kind = k }) m s)
      by_kind text = text-Keeps (record e { kind = text }) m s q v h
      by_kind paste = text-Keeps (record e { kind = paste }) m s q v h
      by_kind control = key-Keeps (record e { kind = control }) m s q v h
      by_kind k = return_to_native-Goes live on_enter registrations answer m e.raw s h

  pub local-Keeps :
      (e : Input) (m : Menu) (s : Session)
      → Ok live on_enter registrations answer m
      → Fine s
      → Kept (accept_local live on_enter registrations answer e m s)
  unfolding accept_local
  local-Keeps e m s v h = by_kind e.kind
    where
      at_stage :
          (st : Stage) (f : Input)
          → m.stage ≡ st
          → Kept (by_stage live on_enter registrations answer st f m s)
      at_stage commands f q = command-Keeps f m s q v h
      at_stage arguments f q = picker-Keeps live on_enter registrations answer f m s q v h

      by_kind :
          (k : Kind)
          → Kept (accept_local live on_enter registrations answer (record e { kind = k }) m s)
      by_kind navigation =
          let offset = offset_of live on_enter registrations answer e.text in
          let (m', moved, w) = move-Ok live registrations offset m v in
          rw (accept_local, moved) (transition-Goes live on_enter registrations answer m' s w h)
      by_kind reply = at_stage m.stage (record e { kind = reply }) refl
      by_kind text = at_stage m.stage (record e { kind = text }) refl
      by_kind paste = at_stage m.stage (record e { kind = paste }) refl
      by_kind control = at_stage m.stage (record e { kind = control }) refl
      by_kind other = at_stage m.stage (record e { kind = other }) refl
