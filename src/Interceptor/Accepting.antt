-- ===== src/Interceptor/Accepting.antt =====
-- rodex/terminal_input.py: accept and _accept_local of TerminalInputInterceptor.
use codex_tmux_session_manag.Common.{
  ℕ, String, Bool, true, false, ◌&&◌, ◌||◌, Option, none, some, List, [], ◌∷◌, ◌==◌, nat_eq,
  string_eq, if◌then◌else◌, length, ltb, leb, get_elem?,
}
use codex_tmux_session_manag.Menu.{
  Registration, Choice, Menu, Stage, commands, arguments, selected_command, has_options, Offset, up,
  down, open_menu, update_draft, move_selection, open_arguments, back_to_commands,
  matching_commands,
}
use codex_tmux_session_manag.Interceptor.{
  reply, text, paste, control, navigation, Input, key_is, is_enter, is_backspace, append, drop_last,
  utf8_length, max_local_draft_bytes, interactive_input, input_configuration_error, Effect,
  forwards, confirms, Session, emit, then_,
}
use codex_tmux_session_manag.Interceptor.Handling.{
  ask, publish, release, then_do, reset_candidate, complete, submitting, submit, return_to_native,
  transition,
}

module _ (live on_enter : Registration → String → Bool) (registrations : List Registration)
    (answer : List Effect → Effect → Bool) where
  abbrev pub offset_of : String → Offset
  offset_of direction = if direction == "up" then up 1 else down 1

  abbrev pub chosen_option : Registration → Option Choice → Session → Option Session
  chosen_option entry none s = none
  chosen_option entry (some option) s =
      then_
        (submit live on_enter registrations answer (entry ∷ [])
          (append entry.completion_text (append " " option.name)) s.forwarded_prefix s)
        (λ done t. some t)

  -- what Enter does in the picker; an index out of range is an exception
  abbrev pub chosen : Option Registration → ℕ → Session → Option Session
  chosen none index s = some s
  chosen (some entry) index s =
      let submitted = chosen_option entry (get_elem? entry.options index) s in
      if has_options entry then submitted else some s

  abbrev pub paired : Input → Session → Session
  paired e s = record s { discard_paired_lf = key_is 13 e }

  -- the keys of the argument picker
  abbrev pub accept_picker : Input → Menu → Session → Option Session
  accept_picker e m s = elim e.kind [
    | control ↦
        let back =
          transition live on_enter registrations answer
            (some (back_to_commands live registrations m)) s in
        let leave = release live on_enter registrations answer s in
        let entry = selected_command live registrations m in
        let choose = chosen entry m.selected_option_index (paired e s) in
        if key_is 27 e
        then back
        else if key_is 3 e
        then leave
        else if is_enter e
        then choose
        else some s
    | _ ↦ some s
  ]

  abbrev pub edited : Menu → Session → Option Session
  edited m s =
      let t = record s { menu = some m } in
      let leave = release live on_enter registrations answer t in
      let stay =
        then_ (publish live on_enter registrations answer interactive_input m t) (λ accepted u.
          elim accepted [
            | true ↦ some u
            | false ↦ return_to_native live on_enter registrations answer m [] u
          ]) in
      if m.draft == s.forwarded_prefix then leave else stay

  abbrev pub complete_tab : Option Registration → Menu → Session → Option Session
  complete_tab none m s = some s
  complete_tab (some entry) m s =
      transition live on_enter registrations answer
        (some (update_draft live registrations entry.completion_text m)) s

  abbrev pub enter_command : Option Registration → Input → Menu → Session → Option Session
  enter_command (some entry) e m s =
      let pick =
        transition live on_enter registrations answer (some (open_arguments live registrations m).0)
          s in
      let report =
        then_
          (complete live on_enter registrations answer entry input_configuration_error
            entry.completion_text s.forwarded_prefix s)
          (λ done t. some t) in
      if has_options entry then pick else report
  enter_command none e m s =
      let back = return_to_native live on_enter registrations answer m e.raw s in
      let send =
        then_ (submit live on_enter registrations answer registrations m.draft s.forwarded_prefix s)
          (λ done t. some t) in
      if length (submitting live on_enter registrations answer registrations m.draft) == 1
      then send
      else back

  abbrev pub accept_key : Input → Menu → Session → Option Session
  accept_key e m s =
      let leave = release live on_enter registrations answer s in
      let shorten = edited (update_draft live registrations (drop_last m.draft) m) s in
      let fill = complete_tab (selected_command live registrations m) m s in
      let enter = enter_command (selected_command live registrations m) e m (paired e s) in
      let back = return_to_native live on_enter registrations answer m e.raw s in
      if key_is 27 e || key_is 3 e
      then leave
      else if is_backspace e
      then shorten
      else if key_is 9 e
      then fill
      else if is_enter e
      then enter
      else back

  abbrev pub accept_text : Input → Menu → Session → Option Session
  accept_text e m s =
      let back = return_to_native live on_enter registrations answer m e.raw s in
      let longer = edited (update_draft live registrations (append m.draft e.text) m) s in
      if ltb max_local_draft_bytes (utf8_length (append m.draft e.text)) then back else longer

  abbrev pub accept_command : Input → Menu → Session → Option Session
  accept_command e m s = elim e.kind [
    | text ↦ accept_text e m s
    | paste ↦ accept_text e m s
    | control ↦ accept_key e m s
    | _ ↦ return_to_native live on_enter registrations answer m e.raw s
  ]

  abbrev pub by_stage : Stage → Input → Menu → Session → Option Session
  by_stage arguments e m s = accept_picker e m s
  by_stage commands e m s = accept_command e m s

  -- _accept_local
  unfoldable pub accept_local : Input → Menu → Session → Option Session
  unfolding transition submit return_to_native move_selection
  accept_local e m s = elim e.kind [
    | navigation ↦
        transition live on_enter registrations answer
          (move_selection live registrations (offset_of e.text) m) s
    | _ ↦ by_stage m.stage e m s
  ]

  abbrev pub pass : Input → Session → Option Session
  pass e s = some (emit (forwards e.raw) s)

  abbrev pub keep_candidate : String → Session → Session
  keep_candidate candidate s = record s {
    candidate = if leb (utf8_length candidate) max_local_draft_bytes then candidate else "";
  }

  abbrev pub opened : Menu → String → Input → Session → Option Session
  opened m candidate e s =
      then_
        (publish live on_enter registrations answer interactive_input m
          (record s { menu = some m; forwarded_prefix = s.candidate }))
        (λ accepted t. elim accepted [
          | true ↦ some t
          | false ↦
              then_do live on_enter registrations answer
                (release live on_enter registrations answer t)
                (λ u. pass e (keep_candidate candidate u))
        ])

  abbrev pub accept_draft : Input → Session → Option Session
  accept_draft e s =
      let candidate = append s.candidate e.text in
      let m = open_menu live registrations candidate in
      let (held, t) = ask live on_enter registrations answer (confirms s.candidate) s in
      let take_over = opened m candidate e t in
      elim (matching_commands live registrations m) [
        | [] ↦ pass e (keep_candidate candidate s)
        | _ ↦ if held then take_over else pass e (keep_candidate candidate t)
      ]

  abbrev pub accept_enter : Input → Session → Option Session
  accept_enter e s =
      then_
        (submit live on_enter registrations answer registrations s.candidate s.candidate
          (paired e s))
        (λ done t. elim done [
          | true ↦ some t
          | false ↦ pass e (reset_candidate live on_enter registrations answer t)
        ])

  abbrev pub accept_control : Input → Session → Option Session
  accept_control e s =
      let enter = accept_enter e s in
      if is_enter e
      then enter
      else if is_backspace e
      then pass e (record s { candidate = drop_last s.candidate })
      else pass e (reset_candidate live on_enter registrations answer s)

  -- accept, with no menu
  unfoldable pub accept_native : Input → Session → Option Session
  unfolding submit publish
  accept_native e s = elim e.kind [
    | text ↦ accept_draft e s
    | paste ↦ accept_draft e s
    | control ↦ accept_control e s
    | _ ↦ pass e (reset_candidate live on_enter registrations answer s)
  ]

  abbrev pub by_menu : Option Menu → Input → Session → Option Session
  by_menu none e s = accept_native e s
  by_menu (some m) e s = accept_local e m s

  abbrev pub accept_input : Input → Session → Option Session
  accept_input e s =
      let fresh = by_menu s.menu e (record s { discard_paired_lf = false }) in
      if s.discard_paired_lf && key_is 10 e
      then some (record s { discard_paired_lf = false })
      else fresh

  -- accept
  unfoldable pub accept : Input → Session → Option Session
  unfolding accept_local accept_native
  accept e s = elim e.kind [ reply ↦ pass e s | _ ↦ accept_input e s ]

  unfoldable pub run : List Input → Session → Option Session
  unfolding accept
  run [] s = some s
  run (e ∷ es) s = then_do live on_enter registrations answer (accept e s) (λ t. run es t)
