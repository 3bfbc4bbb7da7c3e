-- ===== src/Interceptor/Exits.antt =====
-- The way out of the interceptor of rodex/terminal_input.py.
use codex_tmux_session_manag.Common.{
  String, ◌≡◌, refl, ◌∙◌, arith, ◌&&◌, Bool, false, none, some, List, [], ◌∷◌,
}
use codex_tmux_session_manag.Menu.{Registration, Menu, Stage, commands, arguments, View, view}
use codex_tmux_session_manag.Menu.Valid.{Valid, view-accepted}
use codex_tmux_session_manag.Interceptor.{Input, control, shows, input_release, Session, Effect}
use codex_tmux_session_manag.Interceptor.Handling.{release, publish}
use codex_tmux_session_manag.Interceptor.Accepting.{accept, accept_local, by_stage}

-- control-C, as a control with its byte
abbrev pub ctrl_c : Input
ctrl_c = record { kind = control; raw = 3 ∷ []; text = "" }

module _ (live on_enter : Registration → String → Bool) (registrations : List Registration)
    (answer : List Effect → Effect → Bool) where
  abbrev left : Session → View → Session
  left s v = record {
    candidate = s.forwarded_prefix;
    menu = none;
    forwarded_prefix = "";
    discard_paired_lf = s.discard_paired_lf;
    log = shows input_release v ∷ s.log;
  }

  release-left :
      (s : Session) (m : Menu) (v : View)
      → s.menu ≡ some m
      → view live registrations s.forwarded_prefix m ≡ some v
      → release live on_enter registrations answer s ≡ some (left s v)
  unfolding release publish
  release-left s m v held e = rw (release, held, publish, e) refl

  by_stage-ctrl_c :
      (st : Stage) (m : Menu) (s : Session)
      → by_stage live on_enter registrations answer st ctrl_c m s
        ≡ release live on_enter registrations answer s
  by_stage-ctrl_c commands m s = refl
  by_stage-ctrl_c arguments m s = refl

  -- From any open menu that is valid, one control-C leaves the interceptor, whatever the answers: the
  -- menu is shown as released, nothing is forwarded, deleted or submitted, and what the native
  -- composer holds, the forwarded prefix, is the candidate again.
  pub ctrl_c-leaves :
      (s : Session) (m : Menu)
      → s.menu ≡ some m
      → Valid live registrations m
      → (v : View) × (accept live on_enter registrations answer ctrl_c s
          ≡ some (record {
            candidate = s.forwarded_prefix;
            menu = none;
            forwarded_prefix = "";
            discard_paired_lf = false;
            log = shows input_release v ∷ s.log;
          }))
  unfolding accept accept_local
  ctrl_c-leaves s m held valid =
      let (v, e) = view-accepted live registrations s.forwarded_prefix m valid in
      let fresh = record s { menu = some m; discard_paired_lf = false } in
      let other : (s.discard_paired_lf && false) ≡ false = ground arith in
      (
        v,
        rw (accept, other, held) (by_stage-ctrl_c m.stage m fresh ∙ release-left fresh m v refl e),
      )
