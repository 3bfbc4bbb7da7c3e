-- ===== src/Connection/Resets.antt =====
-- What a reset of the participants does whether they raise or not (primary_connection_lifecycle.py).
use codex_tmux_session_manag.Common.{
  ℕ, ◌+◌, String, ◌≡◌, ◌∙◌, refl, ap, Option, none, some, List, [], ◌∷◌, ◌++◌,
}
use codex_tmux_session_manag.Connection.{
  Failure, Participant, note, reset_all, reset_after_disconnect,
}

-- What is reported of one participant, and what went wrong, if anything did.
abbrev pub reported : String → Option String → List Failure
reported name none = []
reported name (some error) = record { participant_name = name; error = error } ∷ []

module _ {ℓ} {World : Type ℓ} where
  -- A run over all of the participants, next to the runs over those before one of them, and over
  -- those after it on what it left.
  abbrev pub Passes :
      List (Participant World) → Participant World → List (Participant World) → World → Type ℓ
  Passes before p after world =
      let first = reset_all before world in
      let one = p.reset first.0 in
      let last = reset_all after one.0 in
      let all = reset_all (before ++ p ∷ after) world in
      (all.0 ≡ last.0) × (all.1 ≡ first.1 ++ (reported p.name one.1 ++ last.1))

  note-reported :
      (p : Participant World) (e : Option String) (fs : List Failure)
      → note p e fs ≡ reported p.name e ++ fs
  note-reported p none fs = refl
  note-reported p (some e) fs = refl

  note-append :
      (p : Participant World) (e : Option String) (fs gs : List Failure)
      → note p e (fs ++ gs) ≡ note p e fs ++ gs
  note-append p none fs gs = refl
  note-append p (some e) fs gs = refl

  reset_all-Passes :
      (before : List (Participant World)) (p : Participant World) (after : List (Participant World))
      (world : World)
      → Passes before p after world
  unfolding reset_all
  reset_all-Passes [] p after world =
      (refl, note-reported p (p.reset world).1 (reset_all after (p.reset world).0).1)
  reset_all-Passes (q ∷ before) p after world =
      let (w, f) = reset_all-Passes before p after (q.reset world).0 in
      let first = reset_all before (q.reset world).0 in
      let one = p.reset first.0 in
      let rest = reported p.name one.1 ++ (reset_all after one.0).1 in
      (w, ap (note q (q.reset world).1) f ∙ note-append q (q.reset world).1 first.1 rest)

  -- Whatever participants come before and after one, at a disconnect it is reset on what those before
  -- it left, raised or not; if it raises, just that error is reported, under its name, between the
  -- failures of the others, and otherwise nothing of it is; those after it are reset, on what it
  -- left, in either case; and the epoch is completed once.
  pub resets_everyone :
      (before : List (Participant World)) (p : Participant World) (after : List (Participant World))
      (epoch : ℕ) (world : World)
      → let first = reset_after_disconnect before epoch world in
        let one = p.reset first.1 in
        let last = reset_after_disconnect after epoch one.0 in
        let all = reset_after_disconnect (before ++ p ∷ after) epoch world in
        (all.0 ≡ epoch + 1)
        × (all.1 ≡ last.1)
        × (all.2 ≡ first.2 ++ (reported p.name one.1 ++ last.2))
  unfolding reset_after_disconnect
  resets_everyone before p after epoch world =
      let (w, f) = reset_all-Passes before p after world in (refl, w, f)
