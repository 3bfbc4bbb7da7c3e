-- ===== src/Decoder/Examples.antt =====
-- The framing of terminal_input.py at concrete bytes.
use codex_tmux_session_manag.Common.{
  String, ◌≡◌, refl, false, Option, none, some, List, [], ◌∷◌, ◌++◌, ◌==◌, nat_eq, if◌then◌else◌,
}
use codex_tmux_session_manag.Decoder.{
  Bytes, Event, Decoder, fresh_decoder, feed, frames, round, position_of, starts_with, final_from,
  paste_start, paste_end, paste, text_frame, escape,
}
use codex_tmux_session_manag.Decoder.Lossless.{raws, feed_lossless}

-- A codec that knows one letter.
abbrev letters : Bytes → Option String
letters (b ∷ []) = if b == 97 then some "a" else none
letters _ = none

-- An arrow key, a pasted letter, a typed one, and the start of another arrow key.
abbrev typed : Bytes
typed = 27 ∷ 91 ∷ 65 ∷ (paste_start ++ (97 ∷ (paste_end ++ (97 ∷ 27 ∷ 91 ∷ []))))

typed_frames :
    feed letters typed fresh_decoder
    ≡ some (
      record { kind = escape; raw = 27 ∷ 91 ∷ 65 ∷ []; text = "" }
          ∷ record { kind = paste; raw = paste_start ++ (97 ∷ paste_end); text = "a" }
          ∷ record { kind = text_frame; raw = 97 ∷ []; text = "a" }
          ∷ [],
      record { pending = 27 ∷ 91 ∷ []; streaming_paste = false; streaming_reply = false },
    )
unfolding feed frames round starts_with final_from position_of
typed_frames = refl

feed_lossless_example :
    (events : List Event) × (d' : Decoder) × (feed letters typed fresh_decoder ≡ some (events, d'))
    × (raws events ++ d'.pending ≡ typed)
feed_lossless_example = feed_lossless letters typed fresh_decoder
