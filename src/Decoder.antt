-- ===== src/Decoder.antt =====
-- rodex/terminal_input.py: the framing of TerminalInputDecoder.feed. A byte is a number; Python's
-- UTF-8 codec is a parameter. An escape frame is what _decode_escape_sequence goes on with.
mod Lossless
mod Examples
use codex_tmux_session_manag.Common.{
  ℕ, zero, suc, ◌+◌, ◌-◌, String, Bool, true, false, not, ◌&&◌, ◌||◌, Option, none, some, List, [],
  ◌∷◌, ◌==◌, nat_eq, ◌++◌, if◌then◌else◌, length, drop, take, ltb, leb, min, get_elem?,
}

abbrev pub Bytes : Type 0
Bytes = List ℕ

abbrev pub paste_start : Bytes
paste_start = 27 ∷ 91 ∷ 50 ∷ 48 ∷ 48 ∷ 126 ∷ []

abbrev pub paste_end : Bytes
paste_end = 27 ∷ 91 ∷ 50 ∷ 48 ∷ 49 ∷ 126 ∷ []

abbrev pub max_local_draft_bytes : ℕ
max_local_draft_bytes = 65536

pub data Kind : Type 0 where
  terminal_reply opaque_paste paste control opaque escape text_frame : Kind

pub record Event : Type 0 where
  pub kind : Kind
  pub raw : Bytes
  pub text : String

pub record Decoder : Type 0 where
  pub pending : Bytes
  pub streaming_paste : Bool
  pub streaming_reply : Bool

abbrev pub fresh_decoder : Decoder
fresh_decoder = record { pending = []; streaming_paste = false; streaming_reply = false }

-- bytes.startswith(prefix)
unfoldable pub starts_with : Bytes → Bytes → Bool
starts_with bytes [] = true
starts_with [] (p ∷ ps) = false
starts_with (b ∷ bs) (p ∷ ps) = b == p && starts_with bs ps

abbrev later : Option ℕ → Option ℕ
later none = none
later (some n) = some (n + 1)

-- bytes.find(marker), where there is one
unfoldable pub position_of : Bytes → Bytes → Option ℕ
unfolding starts_with
position_of [] marker = none
position_of (b ∷ bs) marker =
    let rest = position_of bs marker in if starts_with (b ∷ bs) marker then some 0 else later rest

-- next(index for index in range(start, len(pending)) if 0x40 <= pending[index] <= 0x7E)
unfoldable pub final_from : ℕ → Bytes → Option ℕ
final_from index [] = none
final_from index (b ∷ bs) =
    let rest = final_from (index + 1) bs in if leb 64 b && leb b 126 then some index else rest

-- What one round of the loop does with the pending bytes: it breaks; it cuts a frame off and
-- breaks, or goes on; the flags are streaming_paste and streaming_reply afterwards.
pub data Round : Type 0 where
  wait : Round
  cut_and_wait : Kind → ℕ → Bool → Bool → Round
  cut : Kind → String → ℕ → Bool → Bool → Round

abbrev pub is_reply_start : Bytes → Bool
is_reply_start pending =
    starts_with pending (27 ∷ 93 ∷ [])
    || starts_with pending (27 ∷ 80 ∷ [])
    || starts_with pending (27 ∷ 95 ∷ [])
    || starts_with pending (27 ∷ 94 ∷ [])

-- min(terminators)
abbrev pub first_end : Option ℕ → Option ℕ → Option ℕ
first_end none none = none
first_end (some bell) none = some (bell + 1)
first_end none (some st) = some (st + 2)
first_end (some bell) (some st) = some (min (bell + 1) (st + 2))

abbrev pub reply_amount : Option ℕ → Bytes → Bool → Bool → Round
reply_amount (some amount) pending in_paste in_reply = cut terminal_reply "" amount in_paste false
reply_amount none pending in_paste in_reply =
    if ltb max_local_draft_bytes (length pending)
    then cut_and_wait terminal_reply (length pending - 1) in_paste true
    else wait

abbrev pub reply_round : Bytes → Bool → Bool → Round
reply_round pending in_paste in_reply =
    reply_amount (first_end (position_of pending (7 ∷ [])) (position_of pending (27 ∷ 92 ∷ [])))
      pending in_paste in_reply

abbrev pub pasted : Option String → ℕ → Bool → Round
pasted none amount in_reply = cut opaque_paste "" amount false in_reply
pasted (some content) amount in_reply = cut paste content amount false in_reply

abbrev pub sequence_to : Option ℕ → Bytes → Bool → Bool → Round
sequence_to (some final) pending in_paste in_reply = cut escape "" (final + 1) in_paste in_reply
sequence_to none pending in_paste in_reply =
    if ltb max_local_draft_bytes (length pending)
    then cut_and_wait opaque (length pending) in_paste in_reply
    else wait

-- pending[0] == 27
abbrev pub escape_round : Bytes → Bool → Bool → Round
escape_round (e ∷ second ∷ rest) in_paste in_reply =
    if second == 27
    then cut control "" 1 in_paste in_reply
    else if starts_with paste_start (e ∷ second ∷ rest)
    then wait
    else if second == 91 || second == 79
    then sequence_to (final_from 2 rest) (e ∷ second ∷ rest) in_paste in_reply
    else cut escape "" 2 in_paste in_reply
escape_round _ in_paste in_reply = wait

-- how many bytes a character takes, by its first
abbrev pub width : ℕ → ℕ
width b =
    if leb 194 b && leb b 223
    then 2
    else if leb 224 b && leb b 239
    then 3
    else if leb 240 b && leb b 244
    then 4
    else 1

abbrev pub decoded : Option String → ℕ → Bool → Bool → Round
decoded none amount in_paste in_reply = cut opaque "" 1 in_paste in_reply
decoded (some content) amount in_paste in_reply = cut text_frame content amount in_paste in_reply

abbrev pub cut_off : ℕ → Bool → Bool → Decoder → Decoder
cut_off amount in_paste in_reply d = record {
  pending = drop amount d.pending;
  streaming_paste = in_paste;
  streaming_reply = in_reply;
}

abbrev pub event_of : Kind → String → ℕ → Decoder → Event
event_of kind content amount d = record { kind = kind; raw = take amount d.pending; text = content }

abbrev pub after_first : Event → Option (List Event × Decoder) → Option (List Event × Decoder)
after_first event none = none
after_first event (some (events, d)) = some (event ∷ events, d)

module _ (decode : Bytes → Option String) where
  abbrev pub paste_at : Option ℕ → Bytes → Bool → Bool → Round
  paste_at none pending in_paste in_reply =
      if ltb max_local_draft_bytes (length pending)
      then cut_and_wait opaque_paste (length pending - length paste_end) true in_reply
      else wait
  paste_at (some end) pending in_paste in_reply =
      if in_paste
      then cut opaque_paste "" (end + length paste_end) false in_reply
      else pasted (decode (drop (length paste_start) (take end pending))) (end + length paste_end)
          in_reply

  abbrev pub text_round : Bytes → ℕ → Bool → Bool → Round
  text_round pending amount in_paste in_reply =
      if ltb (length pending) amount
      then wait
      else decoded (decode (take amount pending)) amount in_paste in_reply

  abbrev pub key_round : Bytes → Bool → Bool → Round
  key_round [] in_paste in_reply = wait
  key_round (b ∷ bs) in_paste in_reply =
      if b == 27
      then escape_round (b ∷ bs) in_paste in_reply
      else if ltb b 32 || b == 127
      then cut control "" 1 in_paste in_reply
      else text_round (b ∷ bs) (width b) in_paste in_reply

  -- one round of the `while` of feed
  unfoldable pub round : Decoder → Round
  round d =
      if not d.streaming_paste && (d.streaming_reply || is_reply_start d.pending)
      then reply_round d.pending d.streaming_paste d.streaming_reply
      else if d.streaming_paste || starts_with d.pending paste_start
      then paste_at (position_of d.pending paste_end) d.pending d.streaming_paste d.streaming_reply
      else key_round d.pending d.streaming_paste d.streaming_reply

  -- The loop on fuel; `none` means that the fuel ran out.
  unfoldable pub frames : ℕ → Decoder → Option (List Event × Decoder)
  frames zero d = elim d.pending [ [] ↦ some ([], d) | _ ↦ none ]
  frames (suc fuel) d = elim d.pending [
    | [] ↦ some ([], d)
    | _ ↦ elim (round d) [
      | wait ↦ some ([], d)
      | cut_and_wait kind amount in_paste in_reply ↦
          some (event_of kind "" amount d ∷ [], cut_off amount in_paste in_reply d)
      | cut kind content amount in_paste in_reply ↦
          after_first (event_of kind content amount d)
            (frames fuel (cut_off amount in_paste in_reply d))
    ]
  ]

  -- feed, with as many rounds as there are bytes
  unfoldable pub feed : Bytes → Decoder → Option (List Event × Decoder)
  feed bytes d =
      let pending = d.pending ++ bytes in frames (length pending) (record d { pending = pending })
