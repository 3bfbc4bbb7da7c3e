-- ===== src/Decoder/Lossless.antt =====
-- What the framing of terminal_input.py does with the bytes that it is fed.
use codex_tmux_session_manag.Common.{
  ℕ, zero, suc, ◌+◌, ◌<◌, ◌≤◌, String, ◌≡◌, ◌∙◌, refl, ap, Bool, not, ◌&&◌, ◌||◌, Option, none,
  some, List, [], ◌∷◌, ◌==◌, nat_eq, ◌++◌, length, drop, take, ltb, arith, if_intro,
  take-append-drop, length-drop,
}
use codex_tmux_session_manag.Decoder.{
  Bytes, Event, Decoder, Round, wait, cut_and_wait, cut, position_of, first_end, reply_amount,
  pasted, decoded, paste_at, sequence_to, escape_round, width, key_round, round, cut_off, event_of,
  after_first, frames, feed, final_from, is_reply_start, starts_with, paste_start, paste_end,
  max_local_draft_bytes,
}

-- A frame that the loop goes on after has a byte at least.
abbrev Cuts : Round → Type 0
Cuts wait = Unit
Cuts (cut_and_wait kind amount p r) = Unit
Cuts (cut kind content amount p r) = 0 < amount

reply_amount-Cuts :
    (bell st : Option ℕ) (pending : Bytes) (p r : Bool)
    → Cuts (reply_amount (first_end bell st) pending p r)
reply_amount-Cuts none none pending p r =
    if_intro Cuts (ltb max_local_draft_bytes (length pending)) _ _ (λ _. tt) (λ _. tt)
reply_amount-Cuts (some b) none pending p r = omega arith
reply_amount-Cuts none (some s) pending p r = omega arith
reply_amount-Cuts (some b) (some s) pending p r = omega arith

pasted-Cuts :
    (content : Option String) (amount : ℕ) (r : Bool) → 0 < amount → Cuts (pasted content amount r)
pasted-Cuts none amount r h = h
pasted-Cuts (some content) amount r h = h

decoded-Cuts :
    (content : Option String) (amount : ℕ) (p r : Bool)
    → 0 < amount
    → Cuts (decoded content amount p r)
decoded-Cuts none amount p r h = omega arith
decoded-Cuts (some content) amount p r h = h

width-positive : (b : ℕ) → 0 < width b
width-positive b = ground arith

sequence_to-Cuts :
    (final : Option ℕ) (pending : Bytes) (p r : Bool) → Cuts (sequence_to final pending p r)
sequence_to-Cuts none pending p r =
    if_intro Cuts (ltb max_local_draft_bytes (length pending)) _ _ (λ _. tt) (λ _. tt)
sequence_to-Cuts (some final) pending p r = omega arith

escape_round-Cuts : (pending : Bytes) (p r : Bool) → Cuts (escape_round pending p r)
escape_round-Cuts [] p r = tt
escape_round-Cuts (e ∷ []) p r = tt
escape_round-Cuts (e ∷ second ∷ rest) p r =
    if_intro Cuts (second == 27) _ _ (λ _. omega arith)
      (λ _.
        if_intro Cuts (starts_with paste_start (e ∷ second ∷ rest)) _ _ (λ _. tt)
          (λ _.
            if_intro Cuts (second == 91 || second == 79) _ _
              (λ _. sequence_to-Cuts (final_from 2 rest) (e ∷ second ∷ rest) p r)
              (λ _. omega arith)))

module _ (decode : Bytes → Option String) where
  paste_at-Cuts :
      (end : Option ℕ) (pending : Bytes) (p r : Bool) → Cuts (paste_at decode end pending p r)
  paste_at-Cuts none pending p r =
      if_intro Cuts (ltb max_local_draft_bytes (length pending)) _ _ (λ _. tt) (λ _. tt)
  paste_at-Cuts (some end) pending p r =
      if_intro Cuts p _ _ (λ _. omega arith) (λ _. pasted-Cuts _ (end + 6) r (omega arith))

  key_round-Cuts : (pending : Bytes) (p r : Bool) → Cuts (key_round decode pending p r)
  key_round-Cuts [] p r = tt
  key_round-Cuts (b ∷ bs) p r =
      if_intro Cuts (b == 27) _ _ (λ _. escape_round-Cuts (b ∷ bs) p r)
        (λ _.
          if_intro Cuts (ltb b 32 || b == 127) _ _ (λ _. omega arith)
            (λ _.
              if_intro Cuts (ltb (length (b ∷ bs)) (width b)) _ _ (λ _. tt)
                (λ _.
                  decoded-Cuts (decode (take (width b) (b ∷ bs))) (width b) p r
                    (width-positive b))))

  round-Cuts : (d : Decoder) → Cuts (round decode d)
  unfolding round
  round-Cuts d =
      if_intro Cuts (not d.streaming_paste && (d.streaming_reply || is_reply_start d.pending)) _ _
        (λ _. reply_amount-Cuts _ _ d.pending d.streaming_paste d.streaming_reply)
        (λ _.
          if_intro Cuts (d.streaming_paste || starts_with d.pending paste_start) _ _
            (λ _.
              paste_at-Cuts (position_of d.pending paste_end) d.pending d.streaming_paste
                d.streaming_reply)
            (λ _. key_round-Cuts d.pending d.streaming_paste d.streaming_reply))

-- The bytes that the frames were cut from.
unfoldable pub raws : List Event → Bytes
raws [] = []
raws (event ∷ events) = event.raw ++ raws events

append_assoc : (xs ys zs : Bytes) → (xs ++ ys) ++ zs ≡ xs ++ (ys ++ zs)
append_assoc [] ys zs = refl
append_assoc (x ∷ xs) ys zs = rw (append_assoc xs ys zs)

-- What a finished loop returns: frames and a rest that are cut from the pending bytes.
abbrev pub Keeps : Bytes → Option (List Event × Decoder) → Type 0
Keeps pending none = ⊥
Keeps pending (some (events, d)) = raws events ++ d.pending ≡ pending

after_first-Keeps :
    (event : Event) (pending rest : Bytes) (more : Option (List Event × Decoder))
    → event.raw ++ rest ≡ pending
    → Keeps rest more
    → Keeps pending (after_first event more)
unfolding raws
after_first-Keeps event pending rest none e h = elim h [ ]
after_first-Keeps event pending rest (some (events, d)) e h =
    append_assoc event.raw (raws events) d.pending ∙ ap (λ (bs : Bytes). event.raw ++ bs) h ∙ e

returned :
    (pending : Bytes) (result : Option (List Event × Decoder))
    → Keeps pending result
    → (events : List Event) × (d' : Decoder) × (result ≡ some (events, d'))
      × (raws events ++ d'.pending ≡ pending)
returned pending none h = elim h [ ]
returned pending (some (events, d)) h = (events, d, refl, h)

module _ (decode : Bytes → Option String) where
  abbrev frames_after : ℕ → Decoder → Round → Option (List Event × Decoder)
  frames_after fuel d wait = some ([], d)
  frames_after fuel d (cut_and_wait kind amount p r) =
      some (event_of kind "" amount d ∷ [], cut_off amount p r d)
  frames_after fuel d (cut kind content amount p r) =
      after_first (event_of kind content amount d) (frames decode fuel (cut_off amount p r d))

  frames_after-Keeps :
      (fuel : ℕ) (d : Decoder) (round' : Round)
      → length d.pending ≤ suc fuel
      → Cuts round'
      → ((d' : Decoder) → length d'.pending ≤ fuel → Keeps d'.pending (frames decode fuel d'))
      → Keeps d.pending (frames_after fuel d round')
  unfolding raws
  frames_after-Keeps fuel d wait l c enough = refl
  frames_after-Keeps fuel d (cut_and_wait kind amount p r) l c enough =
      append_assoc (take amount d.pending) [] (drop amount d.pending)
      ∙ take-append-drop amount d.pending
  frames_after-Keeps fuel d (cut kind content amount p r) l c enough =
      after_first-Keeps (event_of kind content amount d) d.pending (drop amount d.pending)
        (frames decode fuel (cut_off amount p r d)) (take-append-drop amount d.pending)
        (enough (cut_off amount p r d) (omega (arith, length-drop amount d.pending)))

  frames-Keeps :
      (fuel : ℕ) (d : Decoder) → length d.pending ≤ fuel → Keeps d.pending (frames decode fuel d)
  unfolding frames raws
  frames-Keeps zero d l = none_left d.pending l
    where
      none_left :
          (p : Bytes) → length p ≤ 0 → Keeps d.pending (elim p [ [] ↦ some ([], d) | _ ↦ none ])
      none_left [] h = refl
      none_left (b ∷ bs) h = absurd (omega arith)
  frames-Keeps (suc fuel) d l = by_pending d.pending (λ d' l'. frames-Keeps fuel d' l')
    where
      by_pending :
          (p : Bytes)
          → ((d' : Decoder) → length d'.pending ≤ fuel → Keeps d'.pending (frames decode fuel d'))
          → Keeps d.pending
              (elim p [ [] ↦ some ([], d) | _ ↦ frames_after fuel d (round decode d) ])
      by_pending [] enough = refl
      by_pending (b ∷ bs) enough =
          frames_after-Keeps fuel d (round decode d) l (round-Cuts decode d) enough

  -- Whatever bytes are fed to a decoder in whatever state, the loop of the framing ends with as many
  -- rounds as there are bytes, and no byte is lost, added or moved: the bytes of the frames, in
  -- order, followed by those that stay pending, are those that were pending, followed by those fed.
  pub feed_lossless :
      (bytes : Bytes) (d : Decoder)
      → (events : List Event) × (d' : Decoder) × (feed decode bytes d ≡ some (events, d'))
        × (raws events ++ d'.pending ≡ d.pending ++ bytes)
  unfolding feed
  feed_lossless bytes d = returned (d.pending ++ bytes) _ (
      frames-Keeps (length (d.pending ++ bytes)) (record d { pending = d.pending ++ bytes })
        (omega arith))
