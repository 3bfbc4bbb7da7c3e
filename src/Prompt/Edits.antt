-- ===== src/Prompt/Edits.antt =====
-- The elements of a text over the edits of a hook (rodex/protocol_input_text.py).
use mathlib.Core.Path.{subst}
use codex_tmux_session_manag.Common.{
  ℕ, ◌+◌, ◌≤◌, ◌≡◌, ◌∙◌, refl, sym, ap, Bool, true, false, not, ◌&&◌, ◌||◌, Option, none, some,
  List, [], ◌∷◌, ◌++◌, length, take, drop, length-append, arith, both, leb, if_intro,
}
use codex_tmux_session_manag.Common.Json.{Value, Items, no_items, item}
use codex_tmux_session_manag.Prompt.{
  Text, Bytes, encode, Edit, slice, rebase_one, and_item, rebase_elements, edited, rebased,
  apply_edit, apply_text_edits, has_elements, has_surrogate, same_text, then_edit,
}
use codex_tmux_session_manag.Prompt.Slices.{append_assoc, three_parts, take-split, encode-append}
use codex_tmux_session_manag.Prompt.Elements.{
  pointed, and_bytes, all_pointed, pointed_in, Sublist, nothing, keep, skip, source, target,
  rebase_one-pointed, le_of,
}

module _ {ℓ} {A : Type ℓ} where
  Sublist-refl : (xs : List A) → Sublist xs xs
  Sublist-refl [] = nothing
  Sublist-refl (x ∷ xs) = keep (Sublist-refl xs)

  Sublist-trans : {ys zs : List A} → Sublist ys zs → (xs : List A) → Sublist xs ys → Sublist xs zs
  Sublist-trans nothing xs h = h
  Sublist-trans (skip k) xs h = skip (Sublist-trans k xs h)
  Sublist-trans (keep k) (x ∷ xs) (keep h) = keep (Sublist-trans k xs h)
  Sublist-trans (keep k) xs (skip h) = skip (Sublist-trans k xs h)

kept :
    (o : Option Bytes) {xs ys : List Bytes}
    → Sublist xs ys
    → Sublist (and_bytes o xs) (and_bytes o ys)
kept none h = h
kept (some b) h = keep h

dropped : (o : Option Bytes) {xs ys : List Bytes} → Sublist xs ys → Sublist xs (and_bytes o ys)
dropped none h = h
dropped (some b) h = skip h

module _ (before old new rest : Bytes) where
  abbrev moved_all : Items → Items
  moved_all elements =
      rebase_elements (length before) (length before + length old) (length new)
        (length (source before old new rest)) elements

  -- The elements that an edit leaves point at what they pointed at.
  rebase_elements-Sublist :
      (elements : Items)
      → Sublist
          (all_pointed (target before old new rest) (moved_all elements))
          (all_pointed (source before old new rest) elements)
  unfolding rebase_elements
  rebase_elements-Sublist no_items = nothing
  rebase_elements-Sublist (item v elements) =
      by_one
        (rebase_one (length before) (length before + length old) (length new)
          (length (source before old new rest)) v)
        refl (rebase_elements-Sublist elements)
    where
      by_one :
          (o : Option Value)
          → rebase_one
              (length before)
              (length before + length old)
              (length new)
              (length (source before old new rest))
              v
            ≡ o
          → Sublist
              (all_pointed (target before old new rest) (moved_all elements))
              (all_pointed (source before old new rest) elements)
          → Sublist (all_pointed (target before old new rest) (and_item o (moved_all elements))) (
              and_bytes
                (pointed (source before old new rest) v)
                (all_pointed (source before old new rest) elements))
      by_one none q h = dropped (pointed (source before old new rest) v) h
      by_one (some v') q h =
          rw (rebase_one-pointed before old new rest v v' q)
            (kept (pointed (source before old new rest) v) h)

rebased-Sublist :
    (e : Edit) (text : Text) (elements : Option Items)
    → e.start ≤ e.end
    → Sublist (pointed_in (edited e text) (rebased e text elements)) (pointed_in text elements)
rebased-Sublist e text none h = nothing
rebased-Sublist e text (some elements) h =
    let before = encode (take e.start text) in
    let old = encode (slice e.start e.end text) in
    let new = encode e.replacement in
    let rest = encode (drop e.end text) in
    let whole : encode text ≡ source before old new rest =
      ap encode (sym (three_parts e.start e.end text h))
      ∙ encode-append (take e.start text) (slice e.start e.end text ++ drop e.end text)
      ∙ ap (λ r. before ++ r) (encode-append (slice e.start e.end text) (drop e.end text)) in
    let after : encode (edited e text) ≡ target before old new rest =
      encode-append (take e.start text ++ e.replacement) (drop e.end text)
      ∙ ap (λ r. r ++ rest) (encode-append (take e.start text) e.replacement)
      ∙ append_assoc before new rest in
    let place : length (encode (take e.end text)) ≡ length before + length old =
      ap (λ t. length (encode t)) (take-split e.start e.end text h)
      ∙ ap length (encode-append (take e.start text) (slice e.start e.end text))
      ∙ length-append before old in
    subst
      (λ (p : Bytes × Bytes × ℕ).
        Sublist
          (all_pointed p.0 (rebase_elements (length before) p.2 (length new) (length p.1) elements))
          (all_pointed p.1 elements))
      (λ i. (sym after i, sym whole i, sym place i))
      (rebase_elements-Sublist before old new rest elements)

unrefuted : {b : Bool} → not b ≡ false → b ≡ true
unrefuted h = ground arith

Edited : Text → Option Items → Option (Text × Option Items) → Type 0
Edited text elements none = Unit
Edited text elements (some (text', elements')) =
    Sublist (pointed_in text' elements') (pointed_in text elements)

apply_edit-Edited :
    (e : Edit) (text : Text) (elements : Option Items)
    → Edited text elements (apply_edit e text elements)
unfolding apply_edit Edited
apply_edit-Edited e text elements =
    if_intro (Edited text elements) (not (leb e.start e.end && leb e.end (length text))) _ _
      (λ _. tt)
      (λ fits.
        if_intro (Edited text elements) (same_text (slice e.start e.end text) e.replacement) _ _
          (λ _. Sublist-refl (pointed_in text elements))
          (λ _.
            if_intro (Edited text elements)
              (has_elements elements && (has_surrogate text || has_surrogate e.replacement)) _ _
              (λ _. tt)
              (λ _.
                rebased-Sublist e text elements
                  (le_of ((both {a = leb e.start e.end} (unrefuted fits)).0)))))

then_edit-Edited :
    (text : Text) (elements : Option Items) (o : Option (Text × Option Items))
    (f : Text → Option Items → Option (Text × Option Items))
    → Edited text elements o
    → ((t : Text) (els : Option Items) → Edited t els (f t els))
    → Edited text elements (then_edit o f)
unfolding Edited
then_edit-Edited text elements none f h k = tt
then_edit-Edited text elements (some (t, els)) f h k = by_result (f t els) (k t els)
  where
    by_result : (o : Option (Text × Option Items)) → Edited t els o → Edited text elements o
    by_result none k' = tt
    by_result (some (u, last)) k' = Sublist-trans h (pointed_in u last) k'

apply_text_edits-Edited :
    (es : List Edit) (text : Text) (elements : Option Items)
    → Edited text elements (apply_text_edits es text elements)
unfolding apply_text_edits Edited
apply_text_edits-Edited [] text elements = Sublist-refl (pointed_in text elements)
apply_text_edits-Edited (e ∷ es) text elements =
    then_edit-Edited text elements (apply_edit e text elements) (λ t els. apply_text_edits es t els)
      (apply_edit-Edited e text elements) (λ t els. apply_text_edits-Edited es t els)

-- After any edits that are accepted, the elements that remain point, in their order, at bytes of the
-- new text that elements of the old text pointed at, in the same order: an edit moves an element with
-- the text that it marks, or removes it.
pub apply_text_edits-Sublist :
    (es : List Edit) (text : Text) (elements : Option Items) (text' : Text)
    (elements' : Option Items)
    → apply_text_edits es text elements ≡ some (text', elements')
    → Sublist (pointed_in text' elements') (pointed_in text elements)
unfolding Edited
apply_text_edits-Sublist es text elements text' elements' h =
    subst (Edited text elements) h (apply_text_edits-Edited es text elements)
