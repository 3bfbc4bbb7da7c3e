-- ===== src/Prompt.antt =====
-- rodex/protocol_input_text.py: the edits of a submitted text, and the elements of a user interface that
-- point into it by byte ranges. A text is the list of its code points, as Python indexes it. An edit's
-- positions are natural numbers; a negative one is refused by the code.
pub mod Slices
mod Elements
mod Edits
mod Examples
use codex_tmux_session_manag.Common.{
  ℕ, zero, suc, ◌+◌, ◌-◌, ◌/◌, ◌%◌, Bool, true, false, not, ◌&&◌, ◌||◌, Option, none, some, List,
  [], ◌∷◌, ◌++◌, ◌==◌, nat_eq, if◌then◌else◌, length, take, drop, ltb, leb,
}
use codex_tmux_session_manag.Common.Json.{
  Value, int, obj, Items, no_items, item, Fields, get, as_obj, set_field,
}

abbrev pub Text : Type 0
Text = List ℕ

abbrev pub Bytes : Type 0
Bytes = List ℕ

-- one character of str.encode("utf-8")
abbrev pub encode_char : ℕ → Bytes
encode_char c =
    if ltb c 128
    then c ∷ []
    else if ltb c 2048
    then (192 + c / 64) ∷ (128 + c % 64) ∷ []
    else if ltb c 65536
    then (224 + c / 4096) ∷ (128 + (c / 64) % 64) ∷ (128 + c % 64) ∷ []
    else (240 + c / 262144) ∷ (128 + (c / 4096) % 64) ∷ (128 + (c / 64) % 64) ∷ (128 + c % 64) ∷ []

unfoldable pub encode : Text → Bytes
encode [] = []
encode (c ∷ cs) = encode_char c ++ encode cs

-- a UnicodeError of the encoding
unfoldable pub has_surrogate : Text → Bool
has_surrogate [] = false
has_surrogate (c ∷ cs) = (leb 55296 c && leb c 57343) || has_surrogate cs

-- PromptTextEdit
pub record Edit : Type 0 where
  pub start : ℕ
  pub end : ℕ
  pub replacement : Text

-- text[start:end]
abbrev pub slice {ℓ} : {A : Type ℓ} → ℕ → ℕ → List A → List A
slice start end xs = take (end - start) (drop start xs)

unfoldable pub same_text : Text → Text → Bool
same_text [] [] = true
same_text (a ∷ as') (b ∷ bs) = a == b && same_text as' bs
same_text _ _ = false

abbrev as_position : Option Value → Option ℕ
as_position (some (int false n)) = some n
as_position _ = none

abbrev positions : Option ℕ → Option ℕ → Option (ℕ × ℕ)
positions (some left) (some right) = some (left, right)
positions _ _ = none

abbrev pub range_in : Option Fields → Option (ℕ × ℕ)
range_in none = none
range_in (some byte_range) =
    positions (as_position (get "start" byte_range)) (as_position (get "end" byte_range))

abbrev pub range_of : Fields → Option (ℕ × ℕ)
range_of element = range_in (as_obj (get "byteRange" element))

-- the range of an element within a text of so many bytes
abbrev pub within : ℕ → Option (ℕ × ℕ) → Option (ℕ × ℕ)
within count none = none
within count (some (left, right)) =
    if leb left right && leb right count then some (left, right) else none

abbrev pub element_range : ℕ → Value → Option (ℕ × ℕ)
element_range count (obj element) = within count (range_of element)
element_range count _ = none

abbrev pub with_range : ℕ → ℕ → Option Fields → Fields → Fields
with_range left right none element = element
with_range left right (some byte_range) element =
    set_field "byteRange"
      (obj (set_field "end" (int false right) (set_field "start" (int false left) byte_range)))
      element

-- element | {"byteRange": byte_range | {"start": left, "end": right}}
abbrev pub moved : ℕ → ℕ → Value → Value
moved left right (obj element) =
    obj (with_range left right (as_obj (get "byteRange" element)) element)
moved left right value = value

-- a position after an edit of the bytes from start to end
abbrev pub shifted : ℕ → ℕ → ℕ → ℕ → ℕ
shifted start end replacement_bytes position = position + replacement_bytes - (end - start)

abbrev pub rebase_at : ℕ → ℕ → ℕ → Option (ℕ × ℕ) → Value → Option Value
rebase_at start end size none element = none
rebase_at start end size (some (left, right)) element =
    if leb end left
    then some (moved (shifted start end size left) (shifted start end size right) element)
    else if leb right start
    then some element
    else none

abbrev pub rebase_one : ℕ → ℕ → ℕ → ℕ → Value → Option Value
rebase_one start end size count element =
    rebase_at start end size (element_range count element) element

abbrev pub and_item : Option Value → Items → Items
and_item none rest = rest
and_item (some value) rest = item value rest

-- _rebase_elements
unfoldable pub rebase_elements : ℕ → ℕ → ℕ → ℕ → Items → Items
unfolding get set_field
rebase_elements start end size count no_items = no_items
rebase_elements start end size count (item element rest) =
    and_item (rebase_one start end size count element) (rebase_elements start end size count rest)

abbrev pub edited : Edit → Text → Text
edited e text = take e.start text ++ e.replacement ++ drop e.end text

abbrev pub has_elements : Option Items → Bool
has_elements (some (item element rest)) = true
has_elements _ = false

abbrev pub rebased : Edit → Text → Option Items → Option Items
rebased e text none = none
rebased e text (some elements) = some (
    rebase_elements (length (encode (take e.start text))) (length (encode (take e.end text)))
      (length (encode e.replacement)) (length (encode text)) elements)

-- One round of _apply_text_edits; none is a UserPromptHookError.
unfoldable pub apply_edit : Edit → Text → Option Items → Option (Text × Option Items)
unfolding encode has_surrogate same_text rebase_elements
apply_edit e text elements =
    if not (leb e.start e.end && leb e.end (length text))
    then none
    else if same_text (slice e.start e.end text) e.replacement
    then some (text, elements)
    else if has_elements elements && (has_surrogate text || has_surrogate e.replacement)
    then none
    else some (edited e text, rebased e text elements)

abbrev pub then_edit :
    Option (Text × Option Items)
    → (Text → Option Items → Option (Text × Option Items))
    → Option (Text × Option Items)
then_edit none f = none
then_edit (some (text, elements)) f = f text elements

-- _apply_text_edits
unfoldable pub apply_text_edits : List Edit → Text → Option Items → Option (Text × Option Items)
unfolding apply_edit
apply_text_edits [] text elements = some (text, elements)
apply_text_edits (e ∷ es) text elements =
    then_edit (apply_edit e text elements) (λ t els. apply_text_edits es t els)
