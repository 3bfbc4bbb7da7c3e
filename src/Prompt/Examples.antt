-- ===== src/Prompt/Examples.antt =====
-- Edits of a text with two marked words (rodex/protocol_input_text.py).
use codex_tmux_session_manag.Common.{ℕ, ◌≡◌, refl, some, [], ◌∷◌, false}
use codex_tmux_session_manag.Common.Json.{Value, int, obj, Items, no_items, item, field, end}
use codex_tmux_session_manag.Prompt.{Text, Edit, apply_text_edits}
use codex_tmux_session_manag.Prompt.Elements.{pointed_in, Sublist}
use codex_tmux_session_manag.Prompt.Edits.{apply_text_edits-Sublist}

abbrev marked : ℕ → ℕ → Value
marked left right = obj (
    field "byteRange" (obj (field "start" (int false left) (field "end" (int false right) end)))
      end)

-- "ab cd", with both words marked
abbrev words : Text
words = 97 ∷ 98 ∷ 32 ∷ 99 ∷ 100 ∷ []

abbrev marks : Items
marks = item (marked 0 2) (item (marked 3 5) no_items)

-- the space becomes an e with an acute accent, which is two bytes
abbrev widen : Edit
widen = record { start = 2; end = 3; replacement = 233 ∷ [] }

abbrev widened : Text
widened = 97 ∷ 98 ∷ 233 ∷ 99 ∷ 100 ∷ []

apply_widen :
    apply_text_edits (widen ∷ []) words (some marks)
    ≡ some (widened, some (item (marked 0 2) (item (marked 4 6) no_items)))
unfolding apply_text_edits
apply_widen = refl

apply_text_edits-Sublist_example :
    Sublist
      (pointed_in widened (some (item (marked 0 2) (item (marked 4 6) no_items))))
      (pointed_in words (some marks))
apply_text_edits-Sublist_example =
    apply_text_edits-Sublist (widen ∷ []) words (some marks) widened
      (some (item (marked 0 2) (item (marked 4 6) no_items))) apply_widen
