-- ===== src/Pipeline/Structure.antt =====
-- interaction_pipeline.py, _protocol_structure: when two payloads are the same but for their texts.
-- The code builds what is left of each without its texts and compares the two; here the two decoded
-- values are compared at once. Python compares dicts without regard to their order, a decoded object
-- has each name once, and the scalars with their types.
use codex_tmux_session_manag.Common.{
  ℕ, suc, String, Bool, true, false, not, ◌&&◌, ◌||◌, Option, none, some, ◌==◌, nat_eq, string_eq,
  if◌then◌else◌,
}
use codex_tmux_session_manag.Common.Json.{
  Value, null, bool, int, float, str, arr, obj, Items, no_items, item, Fields, end, field, get,
}
use codex_tmux_session_manag.Pipeline.{Payload, text_payload, bytes_payload}

abbrev pub same_bool : Bool → Bool → Bool
same_bool true b = b
same_bool false b = not b

abbrev is_zero : ℕ → Bool
is_zero bits = bits == 0 || bits == 9223372036854775808

-- key in {"text", "delta", "message"}
abbrev pub is_text_key : String → Bool
is_text_key name = name == "text" || name == "delta" || name == "message"

abbrev pub is_text_leaf : String → Value → Bool
is_text_leaf name (str text) = is_text_key name
is_text_leaf name value = false

abbrev pub count_fields : Fields → ℕ
count_fields end = 0
count_fields (field name value rest) = suc (count_fields rest)

-- The entry of one name, where the values themselves are compared by `same`.
abbrev pub same_field : String → Value → (Value → Bool) → Option Value → Bool
same_field name value same none = false
same_field name value same (some other) =
    if is_text_leaf name value
    then is_text_leaf name other
    else not (is_text_leaf name other) && same other

unfoldable mutual
  unfolding get

  pub same_value : Value → Value → Bool
  same_value null null = true
  same_value (bool a) (bool b) = same_bool a b
  same_value (int s a) (int t b) = same_bool s t && a == b
  same_value (float a) (float b) = a == b || (is_zero a && is_zero b)
  same_value (str a) (str b) = a == b
  same_value (obj a) (obj b) = count_fields a == count_fields b && same_fields a b
  same_value (arr a) (arr b) = same_items a b
  same_value _ _ = false

  pub same_fields : Fields → Fields → Bool
  same_fields end b = true
  same_fields (field name value rest) b =
      same_field name value (λ w. same_value value w) (get name b) && same_fields rest b

  pub same_items : Items → Items → Bool
  same_items no_items no_items = true
  same_items (item a as') (item b bs) = same_value a b && same_items as' bs
  same_items _ _ = false

abbrev pub same_payload : Payload → Payload → Bool
same_payload (text_payload a) (text_payload b) = a == b
same_payload (bytes_payload a) (bytes_payload b) = a == b
same_payload _ _ = false

abbrev pub same_raw : Option Payload → Option Payload → Bool
same_raw (some a) (some b) = same_payload a b
same_raw none none = true
same_raw _ _ = false

module _ (decode : Payload → Option Value) where
  -- no payload is decoded as None
  abbrev pub decoded : Option Payload → Option Value
  decoded none = some null
  decoded (some payload) = decode payload

  abbrev pub same_decoded : Option Value → Option Value → Bool → Bool
  same_decoded (some a) (some b) raw = same_value a b
  same_decoded none none raw = raw
  same_decoded _ _ raw = false

  -- _protocol_structure(a) == _protocol_structure(b)
  unfoldable pub same_structure : Option Payload → Option Payload → Bool
  unfolding same_value
  same_structure a b = same_decoded (decoded a) (decoded b) (same_raw a b)
