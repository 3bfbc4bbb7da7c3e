-- ===== src/Common/Json.antt =====
-- Decoded JSON, as Python's `json` hands it over: the values that protocol events and RPC messages
-- are made of. A float is only ever passed on, so it is named by its bit pattern.
use codex_tmux_session_manag.Common.Tests.{◌==◌, string_eq, if◌then◌else◌}
use Prim.Native.Nat.{ℕ}
use Prim.Native.String.{String}
use mathlib.Core.Bool.{Bool, false}
use mathlib.Core.Option.{Option, none, some}
use mathlib.Core.Path.{◌≡◌, refl}
use text.Mathlib.TextEquality.{eq_iff}
use native.Mathlib.Omega.{arith}

mutual
  pub data Value : Type 0 where
    null : Value
    bool : Bool → Value
    int : Bool → ℕ → Value  -- its sign (true is negative) and its size
    float : ℕ → Value
    str : String → Value
    obj : Fields → Value
    arr : Items → Value

  pub data Fields : Type 0 where
    end : Fields
    field : String → Value → Fields → Fields

  pub data Items : Type 0 where
    no_items : Items
    item : Value → Items → Items

-- fields.get(key)
unfoldable pub get : String → Fields → Option Value
get key end = none
get key (field name value rest) = if name == key then some value else get key rest

-- value if isinstance(value, Mapping) else None
abbrev pub as_obj : Option Value → Option Fields
as_obj (some (obj fields)) = some fields
as_obj _ = none

-- value if isinstance(value, str) else None
abbrev pub as_str : Option Value → Option String
as_str (some (str text)) = some text
as_str _ = none

-- value if isinstance(value, str) and value else None
abbrev pub as_nonempty_str : Option Value → Option String
as_nonempty_str (some (str text)) = if text == "" then none else some text
as_nonempty_str _ = none

-- `mapping.get(key)`, the mapping itself possibly absent
abbrev pub get_in : Option Fields → String → Option Value
get_in none key = none
get_in (some fields) key = get key fields

-- `value == text`, for a text on the right
abbrev pub is_str : Option Value → String → Bool
is_str (some (str value)) text = value == text
is_str _ text = false

-- {**fields, name: value}
unfoldable pub set_field : String → Value → Fields → Fields
set_field name value end = field name value end
set_field name value (field other old rest) =
    let more = set_field name value rest in
    if other == name then field name value rest else field other old more

pub get-set_field :
    (name key : String) (value : Value) (fields : Fields)
    → get key (set_field name value fields) ≡ (if name == key then some value else get key fields)
unfolding get set_field
get-set_field name key value end = refl
get-set_field name key value (field other old rest) =
    ground (
      arith,
      get-set_field name key value rest,
      eq_iff other name,
      eq_iff other key,
      eq_iff name key,
    )
