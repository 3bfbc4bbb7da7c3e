-- ===== src/Interceptor.antt =====
-- rodex/terminal_input.py: the interceptor, over decoded input and the menu of input_menu.py. What the
-- code asks of others (whether the native composer holds a prefix, whether the pipeline accepts a
-- request) is an effect, and so is what it forwards; the answer to a question is a function of the
-- question and of the effects before it, so it may be any whatever. A request that raises, and the
-- threads, are not modelled. Whether an expression matches a text is a parameter.
mod Handling
mod Accepting
mod Keeps
mod Guarded
mod Local
mod Runs
mod Exits
mod Examples
use Prim.Native.Char.{code}
use Prim.Native.String
use codex_tmux_session_manag.Common.{
  ℕ, zero, suc, ◌+◌, String, Bool, true, false, not, ◌&&◌, ◌||◌, Option, none, some, List, [], ◌∷◌,
  ◌==◌, nat_eq, string_eq, if◌then◌else◌, length, ltb, leb, get_elem?,
}
use codex_tmux_session_manag.Menu.{
  Registration, Choice, View, Menu, Stage, commands, arguments, selected_command, view, has_options,
}

abbrev pub Bytes : Type 0
Bytes = List ℕ

pub data Kind : Type 0 where
  reply text paste control navigation other : Kind

-- TerminalInputEvent
pub record Input : Type 0 where
  pub kind : Kind
  pub raw : Bytes
  pub text : String

abbrev is_end : String → Bool
is_end String.[] = true
is_end (String.◌∷◌ c s) = false

abbrev pub is_char : ℕ → String → Bool
is_char n String.[] = false
is_char n (String.◌∷◌ c s) = code c == n && is_end s

abbrev is_byte : ℕ → Bytes → Bool
is_byte n (b ∷ []) = b == n
is_byte n _ = false

abbrev is_control : Kind → Bool
is_control control = true
is_control _ = false

-- event.key == bytes([n]), for an ASCII control n
abbrev pub key_is : ℕ → Input → Bool
key_is n e = if is_control e.kind && not (is_end e.text) then is_char n e.text else is_byte n e.raw

abbrev pub is_enter : Input → Bool
is_enter e = key_is 13 e || key_is 10 e

abbrev pub is_backspace : Input → Bool
is_backspace e = key_is 127 e || key_is 8 e

-- draft + text
unfoldable pub append : String → String → String
append String.[] t = t
append (String.◌∷◌ c s) t = String.◌∷◌ c (append s t)

abbrev unless_last : Bool → String → String
unless_last last s = if last then "" else s

-- draft[:-1]
unfoldable pub drop_last : String → String
drop_last String.[] = ""
drop_last (String.◌∷◌ c s) = let rest = String.◌∷◌ c (drop_last s) in unless_last (is_end s) rest

-- draft[len(prefix):]
unfoldable pub after : String → String → String
after String.[] s = s
after (String.◌∷◌ c p) String.[] = ""
after (String.◌∷◌ c p) (String.◌∷◌ d s) = after p s

abbrev width : ℕ → ℕ
width n = if ltb n 128 then 1 else if ltb n 2048 then 2 else if ltb n 65536 then 3 else 4

-- len(draft.encode())
unfoldable pub utf8_length : String → ℕ
utf8_length String.[] = 0
utf8_length (String.◌∷◌ c s) = width (code c) + utf8_length s

-- len(draft)
unfoldable pub count_chars : String → ℕ
count_chars String.[] = 0
count_chars (String.◌∷◌ c s) = suc (count_chars s)

abbrev pub max_local_draft_bytes : ℕ
max_local_draft_bytes = 65536

pub data Shown : Type 0 where
  interactive_input input_release : Shown

pub data Submitted : Type 0 where
  submitted_command input_configuration_error : Submitted

pub data Effect : Type 0 where
  forwards : Bytes → Effect
  pastes : String → Effect
  deletes : ℕ → Effect
  confirms : String → Effect
  shows : Shown → View → Effect
  submits : Registration → Submitted → String → Effect

-- The interceptor, and the effects so far, the newest first.
pub record Session : Type 0 where
  pub candidate : String
  pub menu : Option Menu
  pub forwarded_prefix : String
  pub discard_paired_lf : Bool
  pub log : List Effect

abbrev pub new_session : Session
new_session = record {
  candidate = "";
  menu = none;
  forwarded_prefix = "";
  discard_paired_lf = false;
  log = [];
}

abbrev pub emit : Effect → Session → Session
emit e s = record s { log = e ∷ s.log }

-- a result with the session, or an exception
abbrev pub Outcome : Type 0
Outcome = Option (Bool × Session)

abbrev pub then_ : Outcome → (Bool → Session → Option Session) → Option Session
then_ none f = none
then_ (some (b, s)) f = f b s
