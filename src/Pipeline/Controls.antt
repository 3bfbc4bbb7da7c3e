-- ===== src/Pipeline/Controls.antt =====
-- What a hook of interaction_pipeline.py cannot change in a protocol payload.
use codex_tmux_session_manag.Common.{
  ℕ, String, ◌≡◌, ◌∙◌, refl, sym, ap, Bool, true, false, ◌&&◌, Option, none, some, List, [], ◌∷◌,
  ◌==◌, nat_eq, nat_beq_iff, string_eq, if◌then◌else◌, arith, eq_iff, Bool-cases, inl, inr, ◌⊎◌,
  both, other_part, if_intro, Option-cases,
}
use codex_tmux_session_manag.Common.Json.{Value, null, bool, int, str, obj, Fields, end, field, get}
use codex_tmux_session_manag.Pipeline.{
  Operation, protocol_input, protocol_output, terminal_input, terminal_output, unspecified,
  validate_request, Payload, text_payload, bytes_payload, Request,
}
use codex_tmux_session_manag.Pipeline.Hooks.{
  Fault, rejection, HookResult, raises, no_request, request, validate_transform, is_protocol,
  run_hooks, Hook, payload_ok, is_terminal, same_intent,
}
use mathlib.Core.Path.{subst}
use codex_tmux_session_manag.Pipeline.Structure.{
  decoded, same_decoded, same_structure, same_raw, same_payload, is_text_leaf, same_bool,
  same_value, same_fields, same_field,
}

-- A null, a Boolean, an integer or a text.
abbrev as_scalar : Value → Option Value
as_scalar null = some null
as_scalar (bool b) = some (bool b)
as_scalar (int sign n) = some (int sign n)
as_scalar (str text) = some (str text)
as_scalar value = none

abbrev as_fields : Value → Option Fields
as_fields (obj fields) = some fields
as_fields value = none

abbrev last_scalar : String → Option Value → Option Value
last_scalar k none = none
last_scalar k (some v) = if is_text_leaf k v then none else as_scalar v

-- The null, Boolean, integer or text that stands under a path of names, unless it is a text and the
-- last of the names is "text", "delta" or "message".
unfoldable pub control : List String → Value → Option Value
unfolding get
control [] value = none
control (k ∷ []) (obj fields) = last_scalar k (get k fields)
control (k ∷ l ∷ ks) (obj fields) = elim (get k fields) [
  | none ↦ none
  | some v ↦ control (l ∷ ks) v
]
control _ value = none

some_injective {ℓ} : {A : Type ℓ} {x y : A} → some x ≡ some y → x ≡ y
some_injective e = cc

same_fields-get :
    (k : String) (a b : Fields) (v : Value)
    → same_fields a b ≡ true
    → get k a ≡ some v
    → (same_field k v (λ w. same_value v w) (get k b) ≡ true)
unfolding same_value get
same_fields-get k end b v h e = cc
same_fields-get k (field name value rest) b v h e = elim (Bool-cases (name == k)) [
  | inl same ↦
      let there : some value ≡ some v = (rw same at e) in
      let n : name ≡ k = (eq_iff name k).0 same in
      let w : value ≡ v = some_injective there in
      sym (λ i. same_field (n i) (w i) (λ x. same_value (w i) x) (get (n i) b)) ∙ ground arith
  | inr other ↦ same_fields-get k rest b v (ground arith) (rw other at e)
]

abbrev inner : List String → Option Value → Option Value
inner ks none = none
inner ks (some v) = control ks v

same_bool-eq : (a b : Bool) → same_bool a b ≡ true → a ≡ b
same_bool-eq true b h = sym h
same_bool-eq false false h = refl
same_bool-eq false true h = cc

same_int-eq : (s t : Bool) (a b : ℕ) → same_bool s t && a == b ≡ true → int s a ≡ int t b
same_int-eq s t a b h i =
    let (signs, sizes) = both {a = same_bool s t} h in
    int (same_bool-eq s t signs i) ((nat_beq_iff a b).0 sizes i)

same_scalar : (v w t : Value) → same_value v w ≡ true → as_scalar v ≡ some t → as_scalar w ≡ some t
unfolding same_value
same_scalar null null t h e = e
same_scalar (bool a) (bool b) t h e = ap (λ x. some (bool x)) (sym (same_bool-eq a b h)) ∙ e
same_scalar (int s a) (int s' a') t h e = ap some (sym (same_int-eq s s' a a' h)) ∙ e
same_scalar (str s) (str s') t h e = ap (λ x. some (str x)) (sym ((eq_iff s s').0 h)) ∙ e
same_scalar v w t h e = cc

same_field-same :
    (k : String) (v w : Value)
    → is_text_leaf k v ≡ false
    → same_field k v (λ x. same_value v x) (some w) ≡ true
    → (is_text_leaf k w ≡ false) × (same_value v w ≡ true)
same_field-same k v w leaf h = ground arith

last_scalar-same_field :
    (k : String) (v : Value) (o : Option Value) (t : Value)
    → same_field k v (λ w. same_value v w) o ≡ true
    → last_scalar k (some v) ≡ some t
    → last_scalar k o ≡ some t
last_scalar-same_field k v none t h e = cc
last_scalar-same_field k v (some w) t h e = elim (Bool-cases (is_text_leaf k v)) [
  | inl text ↦ let bad : none ≡ some t = (rw text at e) in cc
  | inr other ↦
      let (leaf, same) = same_field-same k v w other h in
      rw leaf (same_scalar v w t same (rw other at e))
]

control-not_leaf :
    (k l : String) (ks : List String) (v t : Value)
    → control (l ∷ ks) v ≡ some t
    → is_text_leaf k v ≡ false
unfolding control
control-not_leaf k l [] (str s) t h = cc
control-not_leaf k l (m ∷ ks) (str s) t h = cc
control-not_leaf k l ks v t h = refl

inner-same_field :
    (k l : String) (ks : List String) (v : Value) (o : Option Value) (t : Value)
    → same_field k v (λ w. same_value v w) o ≡ true
    → control (l ∷ ks) v ≡ some t
    → ((w : Value) → same_value v w ≡ true → control (l ∷ ks) w ≡ some t)
    → inner (l ∷ ks) o ≡ some t
inner-same_field k l ks v none t h e next = cc
inner-same_field k l ks v (some w) t h e next =
    next w (same_field-same k v w (control-not_leaf k l ks v t e) h).1

pub control-same_value :
    (ks : List String) (a b t : Value)
    → same_value a b ≡ true
    → control ks a ≡ some t
    → control ks b ≡ some t
unfolding control same_value get
control-same_value [] a b t h e = cc
control-same_value (k ∷ []) (obj f) (obj g) t h e = elim (Option-cases (get k f)) [
  | inl absent ↦ let bad : none ≡ some t = (rw (control, absent) at e) in cc
  | inr (v, there) ↦
      last_scalar-same_field k v (get k g) t (same_fields-get k f g v (ground arith) there)
        (rw (control, there) at e)
]
control-same_value (k ∷ l ∷ ks) (obj f) (obj g) t h e = elim (Option-cases (get k f)) [
  | inl absent ↦ let bad : none ≡ some t = (rw (control, absent) at e) in cc
  | inr (v, there) ↦
      let here : control (l ∷ ks) v ≡ some t = (rw (control, there) at e) in
      inner-same_field k l ks v (get k g) t (same_fields-get k f g v (ground arith) there) here
        (λ w s. control-same_value (l ∷ ks) v w t s here)
]
control-same_value (k ∷ []) a b t h e = cc
control-same_value (k ∷ l ∷ ks) a b t h e = cc

same_payload-eq : (a b : Payload) → same_payload a b ≡ true → a ≡ b
same_payload-eq (text_payload a) (text_payload b) h = ap text_payload ((eq_iff a b).0 h)
same_payload-eq (bytes_payload a) (bytes_payload b) h = ap bytes_payload ((eq_iff a b).0 h)
same_payload-eq (text_payload a) (bytes_payload b) h = cc
same_payload-eq (bytes_payload a) (text_payload b) h = cc

same_raw-eq : (a b : Option Payload) → same_raw a b ≡ true → a ≡ b
same_raw-eq none none h = refl
same_raw-eq (some a) (some b) h = ap some (same_payload-eq a b h)
same_raw-eq none (some b) h = cc
same_raw-eq (some a) none h = cc

not_terminal : (op : Operation) → is_protocol op ≡ true → is_terminal op ≡ false
not_terminal protocol_input h = refl
not_terminal protocol_output h = refl
not_terminal terminal_input h = cc
not_terminal terminal_output h = cc
not_terminal op h = refl

module _ (decode : Payload → Option Value) where
  -- The control text of a payload, as it is decoded.
  abbrev pub control_of : List String → Option Payload → Option Value
  control_of ks payload = inner ks (decoded decode payload)

  same_structure-control :
      (ks : List String) (a b : Option Payload) (t : Value)
      → same_structure decode a b ≡ true
      → control_of ks a ≡ some t
      → control_of ks b ≡ some t
  unfolding same_structure
  same_structure-control ks a b t h e = by_values (decoded decode a) (decoded decode b) h e
    where
      by_values :
          (v w : Option Value)
          → same_decoded decode v w (same_raw a b) ≡ true
          → inner ks v ≡ some t
          → inner ks w ≡ some t
      by_values none w h e = cc
      by_values (some v) none h e = cc
      by_values (some v) (some w) h e = control-same_value ks v w t h e

  validate_transform-control :
      (ks : List String) (r s : Request) (t : Value)
      → is_protocol r.operation ≡ true
      → validate_transform decode r s ≡ true
      → control_of ks r.payload ≡ some t
      → control_of ks s.payload ≡ some t
  unfolding validate_transform
  validate_transform-control ks r s t p h e = elim (Bool-cases (same_raw r.payload s.payload)) [
    | inl same ↦ subst (λ q. control_of ks q ≡ some t) (same_raw-eq r.payload s.payload same) e
    | inr other ↦
        same_structure-control ks r.payload s.payload t
          (let stream : is_terminal r.operation ≡ false = not_terminal r.operation p in
            let content : payload_ok decode r.operation r.payload s.payload ≡ true =
              other_part (both {a = same_intent s r} h).1 other in
            let body : is_protocol r.operation && same_structure decode r.payload s.payload ≡ true =
              (rw stream at content) in
            (both {a = is_protocol r.operation} body).1)
          e
  ]

  abbrev Controls : List String → Value → Fault ⊎ Request → Type 0
  Controls ks t (inl fault) = Unit
  Controls ks t (inr s) = control_of ks s.payload ≡ some t

  run_hooks-Controls :
      (blank : String → Bool) (hooks : List Hook) (ks : List String) (r s : Request) (t : Value)
      → is_protocol r.operation ≡ true
      → control_of ks r.payload ≡ some t
      → control_of ks s.payload ≡ some t
      → Controls ks t (run_hooks decode blank hooks r s)
  unfolding run_hooks
  run_hooks-Controls blank [] ks r s t p e k = k
  run_hooks-Controls blank (hook ∷ hooks) ks r s t p e k =
      by_result (hook s) refl (λ u k'. run_hooks-Controls blank hooks ks r u t p e k')
    where
      by_result :
          (o : HookResult)
          → hook s ≡ o
          → ((u : Request)
              → control_of ks u.payload ≡ some t
              → Controls ks t (run_hooks decode blank hooks r u))
          → Controls ks t (run_hooks decode blank (hook ∷ hooks) r s)
      by_result (raises fault) q next = rw (run_hooks, q) tt
      by_result no_request q next = rw (run_hooks, q) tt
      by_result (request u) q next =
          rw (run_hooks, q)
            (if_intro (Controls ks t) (validate_transform decode r u && validate_request blank u)
              (run_hooks decode blank hooks r u) (inl (rejection unspecified))
              (λ ok. next u (
                validate_transform-control ks r u t p
                  (both {a = validate_transform decode r u} ok).0 e))
              (λ _. tt))

  -- Whatever hooks a protocol request goes through, every null, Boolean, integer and text of its
  -- payload that stands under a path of names is the same after them, but for a text under a last
  -- name "text", "delta" or "message": they cannot change an RPC's method, its identity, a number or
  -- a text, or the thread and the turn that it names.
  pub run_hooks-control :
      (blank : String → Bool) (hooks : List Hook) (ks : List String) (r s : Request) (t : Value)
      → is_protocol r.operation ≡ true
      → control_of ks r.payload ≡ some t
      → run_hooks decode blank hooks r r ≡ inr s
      → control_of ks s.payload ≡ some t
  run_hooks-control blank hooks ks r s t p e q =
      subst (Controls ks t) q (run_hooks-Controls blank hooks ks r r t p e e)
