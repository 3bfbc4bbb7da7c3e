-- ===== src/Prompt/Elements.antt =====
-- What the elements of a text point at after its edits (rodex/protocol_input_text.py).
use mathlib.Core.Path.{subst}
use codex_tmux_session_manag.Common.{
  ℕ, ◌+◌, ◌-◌, ◌≤◌, ◌≡◌, ◌∙◌, refl, sym, ap, true, false, ◌&&◌, Option, none, some, List, [], ◌∷◌,
  ◌++◌, length, length-append, arith, inl, inr, Bool-cases, leb,
}
use codex_tmux_session_manag.Common.Json.{
  Value, int, obj, Items, no_items, item, Fields, get, as_obj, set_field, get-set_field,
}
use codex_tmux_session_manag.Prompt.{
  Text, Bytes, encode, slice, element_range, within, range_of, with_range, moved, shifted,
  rebase_at, rebase_one,
}
use codex_tmux_session_manag.Prompt.Slices.{slice-before, slice-after}

some_injective {ℓ} : {A : Type ℓ} {x y : A} → some x ≡ some y → x ≡ y
some_injective e = cc

-- The bytes of a text that an element points at.
abbrev pub bytes_at : Bytes → Option (ℕ × ℕ) → Option Bytes
bytes_at bytes none = none
bytes_at bytes (some (left, right)) = some (slice left right bytes)

abbrev pub pointed : Bytes → Value → Option Bytes
pointed bytes element = bytes_at bytes (element_range (length bytes) element)

abbrev pub and_bytes : Option Bytes → List Bytes → List Bytes
and_bytes none rest = rest
and_bytes (some b) rest = b ∷ rest

-- What the elements point at, in their order, without those whose range is none.
abbrev pub all_pointed : Bytes → Items → List Bytes
all_pointed bytes no_items = []
all_pointed bytes (item element rest) = and_bytes (pointed bytes element) (all_pointed bytes rest)

abbrev pub pointed_in : Text → Option Items → List Bytes
pointed_in text none = []
pointed_in text (some elements) = all_pointed (encode text) elements

-- Some of a list, in its order.
pub data Sublist {ℓ} {A : Type ℓ} : List A → List A → Type ℓ where
  nothing : Sublist [] []
  keep : {x : A} {xs ys : List A} → Sublist xs ys → Sublist (x ∷ xs) (x ∷ ys)
  skip : {x : A} {xs ys : List A} → Sublist xs ys → Sublist xs (x ∷ ys)

within-some :
    (n l r : ℕ) (o : Option (ℕ × ℕ))
    → within n o ≡ some (l, r)
    → (o ≡ some (l, r)) × (l ≤ r) × (r ≤ n)
within-some n l r none h = cc
within-some n l r (some (left, right)) h = elim (Bool-cases (leb left right && leb right n)) [
  | inl fits ↦
      let same : some (left, right) ≡ some (l, r) = (rw fits at h) in
      let pair : (left, right) ≡ (l, r) = some_injective same in
      let a : left ≡ l = ap (λ p. p.0) pair in
      let b : right ≡ r = ap (λ p. p.1) pair in (same, ground arith, ground arith)
  | inr out ↦ let bad : none ≡ some (l, r) = (rw out at h) in cc
]

range_bounds : (n l r : ℕ) (v : Value) → element_range n v ≡ some (l, r) → (l ≤ r) × (r ≤ n)
range_bounds n l r (obj f) h = let (o, a, b) = within-some n l r (range_of f) h in (a, b)
range_bounds n l r v h = cc

same_slice : (a b c d : ℕ) (xs : Bytes) → a ≡ c → b ≡ d → slice a b xs ≡ slice c d xs
same_slice a b c d xs e f i = slice (e i) (f i) xs

pub le_of : {m n : ℕ} → leb m n ≡ true → m ≤ n
le_of h = ground arith

within-fits : (n l r : ℕ) → l ≤ r → r ≤ n → within n (some (l, r)) ≡ some (l, r)
within-fits n l r h k = let fits : leb l r && leb r n ≡ true = ground arith in rw fits refl

element_range_mono :
    (n m l r : ℕ) (v : Value)
    → element_range n v ≡ some (l, r)
    → r ≤ m
    → element_range m v ≡ some (l, r)
element_range_mono n m l r (obj f) h k =
    let (o, a, b) = within-some n l r (range_of f) h in rw o (within-fits m l r a k)
element_range_mono n m l r v h k = cc

moved-range :
    (n m l r l' r' : ℕ) (v : Value)
    → element_range n v ≡ some (l, r)
    → l' ≤ r'
    → r' ≤ m
    → element_range m (moved l' r' v) ≡ some (l', r')
moved-range n m l r l' r' (obj f) h a b = by_range (as_obj (get "byteRange" f)) refl
  where
    by_range :
        (o : Option Fields)
        → as_obj (get "byteRange" f) ≡ o
        → within m (range_of (with_range l' r' o f)) ≡ some (l', r')
    by_range none q = let bad : none ≡ some (l, r) = (rw q at h) in cc
    by_range (some br) q =
        let ends = set_field "end" (int false r') (set_field "start" (int false l') br) in
        rw
          (
            get-set_field "byteRange" "byteRange" (obj ends) f,
            get-set_field "end" "start" (int false r') (set_field "start" (int false l') br),
            get-set_field "start" "start" (int false l') br,
            get-set_field "end" "end" (int false r') (set_field "start" (int false l') br),
          )
          (within-fits m l' r' a b)
moved-range n m l r l' r' v h a b = cc

module _ (before old new rest : Bytes) where
  abbrev pub source : Bytes
  source = before ++ (old ++ rest)

  abbrev pub target : Bytes
  target = before ++ (new ++ rest)

  length-source : length source ≡ length before + (length old + length rest)
  length-source = omega (arith, length-append before (old ++ rest), length-append old rest)

  length-target : length target ≡ length before + (length new + length rest)
  length-target = omega (arith, length-append before (new ++ rest), length-append new rest)

  -- Behind the edit: the same bytes, as many places further as the new bytes are more.
  slice-behind :
      (l r l' r' : ℕ)
      → length before + length old ≤ l
      → l ≤ r
      → l' ≡ l + length new - length old
      → r' ≡ r + length new - length old
      → slice l' r' target ≡ slice l r source
  slice-behind l r l' r' behind order el er =
      slice-after l' r' before (new ++ rest) (omega arith)
      ∙ slice-after (l' - length before) (r' - length before) new rest (omega arith)
      ∙ same_slice (l' - length before - length new) (r' - length before - length new)
          (l - length before - length old) (r - length before - length old) rest (omega arith)
          (omega arith)
      ∙ sym (slice-after (l - length before) (r - length before) old rest (omega arith))
      ∙ sym (slice-after l r before (old ++ rest) (omega arith))

  -- An element that stays points at the bytes that it pointed at.
  pub rebase_one-pointed :
      (v v' : Value)
      → rebase_one (length before) (length before + length old) (length new) (length source) v
        ≡ some v'
      → pointed target v' ≡ pointed source v
  rebase_one-pointed v v' h = by_range (element_range (length source) v) refl h
    where
      by_range :
          (o : Option (ℕ × ℕ))
          → element_range (length source) v ≡ o
          → rebase_at (length before) (length before + length old) (length new) o v ≡ some v'
          → bytes_at target (element_range (length target) v') ≡ bytes_at source o
      by_range none q h = cc
      by_range (some (l, r)) q h =
          let (order, inside) = range_bounds (length source) l r v q in
          elim (Bool-cases (leb (length before + length old) l)) [
            | inl behind ↦
                let l' = shifted (length before) (length before + length old) (length new) l in
                let r' = shifted (length before) (length before + length old) (length new) r in
                let same : some (moved l' r' v) ≡ some v' = (rw behind at h) in
                let range =
                  moved-range (length source) (length target) l r l' r' v q (omega arith)
                    (omega (arith, inside, order, length-source, length-target, le_of behind)) in
                subst
                  (λ w. bytes_at target (element_range (length target) w) ≡ some (slice l r source))
                  (some_injective same)
                  (rw range (
                    ap some
                      (slice-behind l r l' r' (le_of behind) order (omega arith) (omega arith))))
            | inr other ↦ elim (Bool-cases (leb r (length before))) [
              | inl ahead ↦
                  let same : some v ≡ some v' = (rw (other, ahead) at h) in
                  let range =
                    element_range_mono (length source) (length target) l r v q
                      (omega (arith, length-target, le_of ahead)) in
                  subst
                    (λ w.
                      bytes_at target (element_range (length target) w) ≡ some (slice l r source))
                    (some_injective same)
                    (rw range (
                      ap some (
                        slice-before l r before (new ++ rest) (le_of ahead)
                        ∙ sym (slice-before l r before (old ++ rest) (le_of ahead)))))
              | inr inside_it ↦ let bad : none ≡ some v' = (rw (other, inside_it) at h) in cc
            ]
          ]
