-- ===== src/Prompt/Slices.antt =====
-- Pieces of a list that was put together, for rodex/protocol_input_text.py.
use codex_tmux_session_manag.Common.{
  ℕ, zero, suc, ◌-◌, ◌≤◌, ◌≡◌, ◌∙◌, refl, sym, ap, List, [], ◌∷◌, ◌++◌, length, take, drop,
  take-append-drop, arith,
}
use codex_tmux_session_manag.Prompt.{slice, encode, encode_char, Text}

module _ {ℓ} {A : Type ℓ} where
  pub append_assoc : (xs ys zs : List A) → (xs ++ ys) ++ zs ≡ xs ++ (ys ++ zs)
  append_assoc [] ys zs = refl
  append_assoc (x ∷ xs) ys zs = ap (λ r. x ∷ r) (append_assoc xs ys zs)

  drop-append_after :
      (n : ℕ) (xs ys : List A) → length xs ≤ n → drop n (xs ++ ys) ≡ drop (n - length xs) ys
  drop-append_after n [] ys h = ap (λ k. drop k ys) (omega arith)
  drop-append_after zero (x ∷ xs) ys h = ground arith
  drop-append_after (suc n) (x ∷ xs) ys h =
      drop-append_after n xs ys (omega arith) ∙ ap (λ k. drop k ys) (omega arith)

  take-append_before : (n : ℕ) (xs ys : List A) → n ≤ length xs → take n (xs ++ ys) ≡ take n xs
  take-append_before zero xs ys h = refl
  take-append_before (suc n) [] ys h = ground arith
  take-append_before (suc n) (x ∷ xs) ys h =
      ap (λ r. x ∷ r) (take-append_before n xs ys (omega arith))

  take_nil : (n : ℕ) → take {A = A} n [] ≡ []
  take_nil zero = refl
  take_nil (suc n) = refl

  -- A slice that lies in the first part.
  pub slice-before :
      (l r : ℕ) (xs ys : List A) → r ≤ length xs → slice l r (xs ++ ys) ≡ slice l r xs
  slice-before zero r xs ys h =
      let whole : r - 0 ≡ r = omega arith in rw whole (take-append_before r xs ys h)
  slice-before (suc l) zero [] ys h = let none : 0 - suc l ≡ 0 = omega arith in rw none refl
  slice-before (suc l) zero (x ∷ xs) ys h = let none : 0 - suc l ≡ 0 = omega arith in rw none refl
  slice-before (suc l) (suc r) [] ys h = ground arith
  slice-before (suc l) (suc r) (x ∷ xs) ys h =
      let less : suc r - suc l ≡ r - l = omega arith in
      rw less (slice-before l r xs ys (omega arith))

  -- A slice that lies behind the first part.
  pub slice-after :
      (l r : ℕ) (xs ys : List A)
      → length xs ≤ l
      → slice l r (xs ++ ys) ≡ slice (l - length xs) (r - length xs) ys
  slice-after l r xs ys h =
      ap (take (r - l)) (drop-append_after l xs ys h)
      ∙ ap (λ k. take k (drop (l - length xs) ys)) (omega arith)

  pub take-split : (s e : ℕ) (xs : List A) → s ≤ e → take e xs ≡ take s xs ++ slice s e xs
  take-split zero e xs h = let whole : e - 0 ≡ e = omega arith in rw whole refl
  take-split (suc s) zero xs h = ground arith
  take-split (suc s) (suc e) [] h = sym (take_nil (suc e - suc s))
  take-split (suc s) (suc e) (x ∷ xs) h =
      let less : suc e - suc s ≡ e - s = omega arith in
      rw less (ap (λ r. x ∷ r) (take-split s e xs (omega arith)))

  -- What stands before, between and after two places.
  pub three_parts : (s e : ℕ) (xs : List A) → s ≤ e → take s xs ++ (slice s e xs ++ drop e xs) ≡ xs
  three_parts s e xs h =
      sym (append_assoc (take s xs) (slice s e xs) (drop e xs))
      ∙ ap (λ r. r ++ drop e xs) (sym (take-split s e xs h))
      ∙ take-append-drop e xs

pub encode-append : (xs ys : Text) → encode (xs ++ ys) ≡ encode xs ++ encode ys
unfolding encode
encode-append [] ys = refl
encode-append (x ∷ xs) ys =
    ap (λ r. encode_char x ++ r) (encode-append xs ys)
    ∙ sym (append_assoc (encode_char x) (encode xs) (encode ys))
