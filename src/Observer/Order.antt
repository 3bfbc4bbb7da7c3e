-- ===== src/Observer/Order.antt =====
-- The published states of rodex/observer_state.py by their numbers, and what the producer leaves of them.
use mathlib.Core.Path.{subst}
use codex_tmux_session_manag.Common.{
  ℕ, suc, ◌≤◌, ◌<◌, ◌≡◌, ◌∙◌, refl, sym, ap, false, ◌&&◌, Option, none, some, List, [], ◌∷◌, ◌==◌,
  nat_eq, length, arith, All, ltb, inl, inr, Bool-cases, if_intro,
}
use codex_tmux_session_manag.Common.Json.{Fields}
use codex_tmux_session_manag.Observer.{Python}
use codex_tmux_session_manag.Observer.Producer.{Producer, snapshot_value, trim}
use codex_tmux_session_manag.Observer.Bounds.{Fits, trim_idem}
use codex_tmux_session_manag.Observer.Snapshots.{IsValid}
use codex_tmux_session_manag.Observer.Operations.{
  Operation, step, is_final, IsTraced, Later, step-Later, step-IsValid, trim-Same, Shows,
}
use codex_tmux_session_manag.Observer.Mirror.{Upto}
use codex_tmux_session_manag.Observer.Delivery.{
  numbered, act, deliver, Ideal, newer, ideal_move, find, snapshots, and_state, Descending, Known,
  IsSound, IsPublished, Since,
}

module _ {ℓ} {A : Type ℓ} where
  pub some_injective : {x y : A} → some x ≡ some y → x ≡ y
  some_injective e = cc

  numbered-none : (n : ℕ) (xs : List A) → length xs ≤ n → numbered n xs ≡ none
  numbered-none n [] h = refl
  numbered-none n (x ∷ xs) h =
      let rest = numbered-none n xs (omega arith) in
      if_intro (λ r. r ≡ none) (n == length xs) (some x) (numbered n xs) (λ t. ground arith)
        (λ _. rest)

  pub numbered-some : (n : ℕ) (xs : List A) → n < length xs → (x : A) × (numbered n xs ≡ some x)
  numbered-some n [] h = ground arith
  numbered-some n (x ∷ xs) h = elim (Bool-cases (n == length xs)) [
    | inl last ↦ (x, rw last refl)
    | inr other ↦ let (y, e) = numbered-some n xs (ground arith) in (y, rw other e)
  ]

  pub numbered-lt : (n : ℕ) (xs : List A) (x : A) → numbered n xs ≡ some x → n < length xs
  numbered-lt n [] x h = cc
  numbered-lt n (y ∷ xs) x h = elim (Bool-cases (n == length xs)) [
    | inl last ↦ ground arith
    | inr other ↦ omega (arith, numbered-lt n xs x (rw other at h))
  ]

  pub numbered-absent : (n : ℕ) (xs : List A) → numbered n xs ≡ none → ltb n (length xs) ≡ false
  numbered-absent n xs h = elim (Bool-cases (ltb n (length xs))) [
    | inl within ↦ let (x, e) = numbered-some n xs (ground arith) in cc
    | inr beyond ↦ beyond
  ]

  numbered-cons :
      (n : ℕ) (x : A) (xs : List A) → n < length xs → numbered n (x ∷ xs) ≡ numbered n xs
  numbered-cons n x xs h = let other : (n == length xs) ≡ false = ground arith in rw other refl

module _ {ℓ κ} {A : Type ℓ} (P : A → Type κ) where
  pub numbered-All : (n : ℕ) (xs : List A) (x : A) → All P xs → numbered n xs ≡ some x → P x
  numbered-All n [] x h e = cc
  numbered-All n (y ∷ xs) x h e = elim (Bool-cases (n == length xs)) [
    | inl last ↦ let same : some y ≡ some x = (rw last at e) in subst P (some_injective same) h.0
    | inr other ↦ numbered-All n xs x h.1 (rw other at e)
  ]

pub numbered-Since :
    (m n : ℕ) (ps : List Producer) (p q : Producer)
    → Descending ps
    → m < n
    → numbered m ps ≡ some p
    → numbered n ps ≡ some q
    → Since p q
numbered-Since m n [] p q d h e f = cc
numbered-Since m n (r ∷ rs) p q d h e f = elim (Bool-cases (n == length rs)) [
  | inl last ↦
      let same : some r ≡ some q = (rw last at f) in
      let early : m < length rs = ground arith in
      subst (λ (s : Producer). Since p s) (some_injective same)
        (numbered-All (λ (s : Producer). Since s r) m rs p d.0
          (sym (numbered-cons m r rs early) ∙ e))
  | inr other ↦
      let found = (rw other at f) in
      let early : m < length rs = omega (arith, numbered-lt n rs q found) in
      numbered-Since m n rs p q d.1 h (sym (numbered-cons m r rs early) ∙ e) found
]

abbrev snapshot_of : Option Producer → Option Fields
snapshot_of none = none
snapshot_of (some p) = some (snapshot_value p)

length-snapshots : (ps : List Producer) → length (snapshots ps) ≡ length ps
length-snapshots [] = refl
length-snapshots (p ∷ ps) = ap suc (length-snapshots ps)

pub numbered-snapshots :
    (n : ℕ) (ps : List Producer) → numbered n (snapshots ps) ≡ snapshot_of (numbered n ps)
numbered-snapshots n [] = refl
numbered-snapshots n (p ∷ ps) = elim (Bool-cases (n == length ps)) [
  | inl last ↦ rw (length-snapshots ps, last) refl
  | inr other ↦ rw (length-snapshots ps, other) (numbered-snapshots n ps)
]

Later-trans : (p q r : Producer) → Later p q → Later q r → Later p r
Later-trans p q r h k = ground arith

pub Upto-refl : (p : Producer) → Upto p p
Upto-refl p = inr (refl, omega arith, omega arith)

pub Later-Upto : (p q : Producer) → Later p q → Upto p q
Later-Upto p q h = ground arith

pub Since-Upto : (p q : Producer) → Since p q → Upto p q
Since-Upto p q (inl same) = subst (λ (r : Producer). Upto p r) (sym same) (Upto-refl p)
Since-Upto p q (inr later) = Later-Upto p q later

Since-Later : (p q r : Producer) → Since p q → Later q r → Since p r
Since-Later p q r (inl same) k = inr (subst (λ (s : Producer). Later s r) same k)
Since-Later p q r (inr h) k = inr (Later-trans p q r h k)

module _ (py : Python) where
  -- What was published fits already, so that trimming the state it was published from changes nothing.
  Since-trim : (q p : Producer) → Fits py q → Since q p → Since q (trim py p)
  Since-trim q p f (inl same) = inl (ap (λ (r : Producer). trim py r) same ∙ trim_idem py q f)
  Since-trim q p f (inr later) =
      let (e, r, d) = trim-Same py p in inr (later_same q p (trim py p) e r d later)
    where
      later_same :
          (q p left : Producer)
          → left.epoch ≡ p.epoch
          → left.revision ≡ p.revision
          → p.dropped_event_count ≤ left.dropped_event_count
          → Later q p
          → Later q left
      later_same q p left e r d h = ground arith

  abbrev Sinces : Producer → List Producer → Type 0
  Sinces p = All (λ q. Since q p)

  Sinces-Later : (p q : Producer) (ps : List Producer) → Later p q → Sinces p ps → Sinces q ps
  Sinces-Later p q [] h a = tt
  Sinces-Later p q (r ∷ ps) h a = (Since-Later r p q a.0 h, Sinces-Later p q ps h a.1)

  Sinces-trim :
      (p : Producer) (ps : List Producer)
      → All (λ q. IsValid py q × Fits py q) ps
      → Sinces p ps
      → Sinces (trim py p) ps
  Sinces-trim p [] v a = tt
  Sinces-trim p (r ∷ ps) v a = (Since-trim r p v.0.1 a.0, Sinces-trim p ps v.1 a.1)

  -- A published state in front, or none, leaves a delivered one known, and where it was.
  and_state-Known :
      (newest : Option ℕ) (snapshot : Option Fields) (left : Producer) (states : List Producer)
      → Known newest states
      → Known newest (and_state snapshot left states)
  and_state-Known none snapshot left states k = tt
  and_state-Known (some n) none left states k = k
  and_state-Known (some n) (some snapshot) left states k = omega arith

  pub find-and_state :
      (newest : Option ℕ) (snapshot : Option Fields) (left : Producer) (states : List Producer)
      → Known newest states
      → find newest (and_state snapshot left states) ≡ find newest states
  find-and_state none snapshot left states k = refl
  find-and_state (some n) none left states k = refl
  find-and_state (some n) (some snapshot) left states k = numbered-cons n left states k

  -- The published states that a new state of the producer comes after, and the snapshot that shows it.
  acted :
      (s : Ideal) (left : Producer) (snapshot : Option Fields)
      → IsPublished py s
      → Sinces left s.states
      → IsValid py left
      → Shows py (left, snapshot)
      → IsSound py (record s { producer = left; states = and_state snapshot left s.states })
  acted s left none (a, d, k) b v h = (v, b, (a, d, k))
  acted s left (some snapshot) (a, d, k) b v h = (
    v,
    (inl refl, b),
    (((v, h.1), a), (b, d), and_state-Known s.newest (some snapshot) left s.states k),
  )

  step-Sinces :
      (op : Operation) (s : Ideal)
      → is_final op ≡ false
      → IsSound py s
      → Sinces (step py op s.producer).0 s.states
  step-Sinces op s n (v, b, (a, d, k)) = elim (step-Later py op s.producer n) [
    | inl same ↦
        let kept : (step py op s.producer).0 ≡ s.producer = ap (λ o. o.0) same in
        subst (λ (p : Producer). Sinces p s.states) (sym kept) b
    | inr moved ↦ elim moved [
      | inl later ↦ Sinces-Later s.producer (step py op s.producer).0 s.states later b
      | inr trimmed ↦
          subst (λ (p : Producer). Sinces p s.states) (sym trimmed)
            (Sinces-trim s.producer s.states a b)
    ]
  ]

  -- An operation of the producer leaves its published states sound.
  pub act-IsSound :
      (op : Operation) (s : Ideal)
      → IsTraced op
      → is_final op ≡ false
      → IsSound py s
      → IsSound py (ideal_move py (act op) s)
  unfolding ideal_move
  act-IsSound op s t n h =
      let (valid, shows) = step-IsValid py op s.producer t h.0 in
      acted s (step py op s.producer).0 (step py op s.producer).1 h.2 (step-Sinces op s n h) valid
        shows

  pub deliver-IsPublished :
      (n : ℕ) (s : Ideal) → IsPublished py s → IsPublished py (ideal_move py (deliver n) s)
  unfolding ideal_move
  deliver-IsPublished n s (a, d, k) =
      if_intro (IsPublished py) (ltb n (length s.states) && newer s.newest n)
        (record s { newest = some n }) s (λ t. (a, d, ground arith)) (λ _. (a, d, k))

  pub deliver-IsSound :
      (n : ℕ) (s : Ideal) → IsSound py s → IsSound py (ideal_move py (deliver n) s)
  unfolding ideal_move
  deliver-IsSound n s (v, b, (a, d, k)) =
      if_intro (IsSound py) (ltb n (length s.states) && newer s.newest n)
        (record s { newest = some n }) s (λ t. (v, b, (a, d, ground arith)))
        (λ _. (v, b, (a, d, k)))
