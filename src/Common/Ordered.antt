-- ===== src/Common/Ordered.antt =====
-- Python's `dict` where the order of its entries is read: a new key goes to the end, an assignment to
-- an old one keeps its place, and what was removed and is assigned again goes to the end.
use Prim.Native.Nat.{suc, ◌≤◌}
use mathlib.Core.Path.{◌≡◌, refl, sym, ap, ◌∙◌}
use mathlib.Core.Logic.{inl, inr}
use mathlib.Core.Bool.{Bool, true, false, ◌||◌}
use mathlib.Core.List.{List, [], ◌∷◌, ◌++◌}
use native.Mathlib.Omega.{arith}
use codex_tmux_session_manag.Common.Tests.{Comparable, ◌==◌, if◌then◌else◌, Bool-cases, if_intro}
use codex_tmux_session_manag.Common.Lists.{All, length}

module _ {ℓ} {K : Type ℓ} ⦃e : Comparable K⦄ where
  same-sym : (j k : K) → (j == k) ≡ false → (k == j) ≡ false
  same-sym j k h = elim (Bool-cases (k == j)) [
    | inl same ↦
        let back : (j == k) ≡ true = (e.same_iff j k).1 (sym ((e.same_iff k j).0 same)) in
        let bad : true ≡ false = sym back ∙ h in cc
    | inr other ↦ other
  ]

  same-left : (i j k : K) → (i == j) ≡ true → (i == k) ≡ (j == k)
  same-left i j k h = ap (λ (x : K). x == k) ((e.same_iff i j).0 h)

  same-right : (i j k : K) → (j == k) ≡ true → (i == j) ≡ (i == k)
  same-right i j k h = ap (λ (x : K). i == x) ((e.same_iff j k).0 h)

module _ {ℓ κ} {K : Type ℓ} {V : Type κ} ⦃e : Comparable K⦄ where
  unfoldable pub has : K → List (K × V) → Bool
  has k [] = false
  has k (p ∷ d) = p.0 == k || has k d

  -- d[k] = v
  unfoldable pub put : K → V → List (K × V) → List (K × V)
  put k v [] = (k, v) ∷ []
  put k v (p ∷ d) = let rest = put k v d in if p.0 == k then (k, v) ∷ d else p ∷ rest

  -- d.pop(k, None)
  unfoldable pub pop : K → List (K × V) → List (K × V)
  pop k [] = []
  pop k (p ∷ d) = let rest = pop k d in if p.0 == k then rest else p ∷ rest

  -- d.pop(next(iter(d)))
  abbrev pub pop_first : List (K × V) → List (K × V)
  pop_first [] = []
  pop_first (p ∷ d) = d

  -- a dict filled with the entries of another, one after the other
  unfoldable pub fill : List (K × V) → List (K × V) → List (K × V)
  unfolding put
  fill d [] = d
  fill d (p ∷ ps) = fill (put p.0 p.1 d) ps

  abbrev pub Distinct : List (K × V) → Type 0
  Distinct [] = Unit
  Distinct (p ∷ d) = (has p.0 d ≡ false) × Distinct d

  abbrev pub Apart : List (K × V) → List (K × V) → Type 0
  Apart d = All (λ (p : K × V). has p.0 d ≡ false)

  pub put-fresh :
      (k : K) (v : V) (d : List (K × V)) → has k d ≡ false → put k v d ≡ d ++ ((k, v) ∷ [])
  unfolding put has
  put-fresh k v [] h = refl
  put-fresh k v (p ∷ d) h = elim (Bool-cases (p.0 == k)) [
    | inl same ↦ let bad : true ≡ false = (rw same at h) in cc
    | inr other ↦ rw other (ap (λ r. p ∷ r) (put-fresh k v d (rw other at h)))
  ]

  has-append : (k : K) (d ps : List (K × V)) → has k (d ++ ps) ≡ has k d || has k ps
  unfolding has
  has-append k [] ps = refl
  has-append k (p ∷ d) ps = ground (arith, has-append k d ps)

  Apart-append :
      (p : K × V) (d ps : List (K × V)) → has p.0 ps ≡ false → Apart d ps → Apart (d ++ (p ∷ [])) ps
  unfolding has
  Apart-append p d [] h a = tt
  Apart-append p d (q ∷ ps) h a = (
    ground (arith, has-append q.0 d (p ∷ []), same-sym q.0 p.0),
    Apart-append p d ps (ground arith) a.1,
  )

  pub append_assoc : (d ps qs : List (K × V)) → (d ++ ps) ++ qs ≡ d ++ (ps ++ qs)
  append_assoc [] ps qs = refl
  append_assoc (p ∷ d) ps qs = ap (λ r. p ∷ r) (append_assoc d ps qs)

  pub fill-append : (d ps : List (K × V)) → Apart d ps → Distinct ps → fill d ps ≡ d ++ ps
  unfolding fill
  fill-append d [] a h = sym (append-nil d)
    where
      append-nil : (l : List (K × V)) → l ++ [] ≡ l
      append-nil [] = refl
      append-nil (q ∷ l) = ap (λ r. q ∷ r) (append-nil l)
  fill-append d (p ∷ ps) a h = rw (put-fresh p.0 p.1 d a.0) (
      fill-append (d ++ (p ∷ [])) ps (Apart-append p d ps h.0 a.1) h.1 ∙ append_assoc d (p ∷ []) ps)

  Apart-nil : (ps : List (K × V)) → Apart [] ps
  unfolding has
  Apart-nil [] = tt
  Apart-nil (p ∷ ps) = (refl, Apart-nil ps)

  -- What a dict with distinct keys is written out as fills the same dict again.
  pub fill_self : (ps : List (K × V)) → Distinct ps → fill [] ps ≡ ps
  fill_self ps h = fill-append [] ps (Apart-nil ps) h

  pub has-pop : (j k : K) (d : List (K × V)) → has k (pop j d) ≡ (if j == k then false else has k d)
  unfolding has pop
  has-pop j k [] = ground arith
  has-pop j k (p ∷ d) = elim (Bool-cases (p.0 == j)) [
    | inl same ↦ rw same (ground (arith, has-pop j k d, same-left p.0 j k same))
    | inr other ↦ rw other (ground (arith, has-pop j k d, same-right p.0 j k))
  ]

  pub pop-Distinct : (k : K) (d : List (K × V)) → Distinct d → Distinct (pop k d)
  unfolding pop
  pop-Distinct k [] h = tt
  pop-Distinct k (p ∷ d) h =
      if_intro Distinct (p.0 == k) _ _ (λ _. pop-Distinct k d h.1)
        (λ other. (has-pop k p.0 d ∙ ground (arith, same-sym p.0 k other), pop-Distinct k d h.1))

  pub append-Distinct :
      (k : K) (v : V) (d : List (K × V))
      → has k d ≡ false
      → Distinct d
      → Distinct (d ++ ((k, v) ∷ []))
  unfolding has
  append-Distinct k v [] h u = (refl, tt)
  append-Distinct k v (p ∷ d) h u = (
    ground (arith, has-append p.0 d ((k, v) ∷ []), same-sym p.0 k),
    append-Distinct k v d (ground arith) u.1,
  )

  pub pop_first-Distinct : (d : List (K × V)) → Distinct d → Distinct (pop_first d)
  pop_first-Distinct [] h = tt
  pop_first-Distinct (p ∷ d) h = h.1

  pub length-pop : (k : K) (d : List (K × V)) → length (pop k d) ≤ length d
  unfolding pop
  length-pop k [] = omega arith
  length-pop k (p ∷ d) =
      let rest = length-pop k d in
      if_intro (λ (r : List (K × V)). length r ≤ suc (length d)) (p.0 == k) (pop k d) (p ∷ pop k d)
        (λ _. omega arith) (λ _. omega arith)

module _ {ℓ κ μ} {K : Type ℓ} {V : Type κ} ⦃e : Comparable K⦄ (P : K × V → Type μ) where
  pub All-pop : (k : K) (d : List (K × V)) → All P d → All P (pop k d)
  unfolding pop
  All-pop k [] h = h
  All-pop k (p ∷ d) h =
      if_intro (All P) (p.0 == k) _ _ (λ _. All-pop k d h.1) (λ _. (h.0, All-pop k d h.1))

  pub All-append : (d : List (K × V)) (p : K × V) → All P d → P p → All P (d ++ (p ∷ []))
  All-append [] p h q = (q, tt)
  All-append (r ∷ d) p h q = (h.0, All-append d p h.1 q)

  pub All-pop_first : (d : List (K × V)) → All P d → All P (pop_first d)
  All-pop_first [] h = tt
  All-pop_first (p ∷ d) h = h.1
