-- ===== src/Common/Dict.antt =====
-- Python's `dict` with string keys and `set` of strings, as the code uses them: lookup, pop,
-- assignment, membership, add and discard. The order of entries is never read.
use codex_tmux_session_manag.Common.Tests.{◌==◌, string_eq, if◌then◌else◌, Bool-cases}
use Prim.Native.String.{String}
use mathlib.Core.Path.{◌≡◌, subst}
use mathlib.Core.Logic.{inl, inr}
use mathlib.Core.Bool.{Bool, true, false, ◌||◌}
use mathlib.Core.Option.{Option, none, some}
use mathlib.Core.List.{List, [], ◌∷◌}
use text.Mathlib.TextEquality.{eq_iff}
use native.Mathlib.Omega.{arith}

module _ {ℓ} {V : Type ℓ} where
  unfoldable pub lookup : String → List (String × V) → Option V
  lookup key [] = none
  lookup key ((other, value) ∷ dict) = if other == key then some value else lookup key dict

  unfoldable pub without : String → List (String × V) → List (String × V)
  without key [] = []
  without key ((other, value) ∷ dict) =
      let rest = without key dict in if other == key then rest else (other, value) ∷ rest

  -- d[key] = value
  unfoldable pub insert : String → V → List (String × V) → List (String × V)
  insert key value dict = (key, value) ∷ without key dict

  pub lookup-without :
      (key other : String) (dict : List (String × V))
      → lookup other (without key dict) ≡ (if key == other then none else lookup other dict)
  unfolding lookup without
  lookup-without key other [] = ground arith
  lookup-without key other ((name, value) ∷ dict) =
      ground
        (arith, lookup-without key other dict, eq_iff name key, eq_iff name other, eq_iff key other)

  pub lookup-insert :
      (key other : String) (value : V) (dict : List (String × V))
      → lookup other (insert key value dict)
        ≡ (if key == other then some value else lookup other dict)
  unfolding lookup insert
  lookup-insert key other value dict =
      ground (arith, lookup-without key other dict, eq_iff key other)

-- A predicate of every value of a dict.
abbrev pub Values {ℓ κ} : {V : Type ℓ} → (V → Type κ) → List (String × V) → Type κ
Values P [] = Unit
Values P ((k, v) ∷ m) = P v × Values P m

module _ {ℓ κ} {V : Type ℓ} (P : V → Type κ) where
  pub Values-lookup :
      (k : String) (m : List (String × V)) {v : V} → Values P m → lookup k m ≡ some v → P v
  unfolding lookup
  Values-lookup k [] h e = cc
  Values-lookup k ((j, w) ∷ m) {v} h e = elim (Bool-cases (j == k)) [
    | inl same ↦ subst P {x = w} {y = v} (let e' : some w ≡ some v = (rw same at e) in cc) h.0
    | inr other ↦ Values-lookup k m h.1 (rw other at e)
  ]

  pub Values-without : (k : String) (m : List (String × V)) → Values P m → Values P (without k m)
  unfolding without
  Values-without k [] h = h
  Values-without k ((j, w) ∷ m) h = elim (Bool-cases (j == k)) [
    | inl same ↦ rw same (Values-without k m h.1)
    | inr other ↦ rw other (h.0, Values-without k m h.1)
  ]

  pub Values-insert :
      (k : String) (v : V) (m : List (String × V)) → P v → Values P m → Values P (insert k v m)
  unfolding insert
  Values-insert k v m p h = (p, Values-without k m h)

  pub Values-map {λ'} :
      (Q : V → Type λ') → ((v : V) → P v → Q v) → (m : List (String × V)) → Values P m → Values Q m
  Values-map Q f [] h = tt
  Values-map Q f ((k, v) ∷ m) h = (f v h.0, Values-map Q f m h.1)

-- `x in s`
unfoldable pub member : String → List String → Bool
member x [] = false
member x (y ∷ ys) = y == x || member x ys

-- s.discard(x)
unfoldable pub discard : String → List String → List String
discard x [] = []
discard x (y ∷ ys) = let rest = discard x ys in if y == x then rest else y ∷ rest

-- s.add(x)
unfoldable pub add : String → List String → List String
unfolding member
add x ys = if member x ys then ys else x ∷ ys

pub member-discard :
    (x z : String) (ys : List String)
    → member z (discard x ys) ≡ (if x == z then false else member z ys)
unfolding member discard
member-discard x z [] = ground arith
member-discard x z (y ∷ ys) =
    ground (arith, member-discard x z ys, eq_iff y x, eq_iff y z, eq_iff x z)

pub member-add :
    (x z : String) (ys : List String) → member z (add x ys) ≡ (if x == z then true else member z ys)
unfolding member add
member-add x z ys = ground (arith, eq_iff x z)
