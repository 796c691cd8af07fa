-- ===== src/Base/Maps.antt =====
-- Go's maps with integer keys, as association lists in which no key stands twice. The order of the
-- list is the order in which Go happens to go through the map.
use Prim.Native.Nat.{ℕ}
use mathlib.Core.Path.{◌≡◌, refl, ◌∙◌}
use mathlib.Core.Logic.{inl, inr}
use mathlib.Core.Bool.{false}
use mathlib.Core.Option.{Option, none, some}
use mathlib.Core.List.{List, [], ◌∷◌}
use native.Mathlib.Omega.{arith}
use go_incognito_sdk_v.Base.Tests.{◌==◌, if◌then◌else◌, Bool-cases}

module _ {A : Type 0} where
  unfoldable pub lookup : ℕ → List (ℕ × A) → Option A
  lookup i [] = none
  lookup i ((j, a) ∷ m) = if i == j then some a else lookup i m

  -- m[i] = a
  unfoldable pub put : ℕ → A → List (ℕ × A) → List (ℕ × A)
  put i a [] = (i, a) ∷ []
  put i a ((j, b) ∷ m) = if i == j then (i, a) ∷ m else (j, b) ∷ put i a m

  -- No key stands twice.
  unfoldable pub IsMap : List (ℕ × A) → Type 0
  IsMap [] = Unit {0}
  IsMap ((i, a) ∷ m) = (lookup i m ≡ none) × IsMap m

  -- The first of two optional values.
  abbrev pub or_else : Option A → Option A → Option A
  or_else (some a) o = some a
  or_else none o = o

  pub lookup-put :
      (i j : ℕ) (a : A) (m : List (ℕ × A))
      → lookup i (put j a m) ≡ (if i == j then some a else lookup i m)
  unfolding lookup put
  lookup-put i j a [] = refl
  lookup-put i j a ((k, b) ∷ m) = ground (arith, lookup-put i j a m)

  pub put-IsMap : (i : ℕ) (a : A) (m : List (ℕ × A)) → IsMap m → IsMap (put i a m)
  unfolding IsMap put lookup
  put-IsMap i a [] h = (refl, tt)
  put-IsMap i a ((j, b) ∷ m) h = elim (Bool-cases (i == j)) [
    | inl e ↦ let q : i ≡ j = ground arith in rw e (rw q h)
    | inr e ↦
        let q : (j == i) ≡ false = ground arith in
        rw e (lookup-put j i a m ∙ (rw q h.0), put-IsMap i a m h.1)
  ]

  pub or_else-none : (o : Option A) → or_else o none ≡ o
  or_else-none none = refl
  or_else-none (some a) = refl
