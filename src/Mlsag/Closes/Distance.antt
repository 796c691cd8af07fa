-- ===== src/Mlsag/Closes/Distance.antt =====
-- The places of a ring, and how far it is from one to the signer's.
use native.Mathlib.Nat.{mod-eq_of_lt, mod_self}
use go_incognito_sdk_v.Base.{
  ℕ, zero, suc, ◌+◌, ◌-◌, ◌%◌, ◌<◌, ◌≡◌, refl, ap, ◌∙◌, ◌⊎◌, inl, inr, false, List, [], ◌∷◌, some,
  length, get_elem?, All, arith, ◌==◌, if◌then◌else◌, Bool-cases, leb, le_or_lt,
}

-- The place after a place of a ring.
pub after_last :
    (i n : ℕ) → i < n → ((suc i < n) × ((i + 1) % n ≡ i + 1)) ⊎ ((suc i ≡ n) × ((i + 1) % n ≡ 0))
after_last i n h = elim (le_or_lt n (i + 1)) [
  | inr more ↦ inl (omega arith, mod-eq_of_lt more)
  | inl last ↦ let e : i + 1 ≡ n = omega arith in inr (omega arith, ap (λ x. x % n) e ∙ mod_self n)
]

-- How many places it is from a place on to the signer's.
abbrev pub distance : ℕ → ℕ → ℕ → ℕ
distance n pi i = if leb i pi then pi - i else pi + n - i

pub distance-next :
    (n pi i : ℕ)
    → i < n
    → pi < n
    → (i == pi) ≡ false
    → (suc (distance n pi ((i + 1) % n)) ≡ distance n pi i) × ((i + 1) % n < n)
distance-next n pi i hi hp e = elim (after_last i n hi) [
  | inl (more, q) ↦ rw q (ground arith, omega arith)
  | inr (last, q) ↦ rw q (ground arith, omega arith)
]

pub distance-same :
    (n pi i j : ℕ) → i < n → j < n → pi < n → distance n pi i ≡ distance n pi j → i ≡ j
distance-same n pi i j hi hj hp e = ground arith

pub farther : (n pi i j : ℕ) → distance n pi i < distance n pi j → (j == i) ≡ false
farther n pi i j h = elim (Bool-cases (j == i)) [
  | inr e ↦ e
  | inl e ↦ let q : j ≡ i = ground arith in absurd (ground arith)
]

pub distance_start : (n pi : ℕ) → pi < n → suc (distance n pi ((pi + 1) % n)) ≡ n
distance_start n pi hp = elim (after_last pi n hp) [
  | inl (more, q) ↦ rw q (ground arith)
  | inr (last, q) ↦ rw q (ground arith)
]

pub All-get {ℓ} :
    {A : Type 0} (P : A → Type ℓ) (xs : List A) (i : ℕ)
    → All P xs
    → i < length xs
    → (x : A) × (get_elem? xs i ≡ some x) × P x
All-get P [] i h lt = absurd (omega arith)
All-get P (x ∷ xs) zero h lt = (x, refl, h.0)
All-get P (x ∷ xs) (suc i) h lt = All-get P xs i h.1 (omega arith)
