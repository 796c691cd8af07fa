-- ===== src/Bulletproofs/RangeProof/Rounded.antt =====
-- roundUpPowTwo for the counts of values that Prove admits, and lists padded to that length.
use native.Mathlib.Nat.{pow-suc}
use go_incognito_sdk_v.Bulletproofs.InnerProduct.Accepted.{two_pow_pos}
use go_incognito_sdk_v.Base.{
  ◌*◌, List, [], ◌∷◌, ◌++◌, map, replicate, All, false, ℕ, zero, suc, ◌^◌, ◌≤◌, ◌<◌, ◌≡◌, refl, ap,
  ◌∙◌, Bool, true, ◌&&◌, ltb, leb, ◌==◌, if◌then◌else◌, inl, inr, arith, Bool-cases,
}
use go_incognito_sdk_v.Bulletproofs.RangeProof.{round_up_pow_two}

abbrev exponent : ℕ → ℕ
exponent v =
    if ltb v 2
    then 0
    else if ltb v 3
    then 1
    else if ltb v 5
    then 2
    else if ltb v 9
    then 3
    else if ltb v 17
    then 4
    else 5

abbrev rounds_up : ℕ → Bool
rounds_up v = round_up_pow_two v == 2 ^ exponent v && leb v (2 ^ exponent v)

unfoldable all_below : (ℕ → Bool) → ℕ → Bool
all_below f zero = true
all_below f (suc n) = f n && all_below f n

all_below-lookup : (f : ℕ → Bool) (n v : ℕ) → v < n → all_below f n ≡ true → f v ≡ true
unfolding all_below
all_below-lookup f zero v e t = absurd (omega arith)
all_below-lookup f (suc n) v e t = elim (Bool-cases (v == n)) [
  | inl q ↦ let q' : v ≡ n = ground arith in let t' : f n ≡ true = ground arith in ap f q' ∙ t'
  | inr q ↦ all_below-lookup f n v (ground arith) (ground arith)
]

rounds_up_all : all_below rounds_up 33 ≡ true
unfolding all_below round_up_pow_two
rounds_up_all = refl

-- The result is a power of two that is not below the argument.
pub round_up_pow_two-power : (v : ℕ) → v ≤ 32 → (k : ℕ) × (round_up_pow_two v ≡ 2 ^ k) × (v ≤ 2 ^ k)
round_up_pow_two-power v e =
    let t = all_below-lookup rounds_up 33 v (omega arith) rounds_up_all in
    (exponent v, ground arith, ground arith)

pub padded_pos : (v : ℕ) → v ≤ 32 → 0 < round_up_pow_two v
padded_pos v e = let p = round_up_pow_two-power v e in omega (arith, p.1, two_pow_pos p.0)

pub not_less : (a b : ℕ) → a ≤ b → ltb b a ≡ false
not_less a b e = ground arith

abbrev pub six_more : ℕ → ℕ
six_more k = suc (suc (suc (suc (suc (suc k)))))

pub sixty_four : (k : ℕ) → 64 * 2 ^ k ≡ 2 ^ six_more k
sixty_four k = omega (
  arith,
  pow-suc 2 k,
  pow-suc 2 (suc k),
  pow-suc 2 (suc (suc k)),
  pow-suc 2 (suc (suc (suc k))),
  pow-suc 2 (suc (suc (suc (suc k)))),
  pow-suc 2 (suc (suc (suc (suc (suc k))))),
)

pub map-padded :
    {A : Type 0} (f : ℕ → A) (xs : List ℕ) (n : ℕ)
    → map f (xs ++ replicate n 0) ≡ map f xs ++ replicate n (f 0)
map-padded f [] zero = refl
map-padded f [] (suc n) = ap (λ k. f 0 ∷ k) (map-padded f [] n)
map-padded f (x ∷ xs) n = ap (λ k. f x ∷ k) (map-padded f xs n)

pub zeros-fit : (n : ℕ) → All (λ v. v < 2 ^ 64) (replicate n 0)
zeros-fit zero = tt
zeros-fit (suc n) = (omega arith, zeros-fit n)
