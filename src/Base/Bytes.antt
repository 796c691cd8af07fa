-- ===== src/Base/Bytes.antt =====
-- Byte strings as lists of numbers, most significant byte first where they stand for a number.
-- `to_nat` is SetBytes of Go's big.Int, `of_nat` is its Bytes, and `fixed k` writes `k` bytes.
use Prim.Native.Nat.{ℕ, zero, suc, ◌+◌, ◌*◌, ◌/◌, ◌%◌, ◌^◌, ◌≤◌, ◌<◌}
use mathlib.Core.Path.{◌≡◌, refl, ◌∙◌}
use mathlib.Core.Logic.{inl, inr}
use mathlib.Core.List.{List, [], ◌∷◌, ◌++◌, append-nil, append_assoc, reverse, reverse-cons}
use native.Mathlib.Omega.{arith}
use native.Mathlib.Nat.{pow-suc, zero-add}
use go_incognito_sdk_v.Base.Tests.{◌==◌, if◌then◌else◌, Bool-cases}
use go_incognito_sdk_v.Base.Lists.{length, length-append, All, All-append}

abbrev pub IsByte : ℕ → Type 0
IsByte b = b < 256

abbrev pub IsU32 : ℕ → Type 0
IsU32 n = n < 2 ^ 32

abbrev pub IsU64 : ℕ → Type 0
IsU64 n = n < 2 ^ 64

unfoldable pub to_nat_from : ℕ → List ℕ → ℕ
to_nat_from acc [] = acc
to_nat_from acc (b ∷ bs) = to_nat_from (acc * 256 + b) bs

unfoldable pub to_nat : List ℕ → ℕ
unfolding to_nat_from
to_nat bs = to_nat_from 0 bs

unfoldable pub fixed : ℕ → ℕ → List ℕ
fixed zero n = []
fixed (suc k) n = fixed k (n / 256) ++ (n % 256 ∷ [])

unfoldable pub of_nat_fuel : ℕ → ℕ → List ℕ
of_nat_fuel zero n = []
of_nat_fuel (suc f) n =
    let rest = of_nat_fuel f (n / 256) in if n == 0 then [] else rest ++ (n % 256 ∷ [])

-- A number is more than its count of bytes, so it is fuel enough: see `to_nat-of_nat`.
unfoldable pub of_nat : ℕ → List ℕ
unfolding of_nat_fuel
of_nat n = of_nat_fuel n n

to_nat_from-append :
    (acc : ℕ) (xs ys : List ℕ) → to_nat_from acc (xs ++ ys) ≡ to_nat_from (to_nat_from acc xs) ys
unfolding to_nat_from
to_nat_from-append acc [] ys = refl
to_nat_from-append acc (x ∷ xs) ys = to_nat_from-append (acc * 256 + x) xs ys

pub to_nat-snoc : (xs : List ℕ) (b : ℕ) → to_nat (xs ++ (b ∷ [])) ≡ to_nat xs * 256 + b
unfolding to_nat
to_nat-snoc xs b = to_nat_from-append 0 xs (b ∷ [])

pub to_nat-fixed : (k n : ℕ) → n < 256 ^ k → to_nat (fixed k n) ≡ n
unfolding fixed
to_nat-fixed zero n h = unfold to_nat in omega arith
to_nat-fixed (suc k) n h =
    rw to_nat-snoc (rw (to_nat-fixed k (n / 256) (omega (arith, pow-suc 256 k))) (omega arith))

pub length-fixed : (k n : ℕ) → length (fixed k n) ≡ k
unfolding fixed
length-fixed zero n = refl
length-fixed (suc k) n =
    omega (arith, length-fixed k (n / 256), length-append (fixed k (n / 256)) (n % 256 ∷ []))

pub fixed-IsByte : (k n : ℕ) → All IsByte (fixed k n)
unfolding fixed
fixed-IsByte zero n = tt
fixed-IsByte (suc k) n =
    All-append IsByte (fixed k (n / 256)) (n % 256 ∷ []) (fixed-IsByte k (n / 256)) (omega arith)

to_nat-of_nat_fuel : (f n : ℕ) → n ≤ f → to_nat (of_nat_fuel f n) ≡ n
unfolding of_nat_fuel
to_nat-of_nat_fuel zero n h = unfold to_nat in omega arith
to_nat-of_nat_fuel (suc f) n h = elim (Bool-cases (n == 0)) [
  | inl e ↦ rw e (unfold to_nat in ground arith)
  | inr e ↦ rw e (rw to_nat-snoc (rw (to_nat-of_nat_fuel f (n / 256) (ground arith)) (omega arith)))
]

pub to_nat-of_nat : (n : ℕ) → to_nat (of_nat n) ≡ n
unfolding of_nat
to_nat-of_nat n = to_nat-of_nat_fuel n n (omega arith)

length-of_nat_fuel : (k f n : ℕ) → n < 256 ^ k → length (of_nat_fuel f n) ≤ k
unfolding of_nat_fuel
length-of_nat_fuel k zero n h = omega arith
length-of_nat_fuel zero (suc f) n h = elim (Bool-cases (n == 0)) [
  | inl e ↦ rw e (omega arith)
  | inr e ↦ absurd (ground arith)
]
length-of_nat_fuel (suc k) (suc f) n h = elim (Bool-cases (n == 0)) [
  | inl e ↦ rw e (omega arith)
  | inr e ↦ rw e (
      omega (
        arith,
        length-append (of_nat_fuel f (n / 256)) (n % 256 ∷ []),
        length-of_nat_fuel k f (n / 256) (omega (arith, pow-suc 256 k)),
      ))
]

-- The shortest writing of a number below 256 ^ k takes at most `k` bytes.
pub length-of_nat : (k n : ℕ) → n < 256 ^ k → length (of_nat n) ≤ k
unfolding of_nat
length-of_nat k n h = length-of_nat_fuel k n n h

of_nat_fuel-IsByte : (f n : ℕ) → All IsByte (of_nat_fuel f n)
unfolding of_nat_fuel
of_nat_fuel-IsByte zero n = tt
of_nat_fuel-IsByte (suc f) n = elim (Bool-cases (n == 0)) [
  | inl e ↦ rw e tt
  | inr e ↦ rw e (
      All-append IsByte (of_nat_fuel f (n / 256)) (n % 256 ∷ []) (of_nat_fuel-IsByte f (n / 256))
        (omega arith))
]

pub of_nat-IsByte : (n : ℕ) → All IsByte (of_nat n)
unfolding of_nat
of_nat-IsByte n = of_nat_fuel-IsByte n n

-- A positive number takes a byte at least.
pub of_nat_pos : (n : ℕ) → 0 < n → 0 < length (of_nat n)
unfolding of_nat of_nat_fuel
of_nat_pos zero h = absurd (omega arith)
of_nat_pos (suc n) h =
    ground (arith, length-append (of_nat_fuel n (suc n / 256)) (suc n % 256 ∷ []))

pow_pos : (k : ℕ) → 0 < 256 ^ k
pow_pos zero = omega arith
pow_pos (suc k) = omega (arith, pow-suc 256 k, pow_pos k)

of_nat_fuel_long : (k f n : ℕ) → 256 ^ k ≤ n → n ≤ f → k < length (of_nat_fuel f n)
unfolding of_nat_fuel
of_nat_fuel_long zero zero n h hf = absurd (omega arith)
of_nat_fuel_long (suc k) zero n h hf = absurd (omega (arith, pow-suc 256 k, pow_pos k))
of_nat_fuel_long zero (suc f) n h hf = elim (Bool-cases (n == 0)) [
  | inl e ↦ absurd (ground arith)
  | inr e ↦ rw e (omega (arith, length-append (of_nat_fuel f (n / 256)) (n % 256 ∷ [])))
]
of_nat_fuel_long (suc k) (suc f) n h hf = elim (Bool-cases (n == 0)) [
  | inl e ↦ absurd (ground (arith, pow-suc 256 k, pow_pos k))
  | inr e ↦
      let p : 256 ^ k ≤ n / 256 = omega (arith, pow-suc 256 k) in
      let q : n / 256 ≤ f = omega (arith, pow-suc 256 k, pow_pos k) in
      rw e (
        omega (
          arith,
          length-append (of_nat_fuel f (n / 256)) (n % 256 ∷ []),
          of_nat_fuel_long k f (n / 256) p q,
        ))
]

-- The shortest writing of a number from 256 ^ k on takes more than `k` bytes.
pub lt-length-of_nat : (k n : ℕ) → 256 ^ k ≤ n → k < length (of_nat n)
unfolding of_nat
lt-length-of_nat k n h = of_nat_fuel_long k n n h (omega arith)

fixed-to_nat_from :
    (bs : List ℕ) (k acc : ℕ)
    → All IsByte bs
    → fixed (length bs + k) (to_nat_from acc bs) ≡ fixed k acc ++ bs
unfolding to_nat_from
fixed-to_nat_from [] k acc h = rw append-nil (rw zero-add)
fixed-to_nat_from (b ∷ bs) k acc h =
    let e : suc (length bs) + k ≡ length bs + suc k = omega arith in
    rw e (
      fixed-to_nat_from bs (suc k) (acc * 256 + b) h.1
      ∙ (unfold fixed in
          let q : (acc * 256 + b) / 256 ≡ acc = omega (arith, h.0) in
          let r : (acc * 256 + b) % 256 ≡ b = omega (arith, h.0) in
          rw (q, r) (append_assoc (fixed k acc) (b ∷ []) bs)))

-- The bytes of a number of known length are the bytes that it was read from.
pub fixed-to_nat : (bs : List ℕ) (k : ℕ) → All IsByte bs → length bs ≡ k → fixed k (to_nat bs) ≡ bs
unfolding to_nat
fixed-to_nat bs k h e =
    let e' : length bs + 0 ≡ k = omega arith in
    rw (← e') (fixed-to_nat_from bs 0 0 h ∙ (unfold fixed in refl))

pub reverse-IsByte : (bs : List ℕ) → All IsByte bs → All IsByte (reverse bs)
reverse-IsByte [] h = tt
reverse-IsByte (b ∷ bs) h =
    rw reverse-cons (All-append IsByte (reverse bs) (b ∷ []) (reverse-IsByte bs h.1) (h.0, tt))
