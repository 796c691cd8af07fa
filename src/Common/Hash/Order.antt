-- ===== src/Common/Hash/Order.antt =====
-- Cmp and IsEqual of common/hash.go.
use Prim.Native.Nat.{compare}
use go_incognito_sdk_v.Base.{
  ℕ, ◌+◌, ◌*◌, ◌^◌, ◌≤◌, ◌<◌, ◌≡◌, ◌↔◌, refl, ap, ◌⊎◌, inl, inr, true, List, [], ◌∷◌, Option, none,
  some, length, ok, All, arith,
}
use native.Mathlib.Nat.{pow-suc}
use go_incognito_sdk_v.Base.Bytes.{IsByte, to_nat, to_nat_from}
use go_incognito_sdk_v.Common.Hash.{hash_size, cmp_loop, cmp, is_equal, same_bytes}

-- What is read after `acc` lies in the block of `acc`.
to_nat_from_bounds :
    (acc : ℕ) (bs : List ℕ)
    → All IsByte bs
    → (acc * 256 ^ length bs ≤ to_nat_from acc bs)
      × (to_nat_from acc bs < (acc + 1) * 256 ^ length bs)
unfolding to_nat_from
to_nat_from_bounds acc [] h = omega arith
to_nat_from_bounds acc (b ∷ bs) h =
    let (lo, hi) = to_nat_from_bounds (acc * 256 + b) bs h.1 in
    let p = pow-suc 256 (length bs) in
    let m : b * 256 ^ length bs ≤ 255 * 256 ^ length bs = grind arith in
    rw p (omega (arith, lo, hi, m), omega (arith, lo, hi, m))

trichotomy : (a b : ℕ) → (a < b) ⊎ ((b < a) ⊎ (a ≡ b))
trichotomy a b = ground arith

-- A smaller block comes first, whatever follows.
block_order :
    (x y : ℕ) (as' bs : List ℕ)
    → All IsByte as'
    → All IsByte bs
    → length as' ≡ length bs
    → x < y
    → to_nat_from x as' < to_nat_from y bs
block_order x y as' bs ha hb l h =
    let m : (x + 1) * 256 ^ length bs ≤ y * 256 ^ length bs = grind arith in
    let e : 256 ^ length as' ≡ 256 ^ length bs = ap (λ k. 256 ^ k) l in
    let e' : (x + 1) * 256 ^ length as' ≡ (x + 1) * 256 ^ length bs = ap (λ t. (x + 1) * t) e in
    omega (arith, (to_nat_from_bounds x as' ha).1, (to_nat_from_bounds y bs hb).0, m, e')

pub cmp_loop-compare :
    (acc : ℕ) (as' bs : List ℕ)
    → All IsByte as'
    → All IsByte bs
    → length as' ≡ length bs
    → cmp_loop as' bs ≡ compare (to_nat_from acc as') (to_nat_from acc bs)
unfolding cmp_loop to_nat_from
cmp_loop-compare acc [] [] ha hb l = ground arith
cmp_loop-compare acc [] (b ∷ bs) ha hb l = absurd (omega arith)
cmp_loop-compare acc (a ∷ as') [] ha hb l = absurd (omega arith)
cmp_loop-compare acc (a ∷ as') (b ∷ bs) ha hb l = elim (trichotomy a b) [
  | inl lt ↦
      let o =
        block_order (acc * 256 + a) (acc * 256 + b) as' bs ha.1 hb.1 (omega arith) (omega arith) in
      ground (arith, o)
  | inr (inl gt) ↦
      let o =
        block_order (acc * 256 + b) (acc * 256 + a) bs as' hb.1 ha.1 (omega arith) (omega arith) in
      ground (arith, o)
  | inr (inr e) ↦
      let r = cmp_loop-compare (acc * 256 + a) as' bs ha.1 hb.1 (omega arith) in ground (arith, r)
]

-- `cmp` of two hashes is the comparison of the big-endian numbers that they write.
pub cmp-compare :
    (a b : List ℕ)
    → All IsByte a
    → All IsByte b
    → length a ≡ hash_size
    → length b ≡ hash_size
    → cmp (some a) (some b) ≡ ok (compare (to_nat a) (to_nat b))
unfolding cmp to_nat
cmp-compare a b ha hb la lb = ap ok (cmp_loop-compare 0 a b ha hb (omega arith))

pub same_bytes_refl : (a : List ℕ) → same_bytes a a ≡ true
unfolding same_bytes
same_bytes_refl [] = refl
same_bytes_refl (x ∷ xs) = ground (arith, same_bytes_refl xs)

pub same_bytes→eq : (a b : List ℕ) → same_bytes a b ≡ true → a ≡ b
unfolding same_bytes
same_bytes→eq [] [] h = refl
same_bytes→eq [] (y ∷ ys) h = cc
same_bytes→eq (x ∷ xs) [] h = cc
same_bytes→eq (x ∷ xs) (y ∷ ys) h = ground (arith, same_bytes→eq xs ys)

-- Two hashes are equal exactly when they are both nil or the same bytes.
pub is_equal_iff : (a b : Option (List ℕ)) → (is_equal a b ≡ true) ↔ (a ≡ b)
unfolding is_equal
is_equal_iff none none = (λ h. refl, λ h. refl)
is_equal_iff none (some b) = (λ h. cc, λ h. cc)
is_equal_iff (some a) none = (λ h. cc, λ h. cc)
is_equal_iff (some a) (some b) =
    (λ h. ap some (same_bytes→eq a b h), λ e. let q : a ≡ b = cc in rw q (same_bytes_refl b))
