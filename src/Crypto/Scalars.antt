-- ===== src/Crypto/Scalars.antt =====
-- Scalars of crypto/scalar.go as numbers: little-endian bytes, their order and their powers.
use Prim.Native.Nat.{compare}
use mathlib.Core.List.{reverse-cons}
use go_incognito_sdk_v.Base.{
  ◌⊎◌, inl, inr, le_or_lt, ℕ, zero, suc, ◌-◌, ◌/◌, ◌^◌, ◌≤◌, ◌<◌, ◌≡◌, refl, length, reverse, All,
  length-reverse, arith,
}
use go_incognito_sdk_v.Base.Bytes.{IsByte, reverse-IsByte, IsU64, to_nat, fixed, to_nat-fixed}
use go_incognito_sdk_v.Common.Hash.Order.{cmp_loop-compare}
use go_incognito_sdk_v.Crypto.{
  Key, Curve, d2h_loop, d2h, to_uint64_little, compare_scalars, repeat, exp,
}

reverse-d2h_loop : (k v : ℕ) → reverse (d2h_loop k v) ≡ fixed k v
unfolding d2h_loop fixed
reverse-d2h_loop zero v = refl
reverse-d2h_loop (suc k) v = rw (reverse-cons, reverse-d2h_loop k (v / 256))

-- The scalar of a uint64 is read back as that number.
pub to_uint64_little-d2h : (v : ℕ) → IsU64 v → to_uint64_little (d2h v) ≡ v
unfolding to_uint64_little d2h
to_uint64_little-d2h v h = rw (reverse-d2h_loop 32 v, to_nat-fixed 32 v (omega arith)) (omega arith)

-- Compare of two scalars of 32 bytes compares the little-endian numbers that they write.
pub compare_scalars-compare :
    (a b : Key)
    → All IsByte a
    → All IsByte b
    → length a ≡ 32
    → length b ≡ 32
    → compare_scalars a b ≡ compare (to_nat (reverse a)) (to_nat (reverse b))
unfolding compare_scalars to_nat
compare_scalars-compare a b ha hb la lb =
    cmp_loop-compare 0 (reverse a) (reverse b) (reverse-IsByte a ha) (reverse-IsByte b hb)
      (omega (arith, length-reverse a, length-reverse b))

-- Exp is the power for exponents from 2 to 2 ^ 63 - 1, a multiplied by a as often as is missing. For
-- 0 and 1, and for the exponents that int makes negative, it is the square.
pub exp_lem :
    (c : Curve) (a : Key) (v : ℕ)
    → ((2 ≤ v) × (v < 2 ^ 63) × (exp c a v ≡ repeat (v - 1) (λ res. c.sc_mul res a) a))
      ⊎ (((v < 2) ⊎ (2 ^ 63 ≤ v)) × (exp c a v ≡ c.sc_mul a a))
unfolding exp repeat
exp_lem c a zero = inr (inl (omega arith), refl)
exp_lem c a (suc zero) = inr (inl (omega arith), refl)
exp_lem c a (suc (suc n)) = elim (le_or_lt (2 ^ 63) (suc (suc n))) [
  | inl large ↦ inr (inr large, ground arith)
  | inr small ↦ inl (omega arith, small, ground arith)
]
