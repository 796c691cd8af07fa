-- ===== src/Common/Convert.antt =====
-- The conversions of common/common.go, one after the other.
use Prim.Native.Nat.{◌^◌}
use go_incognito_sdk_v.Base.{
  ◌⊎◌, le_or_lt, ℕ, zero, suc, ◌-◌, ◌≤◌, ◌<◌, ◌≡◌, refl, sym, ap, ◌∙◌, inl, inr, List, [], ◌∷◌,
  ◌++◌, arith, ◌==◌, Bool-cases, length, length-append, length-replicate, replicate, All,
  All-append, ok, err,
}
use go_incognito_sdk_v.Base.Bytes.{
  IsByte, IsU32, to_nat, of_nat, fixed, to_nat-fixed, length-fixed, to_nat-of_nat, length-of_nat,
  of_nat_pos, of_nat-IsByte, lt-length-of_nat, fixed-to_nat,
}
use go_incognito_sdk_v.Common.{
  panic, int_to_bytes, bytes_to_int, bytes_to_uint32, uint32_to_bytes, add_padding_big_int,
}

-- Zeros in front do not change the number.
pub to_nat-zeros : (k : ℕ) (bs : List ℕ) → to_nat (replicate k 0 ++ bs) ≡ to_nat bs
unfolding to_nat
to_nat-zeros zero bs = refl
to_nat-zeros (suc k) bs = to_nat-zeros k bs

to_nat-pad_one : (bs : List ℕ) → to_nat (0 ∷ bs) ≡ to_nat bs
unfolding to_nat
to_nat-pad_one bs = refl

-- A number below 2 ^ 16 is written in two bytes, and read back.
pub bytes_to_int-int_to_bytes :
    (n : ℕ) → n < 65536 → (length (int_to_bytes n) ≡ 2) × (bytes_to_int (int_to_bytes n) ≡ n)
unfolding int_to_bytes bytes_to_int
bytes_to_int-int_to_bytes zero h = unfold to_nat in ground arith
bytes_to_int-int_to_bytes (suc n) h = ground (
  arith,
  length-of_nat 2 (suc n) (omega arith),
  of_nat_pos (suc n) (omega arith),
  to_nat-of_nat (suc n),
  to_nat-pad_one (of_nat (suc n)),
)

-- From 2 ^ 16 on `int_to_bytes` writes nothing, and what is read back is 0.
pub int_to_bytes_overflow :
    (n : ℕ) → 65536 ≤ n → (int_to_bytes n ≡ []) × (bytes_to_int (int_to_bytes n) ≡ 0)
unfolding int_to_bytes bytes_to_int
int_to_bytes_overflow n h = ground (arith, lt-length-of_nat 2 n (omega arith))

-- A uint32 is written in four bytes, and read back from them.
pub bytes_to_uint32-uint32_to_bytes :
    (n : ℕ)
    → IsU32 n
    → (bytes_to_uint32 (uint32_to_bytes n) ≡ ok n) × (length (uint32_to_bytes n) ≡ 4)
unfolding bytes_to_uint32 uint32_to_bytes
bytes_to_uint32-uint32_to_bytes n h = ground (arith, length-fixed 4 n, to_nat-fixed 4 n)

-- Bytes that are read as a uint32 are what it is written as.
pub uint32_to_bytes-bytes_to_uint32 :
    (bs : List ℕ) {n : ℕ} → All IsByte bs → bytes_to_uint32 bs ≡ ok n → uint32_to_bytes n ≡ bs
unfolding bytes_to_uint32 uint32_to_bytes
uint32_to_bytes-bytes_to_uint32 bs {n = n} h e = elim (Bool-cases (length bs == 4)) [
  | inl p ↦ let q : to_nat bs ≡ n = cc (rw p at e) in rw (← q) (fixed-to_nat bs 4 h (ground arith))
  | inr p ↦ cc (rw p at e)
]

zeros-IsByte : (k : ℕ) → All IsByte (replicate k 0)
zeros-IsByte zero = tt
zeros-IsByte (suc k) = (omega arith, zeros-IsByte k)

padded :
    (k n : ℕ) → length (of_nat n) ≤ k → replicate (k - length (of_nat n)) 0 ++ of_nat n ≡ fixed k n
padded k n h =
    let bs = replicate (k - length (of_nat n)) 0 ++ of_nat n in
    let v : to_nat bs ≡ n = to_nat-zeros (k - length (of_nat n)) (of_nat n) ∙ to_nat-of_nat n in
    let l : length bs ≡ k = omega (
      arith,
      length-append (replicate (k - length (of_nat n)) 0) (of_nat n),
      length-replicate {A = ℕ} (k - length (of_nat n)) 0,
    ) in
    let b : All IsByte bs =
      All-append IsByte _ _ (zeros-IsByte (k - length (of_nat n))) (of_nat-IsByte n) in
    sym (fixed-to_nat bs k b l) ∙ ap (fixed k) v

-- A big integer is padded to exactly `fixed_size` big-endian bytes if it fits in them, and the
-- function panics if it does not.
pub add_padding_big_int_lem :
    (n fixed_size : ℕ)
    → ((n < 256 ^ fixed_size) × (add_padding_big_int n fixed_size ≡ ok (fixed fixed_size n)))
      ⊎ ((256 ^ fixed_size ≤ n) × (add_padding_big_int n fixed_size ≡ err panic))
unfolding add_padding_big_int
add_padding_big_int_lem n k = elim (le_or_lt (256 ^ k) n) [
  | inl large ↦ inr (large, ground (arith, lt-length-of_nat k n large))
  | inr fits ↦ inl (fits, let l = length-of_nat k n fits in rw (← padded k n l) (ground arith))
]
