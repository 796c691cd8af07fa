-- ===== src/Examples/Bytes.antt =====
-- Runs of the theorems on byte strings, numbers and hashes.
use Prim.Native.Nat.{compare}
use go_incognito_sdk_v.Base.{
  ◌⊎◌, ℕ, zero, suc, ◌<◌, ◌≤◌, ◌^◌, ◌≡◌, refl, some, replicate, ok, err, arith, All,
}
use go_incognito_sdk_v.Base.Bytes.{to_nat, fixed, IsByte}
use go_incognito_sdk_v.Common.{add_padding_big_int, panic}
use go_incognito_sdk_v.Common.Convert.{add_padding_big_int_lem}
use go_incognito_sdk_v.Common.Hash.{cmp}
use go_incognito_sdk_v.Common.Hash.Order.{cmp-compare}
use go_incognito_sdk_v.Examples.Toy.{key}

zeros-IsByte : (n : ℕ) → All IsByte (replicate n 0)
zeros-IsByte zero = tt
zeros-IsByte (suc n) = (omega arith, zeros-IsByte n)

key-IsByte : (n : ℕ) → n < 256 → All IsByte (key n)
key-IsByte n h = (h, zeros-IsByte 31)

add_padding_big_int_lem_example :
    ((515 < 256 ^ 4) × (add_padding_big_int 515 4 ≡ ok (fixed 4 515)))
    ⊎ ((256 ^ 4 ≤ 515) × (add_padding_big_int 515 4 ≡ err panic))
add_padding_big_int_lem_example = add_padding_big_int_lem 515 4

cmp-compare_example :
    cmp (some (key 3)) (some (key 200)) ≡ ok (compare (to_nat (key 3)) (to_nat (key 200)))
cmp-compare_example =
    cmp-compare (key 3) (key 200) (key-IsByte 3 (omega arith)) (key-IsByte 200 (omega arith)) refl
      refl
