-- ===== src/Common.antt =====
-- common/common.go: conversions between integers and bytes, and the shard of a public key.
-- A byte slice is a list of numbers. An error is the value `err`, and `panic` stands for a run-time
-- panic of Go.
pub mod Convert
pub mod Hash
use go_incognito_sdk_v.Base.{
  ℕ, zero, suc, ◌+◌, ◌-◌, ◌%◌, ◌≤◌, ◌<◌, Bool, true, false, ◌&&◌, ◌||◌, List, [], ◌∷◌, ◌++◌, Option,
  none, some, ltb, leb, ◌==◌, if◌then◌else◌, length, replicate, take, drop, Result, ok, err,
}
use go_incognito_sdk_v.Base.Bytes.{to_nat, of_nat, fixed}

pub data Error : Type 0 where
  invalid_length panic : Error

abbrev pub uint32_size : ℕ
uint32_size = 4

-- `num_shards` is MaxShardNumber, which the network configures. With 0 the code panics, which the
-- callers test before.
unfoldable pub get_shard_id_from_last_byte : ℕ → ℕ → ℕ
get_shard_id_from_last_byte num_shards b = b % num_shards % 256

-- The argument is the absolute value of the `int`: `Bytes` of a big.Int forgets the sign, and the
-- function looks at the number in no other way.
unfoldable pub int_to_bytes : ℕ → List ℕ
int_to_bytes n =
    let a = of_nat n in
    if n == 0
    then 0 ∷ 0 ∷ []
    else if ltb 2 (length a)
    then []
    else if length a == 1
    then 0 ∷ a
    else a

unfoldable pub bytes_to_int : List ℕ → ℕ
bytes_to_int bs = if length bs == 2 then to_nat bs else 0

unfoldable pub bytes_to_uint32 : List ℕ → Result Error ℕ
bytes_to_uint32 b = if length b == uint32_size then ok (to_nat b) else err invalid_length

unfoldable pub uint32_to_bytes : ℕ → List ℕ
uint32_to_bytes value = fixed uint32_size value

-- `make([]byte, fixedSize-lenNumBytes)` panics on a negative length.
unfoldable pub add_padding_big_int : ℕ → ℕ → Result Error (List ℕ)
add_padding_big_int num fixed_size =
    let num_bytes = of_nat num in
    if ltb fixed_size (length num_bytes)
    then err panic
    else ok (replicate (fixed_size - length num_bytes) 0 ++ num_bytes)

-- The text is its bytes.
unfoldable pub has_0x_prefix : List ℕ → Bool
has_0x_prefix (c ∷ d ∷ s) = (c == b'0') && (d == b'x' || d == b'X')
has_0x_prefix s = false
