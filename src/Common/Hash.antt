-- ===== src/Common/Hash.antt =====
-- common/hash.go: a hash of 32 bytes, its hexadecimal text (byte-reversed) and its order.
pub mod Text
pub mod Order
use Prim.Native.Nat.{Ordering}
use go_incognito_sdk_v.Base.{
  ℕ, zero, suc, ◌+◌, ◌-◌, ◌*◌, ◌/◌, ◌%◌, ◌≤◌, ◌<◌, Bool, true, false, ◌&&◌, ◌||◌, List, [], ◌∷◌,
  ◌++◌, Option, none, some, ltb, leb, ◌==◌, if◌then◌else◌, length, replicate, take, drop, reverse,
  Result, ok, err, ◌>>=◌,
}

pub data Error : Type 0 where
  invalid_max_hash_size invalid_hash_size nil_hash hex_error : Error

abbrev pub hash_size : ℕ
hash_size = 32

abbrev pub max_hash_string_size : ℕ
max_hash_string_size = hash_size * 2

unfoldable pub same_bytes : List ℕ → List ℕ → Bool
same_bytes [] [] = true
same_bytes (a ∷ as') (b ∷ bs) = (a == b) && same_bytes as' bs
same_bytes _ _ = false

-- hex.EncodeToString: two lower-case digits for each byte
abbrev pub hex_digit : ℕ → ℕ
hex_digit d = if ltb d 10 then d + b'0' else d - 10 + b'a'

unfoldable pub encode_to_string : List ℕ → List ℕ
encode_to_string [] = []
encode_to_string (b ∷ bs) = hex_digit (b / 16) ∷ hex_digit (b % 16) ∷ encode_to_string bs

-- The value of a digit in either case; `none` is InvalidByteError.
abbrev pub from_hex_char : ℕ → Option ℕ
from_hex_char c =
    if leb b'0' c && leb c b'9'
    then some (c - b'0')
    else if leb b'a' c && leb c b'f'
    then some (c - b'a' + 10)
    else if leb b'A' c && leb c b'F'
    then some (c - b'A' + 10)
    else none

abbrev byte_of : Option ℕ → Option ℕ → Result Error ℕ
byte_of (some a) (some b) = ok (a * 16 + b)
byte_of _ _ = err hex_error

-- hex.Decode; a text of odd length is an error
unfoldable pub decode_string : List ℕ → Result Error (List ℕ)
decode_string [] = ok []
decode_string (c ∷ []) = err hex_error
decode_string (c ∷ d ∷ s) = do
  b ← byte_of (from_hex_char c) (from_hex_char d)
  bs ← decode_string s
  ok (b ∷ bs)

unfoldable pub set_bytes : List ℕ → Result Error (List ℕ)
set_bytes new_hash = if length new_hash == hash_size then ok new_hash else err invalid_hash_size

-- The loop swaps the bytes at `i` and `HashSize-1-i`, over a copy of the hash.
unfoldable pub string : List ℕ → List ℕ
string hash = encode_to_string (reverse hash)

-- The text is padded to an even length by a zero in front, decoded to the end of a zeroed hash, and
-- that hash is reversed into the destination.
unfoldable pub decode : List ℕ → Result Error (List ℕ)
decode src = if ltb max_hash_string_size (length src) then err invalid_max_hash_size else do
  bytes ← decode_string (if length src % 2 == 0 then src else b'0' ∷ src)
  ok (reverse (replicate (hash_size - length bytes) 0 ++ bytes))

-- `nil` is `none`; two hashes are the same array or they are not.
unfoldable pub is_equal : Option (List ℕ) → Option (List ℕ) → Bool
unfolding same_bytes
is_equal none none = true
is_equal (some a) (some b) = same_bytes a b
is_equal _ _ = false

-- The loop over the 32 bytes: the first difference decides. The answers -1, 0 and 1 are `lt`, `eq`
-- and `gt`.
unfoldable pub cmp_loop : List ℕ → List ℕ → Ordering
cmp_loop (a ∷ bytes) (b ∷ target) =
    if ltb b a then Ordering.gt else if ltb a b then Ordering.lt else cmp_loop bytes target
cmp_loop _ _ = Ordering.eq

unfoldable pub cmp : Option (List ℕ) → Option (List ℕ) → Result Error Ordering
unfolding cmp_loop
cmp (some a) (some b) = ok (cmp_loop a b)
cmp _ _ = err nil_hash
