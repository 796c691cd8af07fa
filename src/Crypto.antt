-- ===== src/Crypto.antt =====
-- crypto/scalar.go, crypto/point.go and crypto/pedersen.go over the operations of
-- crypto/curve25519, which are the fields of `Curve`. A key is its 32 bytes, and a Point or a Scalar
-- is its key.
pub mod Scalars
pub mod Laws
use Prim.Native.Nat.{bit_or, Ordering}
use go_incognito_sdk_v.Base.{
  ℕ, zero, suc, ◌+◌, ◌-◌, ◌*◌, ◌/◌, ◌%◌, ◌^◌, ◌≤◌, ◌<◌, ◌≡◌, Bool, true, false, List, [], ◌∷◌, ◌++◌,
  Option, none, some, ltb, leb, ◌==◌, if◌then◌else◌, length, replicate, take, drop, reverse, Result,
  ok, err, ◌>>=◌, min,
}
use go_incognito_sdk_v.Base.Bytes.{to_nat}
use go_incognito_sdk_v.Common.Hash.{same_bytes, cmp_loop}

pub data Error : Type 0 where
  invalid_key_size invalid_point invalid_key invalid_openings : Error

abbrev pub Key : Type 0
Key = List ℕ

abbrev pub ed25519_key_size : ℕ
ed25519_key_size = 32

-- What the program calls of crypto/curve25519.
pub record Curve : Type 0 where
  -- ExtendedGroupElement.FromBytes: the key is that of a point
  pub point_valid : Key → Bool
  pub sc_valid : Key → Bool
  pub identity : Key
  pub sc_add : Key → Key → Key
  pub sc_sub : Key → Key → Key
  pub sc_mul : Key → Key → Key
  pub scalarmult_base : Key → Key
  pub scalarmult_key : Key → Key → Key
  pub add_keys : Key → Key → Key
  pub sub_keys : Key → Key → Key
  pub hash_to_scalar : List ℕ → Key
  -- HashToPoint of the Keccak hash
  pub hash_to_point : List ℕ → Key

-- Point.FromBytesS
unfoldable pub point_from_bytes : Curve → List ℕ → Result Error Key
point_from_bytes c b =
    if length b == ed25519_key_size
    then if c.point_valid b then ok b else err invalid_point
    else err invalid_key_size

-- Scalar.FromBytesS copies what fits into a zeroed array.
unfoldable pub scalar_from_bytes : List ℕ → Key
scalar_from_bytes b = take ed25519_key_size (b ++ replicate ed25519_key_size 0)

-- IsPointEqual and IsScalarEqual compare the bytes.
unfoldable pub is_point_equal : Key → Key → Bool
unfolding same_bytes
is_point_equal a b = same_bytes a b

-- `for i := 0; val > 0; i++ { key[i] = byte(val & 0xFF); val /= 256 }` over a zeroed key: the list
-- is what is left of the key, and the loop ends with it since a uint64 has eight bytes at most.
unfoldable pub d2h_loop : ℕ → ℕ → List ℕ
d2h_loop zero val = []
d2h_loop (suc left) val = (val % 256) ∷ d2h_loop left (val / 256)

unfoldable pub d2h : ℕ → Key
unfolding d2h_loop
d2h val = d2h_loop ed25519_key_size val

-- Scalar.FromUint64: nil if the key is not a reduced scalar
unfoldable pub from_uint64 : Curve → ℕ → Option Key
from_uint64 c v = if c.sc_valid (d2h v) then some (d2h v) else none

-- Scalar.ToUint64Little: Uint64 of a big.Int keeps the low 64 bits.
unfoldable pub to_uint64_little : Key → ℕ
to_uint64_little k = to_nat (reverse k) % 2 ^ 64

-- The loop of Compare goes down from the last byte; -1, 0 and 1 are `lt`, `eq` and `gt`.
unfoldable pub compare_scalars : Key → Key → Ordering
unfolding cmp_loop
compare_scalars a b = cmp_loop (reverse a) (reverse b)

unfoldable pub repeat {ℓ} : {A : Type ℓ} → ℕ → (A → A) → A → A
repeat zero f a = a
repeat (suc n) f a = repeat n f (f a)

-- Scalar.Exp: `int(v) - 2` rounds from the square on. From 2 ^ 63 on `int(v)` is negative.
unfoldable pub exp : Curve → Key → ℕ → Key
unfolding repeat
exp c a v = repeat (if ltb v (2 ^ 63) then v - 2 else 0) (λ res. c.sc_mul res a) (c.sc_mul a a)

or_bytes : List ℕ → ℕ
or_bytes [] = 0
or_bytes (b ∷ bs) = bit_or b (or_bytes bs)

-- `((int(or)-1)>>8)+1 == 1`: of 0 the shift makes -1, and the sum is 0.
unfoldable pub is_one : Key → Bool
unfolding or_bytes
is_one k = (if or_bytes k == 0 then 0 else (or_bytes k - 1) / 2 ^ 8 + 1) == 1

-- NewPedersenParams: five generators
pub record PedersenCommitment : Type 0 where
  pub g0 : Key
  pub g1 : Key
  pub g2 : Key
  pub g3 : Key
  pub g4 : Key

-- The message hashed for generator `i` is the base point, the text "bulletproof" and `string(i)`.
unfoldable pub new_pedersen_params : Curve → Key → List ℕ → PedersenCommitment
new_pedersen_params c gbase pad_str =
    let gen = λ (i : ℕ). c.hash_to_point (gbase ++ (pad_str ++ (i ∷ []))) in
    record { g0 = c.scalarmult_base (d2h 1); g1 = gen 1; g2 = gen 2; g3 = gen 3; g4 = gen 4 }

-- `CommitAll` on its five openings; any other number is an error.
unfoldable pub commit_all : Curve → PedersenCommitment → List Key → Result Error Key
commit_all c pcm (a ∷ v ∷ s ∷ d ∷ r ∷ []) =
    let m = λ (g x : Key). c.scalarmult_key g x in
    ok (
      c.add_keys
        (c.add_keys (c.add_keys (c.add_keys (m pcm.g0 a) (m pcm.g1 v)) (m pcm.g2 s)) (m pcm.g3 d))
        (m pcm.g4 r))
commit_all c pcm openings = err invalid_openings

-- AddPedersen: aA + bB
unfoldable pub add_pedersen : Curve → Key → Key → Key → Key → Key
add_pedersen c a pa b pb = c.add_keys (c.scalarmult_key pa a) (c.scalarmult_key pb b)

-- CommitAtIndex at PedersenValueIndex
unfoldable pub commit_at_value_index : Curve → PedersenCommitment → Key → Key → Key
unfolding add_pedersen
commit_at_value_index c pcm value rand = add_pedersen c value pcm.g1 rand pcm.g4
