-- ===== src/Coin/Fields.antt =====
-- The fields of coin/utils.go, written and parsed one by one.
use go_incognito_sdk_v.Base.{
  ℕ, zero, suc, ◌%◌, ◌≡◌, refl, ap, List, [], ◌∷◌, ◌++◌, Option, none, some, length, replicate,
  take, Result, ok, min, arith, take-append, drop-append, length-take, length-append,
}
use go_incognito_sdk_v.Coin.{
  Error, Step, assign, ◌>>◌, key_field, info_field, parse_scalar_for_set_bytes,
  parse_point_for_set_bytes, parse_info_for_set_bytes, max_size_info_coin,
}
use go_incognito_sdk_v.Crypto.{Key, Curve, point_from_bytes, scalar_from_bytes}
use go_incognito_sdk_v.Crypto.Laws.{IsPoint}

abbrev pub IsKey : Key → Type 0
IsKey k = length k ≡ 32

abbrev pub IsScalarField : Option Key → Type 0
IsScalarField none = Unit
IsScalarField (some k) = IsKey k

-- A point that is set is a key that decompresses.
abbrev pub IsPointField : Curve → Option Key → Type 0
IsPointField c none = Unit
IsPointField c (some k) = IsPoint c k

scalar_from_bytes_key : (k : Key) → IsKey k → scalar_from_bytes k ≡ k
unfolding scalar_from_bytes
scalar_from_bytes_key k h = take-append 32 k (replicate 32 0) h

pub parse_scalar_key_field :
    (o : Option Key) (rest : List ℕ)
    → IsScalarField o
    → parse_scalar_for_set_bytes (key_field o ++ rest) ≡ ok (o, rest)
unfolding parse_scalar_for_set_bytes key_field
parse_scalar_key_field none rest h = refl
parse_scalar_key_field (some k) rest h = ground (
  arith,
  take-append 32 k rest h,
  drop-append 32 k rest h,
  scalar_from_bytes_key k h,
  length-append k rest,
)

pub parse_point_key_field :
    (c : Curve) (o : Option Key) (rest : List ℕ)
    → IsPointField c o
    → parse_point_for_set_bytes c (key_field o ++ rest) ≡ ok (o, rest)
unfolding parse_point_for_set_bytes point_from_bytes key_field
parse_point_key_field c none rest h = refl
parse_point_key_field c (some k) rest h =
    ground (arith, take-append 32 k rest h.0, drop-append 32 k rest h.0, length-append k rest)

-- What is kept of the info of a coin.
abbrev pub kept_info : List ℕ → List ℕ
kept_info info = take max_size_info_coin info

take-min : (n : ℕ) (xs : List ℕ) → take (min (length xs) n) xs ≡ take n xs
take-min zero xs = ground (arith, zero_min)
  where
    zero_min : min (length xs) 0 ≡ 0
    zero_min = omega arith
take-min (suc n) [] = ground arith
take-min (suc n) (x ∷ xs) =
    let e : min (suc (length xs)) (suc n) ≡ suc (min (length xs) n) = omega arith in
    rw e (ap (λ t. x ∷ t) (take-min n xs))

pub info_field_lem : (info : List ℕ) → info_field info ≡ length (kept_info info) ∷ kept_info info
unfolding info_field
info_field_lem info =
    let e : min (length info) 255 % 256 ≡ min (length info) 255 = omega arith in
    let l : length (take 255 info) ≡ min (length info) 255 = omega (arith, length-take 255 info) in
    rw (e, take-min 255 info, l)

parse_info_sized :
    (info rest : List ℕ) → parse_info_for_set_bytes (length info ∷ (info ++ rest)) ≡ ok (info, rest)
unfolding parse_info_for_set_bytes
parse_info_sized [] rest = refl
parse_info_sized (x ∷ xs) rest = ground (
  arith,
  length-append (x ∷ xs) rest,
  take-append (suc (length xs)) (x ∷ xs) rest refl,
  drop-append (suc (length xs)) (x ∷ xs) rest refl,
)

pub parse_info_field :
    (info rest : List ℕ)
    → parse_info_for_set_bytes (info_field info ++ rest) ≡ ok (kept_info info, rest)
parse_info_field info rest = rw info_field_lem (parse_info_sized (kept_info info) rest)

-- One step of a method on a field that parses.
pub assign_step :
    {S X : Type 0} (parse : List ℕ → Result Error (X × List ℕ)) (nil_value : X) (set : X → S → S)
    (k : Step S) (s : S) (bytes : List ℕ) {x : X} {rest : List ℕ}
    → parse bytes ≡ ok (x, rest)
    → (assign parse nil_value set >> k) s bytes ≡ k (set x s) rest
assign_step parse nil_value set k s bytes e = rw (e, assign)
