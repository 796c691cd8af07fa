-- ===== src/Bulletproofs.antt =====
-- privacy/v2/bulletproofs: range proofs with the inner-product argument. Here the vectors of
-- bulletproofs_helper.go, over the group of crypto.Point and the field of crypto.Scalar. The files of
-- privacy/v1/zkp/bulletproofs have the same inner-product argument, line by line.
pub mod Laws
pub mod InnerProduct
pub mod RangeProof
use go_incognito_sdk_v.Base.{
  ℕ, zero, suc, ◌+◌, ◌-◌, ◌*◌, ◌/◌, ◌%◌, ◌≡◌, Bool, true, false, not, ◌||◌, List, [], ◌∷◌, ◌++◌,
  ◌==◌, if◌then◌else◌, length, Result, ok, err, ◌>>=◌, ◌>>◌, fail_if,
}

pub data Error : Type 0 where
  invalid_input incompatible_sizes too_many_values panic out_of_rounds : Error

-- What the proofs use of the reduced values of crypto.Scalar and of the valid ones of crypto.Point.
-- Their methods hand on to crypto/curve25519.
pub record Group : Type 1 where
  pub Scalar : Type 0
  pub Point : Type 0
  pub from_uint64 : ℕ → Scalar
  -- FromUint64(0) and FromUint64(1)
  pub zero_scalar : Scalar
  pub one_scalar : Scalar
  pub add : Scalar → Scalar → Scalar
  pub sub : Scalar → Scalar → Scalar
  pub mul : Scalar → Scalar → Scalar
  pub invert : Scalar → Scalar
  pub identity : Point
  pub plus : Point → Point → Point
  -- ScalarMult
  pub scale : Scalar → Point → Point
  -- ToBytesS
  pub scalar_bytes : Scalar → List ℕ
  pub point_bytes : Point → List ℕ
  pub hash_to_scalar : List ℕ → Scalar

module _ (g : Group) where
  -- The loop of innerProduct: MulAdd(a[i], b[i], result)
  unfoldable pub inner_product_from : g.Scalar → List g.Scalar → List g.Scalar → g.Scalar
  inner_product_from acc (x ∷ xs) (y ∷ ys) = inner_product_from (g.add (g.mul x y) acc) xs ys
  inner_product_from acc xs ys = acc

  unfoldable pub inner_product : List g.Scalar → List g.Scalar → Result Error g.Scalar
  inner_product a b = do
    fail_if (not (length a == length b)) incompatible_sizes
    ok (inner_product_from g.zero_scalar a b)

  -- sum(sList[i] * pList[i]), as the comment of MultiScalarMult says
  unfoldable pub multi_scalar_mult : List g.Scalar → List g.Point → g.Point
  multi_scalar_mult (x ∷ xs) (p ∷ ps) = g.plus (g.scale x p) (multi_scalar_mult xs ps)
  multi_scalar_mult xs ps = g.identity

  unfoldable pub encode_vectors :
      List g.Scalar → List g.Scalar → List g.Point → List g.Point → Result Error g.Point
  encode_vectors l r gs hs = do
    fail_if
        (not (length l == length r) || not (length gs == length l) || not (length hs == length gs))
        invalid_input
    ok (g.plus (multi_scalar_mult l gs) (multi_scalar_mult r hs))

  -- Point.AddPedersen: aA + bB
  abbrev pub add_pedersen : g.Scalar → g.Point → g.Scalar → g.Point → g.Point
  add_pedersen a p b q = g.plus (g.scale a p) (g.scale b q)

  unfoldable pub points_bytes : List g.Point → List ℕ
  points_bytes [] = []
  points_bytes (p ∷ ps) = g.point_bytes p ++ points_bytes ps

  unfoldable pub generate_challenge : List ℕ → List g.Point → g.Scalar
  unfolding points_bytes
  generate_challenge hash_cache values = g.hash_to_scalar (hash_cache ++ points_bytes values)
