-- ===== src/Bulletproofs/RangeProof.antt =====
-- Witness.Prove of privacy/v2/bulletproofs/bulletproofs.go, the range proof, with the vectors of
-- bulletproofs_helper.go. Random scalars are arguments.
pub mod Ring
pub mod Vectors
pub mod Bits
pub mod Powers
pub mod Steps
pub mod Delta
pub mod Rounded
pub mod Committed
pub mod Folded
pub mod Verifier
pub mod Checked
use Prim.Native.Nat.{bit_or}
use go_incognito_sdk_v.Base.{
  ℕ, zero, suc, ◌+◌, ◌-◌, ◌*◌, ◌/◌, ◌%◌, ◌^◌, ◌≡◌, Bool, true, false, not, ◌||◌, List, [], ◌∷◌,
  ◌++◌, map, ltb, ◌==◌, if◌then◌else◌, length, replicate, take, Result, ok, err, ◌>>=◌, ◌>>◌,
  fail_if,
}
use go_incognito_sdk_v.Bulletproofs.{
  Error, invalid_input, incompatible_sizes, too_many_values, panic, Group, inner_product,
  encode_vectors, add_pedersen, points_bytes, generate_challenge,
}
use go_incognito_sdk_v.Bulletproofs.InnerProduct
use go_incognito_sdk_v.Bulletproofs.InnerProduct.{Proof}

abbrev pub max_exp : ℕ
max_exp = 64

abbrev pub max_output_coin : ℕ
max_output_coin = 32

-- bulletproofParams, and the generators of crypto.PedCom: G[1] for values, and HBase, which is G[4].
pub record Params (g : Group) : Type 0 where
  pub gs : List g.Point
  pub hs : List g.Point
  pub u : g.Point
  pub cs : g.Point
  pub value_base : g.Point
  pub h_base : g.Point

pub record RangeWitness (g : Group) : Type 0 where
  pub values : List ℕ
  pub rands : List g.Scalar

-- The random scalars of Prove.
pub record RangeDraws (g : Group) : Type 0 where
  pub s_l : List g.Scalar
  pub s_r : List g.Scalar
  pub alpha : g.Scalar
  pub rho : g.Scalar
  pub tau1 : g.Scalar
  pub tau2 : g.Scalar

-- The version, which Init sets to 2, is left out.
pub record RangeProof (g : Group) : Type 0 where
  pub cms_value : List g.Point
  pub a : g.Point
  pub s : g.Point
  pub t1 : g.Point
  pub t2 : g.Point
  pub tau_x : g.Scalar
  pub t_hat : g.Scalar
  pub mu : g.Scalar
  pub inner_product_proof : Proof g

-- `v--`, then `v |= v >> 1` up to `v |= v >> 16`, then `v++`
unfoldable pub round_up_pow_two : ℕ → ℕ
round_up_pow_two v =
    if v == 0
    then 1
    else let smear = λ (w s : ℕ). bit_or w (w / 2 ^ s) in
      smear (smear (smear (smear (smear (v - 1) 1) 2) 4) 8) 16 + 1

module _ (g : Group) where
  -- The loop of ConvertUint64ToBinary
  unfoldable pub binary_from : ℕ → ℕ → List g.Scalar
  binary_from number zero = []
  binary_from number (suc n) = g.from_uint64 (number % 2) ∷ binary_from (number / 2) n

  unfoldable pub convert_uint64_to_binary : ℕ → ℕ → List g.Scalar
  unfolding binary_from
  convert_uint64_to_binary number n =
      if number == 0 then replicate n (g.from_uint64 0) else binary_from number n

  unfoldable pub zip_scalars :
      (g.Scalar → g.Scalar → g.Scalar) → List g.Scalar → List g.Scalar → List g.Scalar
  zip_scalars op (x ∷ xs) (y ∷ ys) = op x y ∷ zip_scalars op xs ys
  zip_scalars op xs ys = []

  unfoldable pub vector_add : List g.Scalar → List g.Scalar → Result Error (List g.Scalar)
  unfolding zip_scalars
  vector_add a b = do
    fail_if (not (length a == length b)) incompatible_sizes
    ok (zip_scalars g.add a b)

  unfoldable pub hadamard_product : List g.Scalar → List g.Scalar → Result Error (List g.Scalar)
  unfolding zip_scalars
  hadamard_product a b = do
    fail_if (not (length a == length b)) invalid_input
    ok (zip_scalars g.mul a b)

  abbrev pub vector_add_scalar : List g.Scalar → g.Scalar → List g.Scalar
  vector_add_scalar v s = map (λ a. g.add a s) v

  abbrev pub vector_mul_scalar : List g.Scalar → g.Scalar → List g.Scalar
  vector_mul_scalar v s = map (λ a. g.mul a s) v

  -- `n` powers, of which `p` is the first.
  unfoldable pub powers_from : g.Scalar → g.Scalar → ℕ → List g.Scalar
  powers_from base p zero = []
  powers_from base p (suc n) = p ∷ powers_from base (g.mul p base) n

  -- powerVector writes its place 0 without a test.
  unfoldable pub power_vector : g.Scalar → ℕ → Result Error (List g.Scalar)
  unfolding powers_from
  power_vector base zero = err panic
  power_vector base (suc n) = ok (g.from_uint64 1 ∷ powers_from base base n)

  -- The loop of computeHPrime
  unfoldable pub h_prime_from : g.Scalar → g.Scalar → List g.Point → List g.Point
  h_prime_from y_inverse e [] = []
  h_prime_from y_inverse e (h ∷ hs) = g.scale e h ∷ h_prime_from y_inverse (g.mul e y_inverse) hs

  unfoldable pub compute_h_prime : g.Scalar → List g.Point → List g.Point
  unfolding h_prime_from
  compute_h_prime y hs = h_prime_from (g.invert y) (g.from_uint64 1) hs

  -- sum = z^3 + z^4 + …, with `count` summands; `z_tmp` is the power before.
  unfoldable pub sum_powers : g.Scalar → g.Scalar → g.Scalar → ℕ → g.Scalar
  sum_powers z z_tmp acc zero = acc
  sum_powers z z_tmp acc (suc count) =
      sum_powers z (g.mul z_tmp z) (g.add acc (g.mul z_tmp z)) count

  -- computeDeltaYZ; `n` is the length of the vectors.
  unfoldable pub compute_delta_yz : g.Scalar → g.Scalar → List g.Scalar → ℕ → Result Error g.Scalar
  unfolding sum_powers power_vector
  compute_delta_yz z z_square y_vector n = do
    one_vector_n ← power_vector (g.from_uint64 1) max_exp
    two_vector_n ← power_vector (g.from_uint64 2) max_exp
    one_vector ← power_vector (g.from_uint64 1) n
    ip1 ← inner_product g one_vector y_vector
    ip2 ← inner_product g one_vector_n two_vector_n
    ok (
        g.sub (g.mul (g.sub z z_square) ip1)
          (g.mul (sum_powers z z_square (g.from_uint64 0) (n / max_exp)) ip2))

  -- PedCom.CommitAtIndex at PedersenValueIndex
  abbrev pub commit : Params g → g.Scalar → g.Scalar → g.Point
  commit params v r = add_pedersen g v params.value_base r params.h_base

  unfoldable pub commit_values : Params g → List ℕ → List g.Scalar → List g.Point
  commit_values params (v ∷ vs) (r ∷ rs) =
      commit params (g.from_uint64 v) r ∷ commit_values params vs rs
  commit_values params vs rs = []

  -- aL: the bits of the values, one after the other
  unfoldable pub bits_of : ℕ → List ℕ → List g.Scalar
  unfolding convert_uint64_to_binary
  bits_of n [] = []
  bits_of n (v ∷ vs) = convert_uint64_to_binary v n ++ bits_of n vs

  -- vectorSum: the powers of two times z^2, z^3, …
  unfoldable pub vector_sum : g.Scalar → g.Scalar → List g.Scalar → ℕ → List g.Scalar
  vector_sum z z_tmp two_vector zero = []
  vector_sum z z_tmp two_vector (suc count) =
      vector_mul_scalar two_vector (g.mul z_tmp z) ++ vector_sum z (g.mul z_tmp z) two_vector count

  -- The loop of tauX: rands[j] times z^2, z^3, …
  unfoldable pub add_rands : g.Scalar → g.Scalar → g.Scalar → List g.Scalar → g.Scalar
  add_rands z z_tmp acc [] = acc
  add_rands z z_tmp acc (r ∷ rs) =
      add_rands z (g.mul z_tmp z) (g.add acc (g.mul (g.mul z_tmp z) r)) rs

  -- The vectors of Prove that z and x do not change, and vectorSum
  pub record ProveVectors : Type 0 where
    pub a_l : List g.Scalar
    pub a_r : List g.Scalar
    pub s_l : List g.Scalar
    pub s_r : List g.Scalar
    pub y_vector : List g.Scalar
    pub sums : List g.Scalar

  -- zNeg
  abbrev pub z_neg : g.Scalar → g.Scalar
  z_neg z = g.sub (g.from_uint64 0) z

module _ (g : Group) where
  unfoldable pub make_vectors :
      g.Scalar → g.Scalar → List ℕ → List g.Scalar → List g.Scalar → Result Error (ProveVectors g)
  unfolding power_vector vector_sum bits_of
  make_vectors y z values s_l s_r = do
    let a_l = bits_of g max_exp values
    two_vector_n ← power_vector g (g.from_uint64 2) max_exp
    y_vector ← power_vector g y (max_exp * length values)
    ok (record {
      a_l = a_l;
      a_r = map (λ b. g.sub b (g.from_uint64 1)) a_l;
      s_l = s_l;
      s_r = s_r;
      y_vector = y_vector;
      sums = vector_sum g z z two_vector_n (length values);
    })

  -- t1 = <l1, r0> + <l0, r1> and t2 = <l1, r1>
  unfoldable pub t_values : g.Scalar → ProveVectors g → Result Error (g.Scalar × g.Scalar)
  unfolding hadamard_product vector_add
  t_values z v = do
    had_product ← hadamard_product g v.y_vector (vector_add_scalar g v.a_r z)
    r0 ← vector_add g had_product v.sums
    r1 ← hadamard_product g v.y_vector v.s_r
    ip3 ← inner_product g v.s_l r0
    ip4 ← inner_product g (vector_add_scalar g v.a_l (z_neg g z)) r1
    t2 ← inner_product g v.s_l r1
    ok (g.add ip3 ip4, t2)

  -- lVector, rVector and tHat
  unfoldable pub response_vectors :
      g.Scalar → g.Scalar → ProveVectors g → Result Error (List g.Scalar × List g.Scalar × g.Scalar)
  unfolding hadamard_product vector_add
  response_vectors z x v = do
    l_vector ← vector_add g (vector_add_scalar g v.a_l (z_neg g z)) (vector_mul_scalar g v.s_l x)
    tmp_vector ← vector_add g (vector_add_scalar g v.a_r z) (vector_mul_scalar g v.s_r x)
    had_product ← hadamard_product g v.y_vector tmp_vector
    r_vector ← vector_add g had_product v.sums
    t_hat ← inner_product g l_vector r_vector
    ok (l_vector, r_vector, t_hat)

  unfoldable pub prove : Params g → RangeWitness g → RangeDraws g → Result Error (RangeProof g)
  unfolding round_up_pow_two commit_values points_bytes generate_challenge encode_vectors
      make_vectors t_values response_vectors add_rands compute_h_prime
  prove params wit draws = do
    let num_value = length wit.values
    fail_if (ltb max_output_coin num_value) too_many_values
    let num_value_pad = round_up_pow_two num_value
    let n = max_exp * num_value_pad
    fail_if
        (ltb (length params.gs) n || ltb (length params.hs) n || ltb (length wit.rands) num_value)
        panic
    let gs = take n params.gs
    let hs = take n params.hs
    let values = wit.values ++ replicate (num_value_pad - num_value) 0
    let rands = take num_value wit.rands ++ replicate (num_value_pad - num_value) (g.from_uint64 0)
    let cms_value = commit_values g params wit.values wit.rands
    let init_chal = g.point_bytes params.cs ++ points_bytes g cms_value
    let a_l = bits_of g max_exp values
    let a_r = map (λ b. g.sub b (g.from_uint64 1)) a_l
    encoded_a ← encode_vectors g a_l a_r gs hs
    encoded_s ← encode_vectors g draws.s_l draws.s_r gs hs
    let a = g.plus encoded_a (g.scale draws.alpha params.h_base)
    let s = g.plus encoded_s (g.scale draws.rho params.h_base)
    let y = generate_challenge g init_chal (a ∷ s ∷ [])
    let z = generate_challenge g (g.scalar_bytes y) (a ∷ s ∷ [])
    let h_prime = compute_h_prime g y hs
    v ← make_vectors y z values draws.s_l draws.s_r
    t ← t_values z v
    let t1 = commit g params t.0 draws.tau1
    let t2 = commit g params t.1 draws.tau2
    let x = generate_challenge g (g.scalar_bytes z) (t1 ∷ t2 ∷ [])
    answer ← response_vectors z x v
    let t_hat = answer.2
    let blinded = g.add (g.mul draws.tau2 (g.mul x x)) (g.mul draws.tau1 x)
    encoded ← encode_vectors g answer.0 answer.1 gs h_prime
    let u' = g.scale (g.hash_to_scalar (g.scalar_bytes x)) params.u
    let inner_wit : InnerProduct.Witness g = record {
      a = answer.0;
      b = answer.1;
      p = g.plus encoded (g.scale t_hat u');
    }
    inner ← InnerProduct.prove g inner_wit gs h_prime u' (g.scalar_bytes x)
    ok (record {
      cms_value = cms_value;
      a = a;
      s = s;
      t1 = t1;
      t2 = t2;
      tau_x = add_rands g z z blinded rands;
      t_hat = t_hat;
      mu = g.add draws.alpha (g.mul draws.rho x);
      inner_product_proof = inner;
    })
