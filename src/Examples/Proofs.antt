-- ===== src/Examples/Proofs.antt =====
-- The theorems on the inner-product argument at a concrete input, over the field with two elements.
use go_incognito_sdk_v.Base.{
  ℕ, ◌+◌, ◌%◌, ◌^◌, ◌<◌, ◌==◌, ◌≡◌, refl, Bool, true, false, not, ◌&&◌, List, [], ◌∷◌, length, take,
  ok, arith,
}
use go_incognito_sdk_v.Bulletproofs.{
  Group, inner_product, inner_product_from, multi_scalar_mult, encode_vectors, points_bytes,
  generate_challenge,
}
use go_incognito_sdk_v.Bulletproofs.Laws.{GroupLaws}
use go_incognito_sdk_v.Bulletproofs.InnerProduct.{
  Witness, Proof, fold_scalars, fold_points, fold_commitment, cross, next_vars, left_point,
  right_point, last_values, prove_loop, prove, Accepts, ChallengesInvert,
}
use go_incognito_sdk_v.Bulletproofs.InnerProduct.Accepted.{prove-returns, prove-Accepts}
use go_incognito_sdk_v.Bulletproofs.InnerProduct.Sizes.{prove-power_of_two}

abbrev xor : Bool → Bool → Bool
xor true b = not b
xor false b = b

abbrev bit_bytes : Bool → List ℕ
bit_bytes true = 1 ∷ []
bit_bytes false = 0 ∷ []

abbrev odd : ℕ → Bool
odd n = n % 2 == 1

abbrev pub bits : Group
bits = record {
  Scalar = Bool;
  Point = Bool;
  zero_scalar = false;
  one_scalar = true;
  from_uint64 = odd;
  add = xor;
  sub = xor;
  mul = ◌&&◌;
  invert = λ x. x;
  identity = false;
  plus = xor;
  scale = ◌&&◌;
  scalar_bytes = bit_bytes;
  point_bytes = bit_bytes;
  hash_to_scalar = λ m. true;
}

module _ where
  xor_comm : (a b : Bool) → xor a b ≡ xor b a
  xor_comm a b = ground arith

  xor_assoc : (a b c : Bool) → xor (xor a b) c ≡ xor a (xor b c)
  xor_assoc a b c = ground arith

  xor-false : (a : Bool) → xor a false ≡ a
  xor-false a = ground arith

  and_comm : (a b : Bool) → (a && b) ≡ (b && a)
  and_comm a b = ground arith

  and_assoc : (a b c : Bool) → ((a && b) && c) ≡ (a && (b && c))
  and_assoc a b c = ground arith

  and-true : (a : Bool) → (a && true) ≡ a
  and-true a = ground arith

  and-xor : (a b c : Bool) → (a && xor b c) ≡ xor (a && b) (a && c)
  and-xor a b c = ground arith

  xor-and : (a b c : Bool) → (xor a b && c) ≡ xor (a && c) (b && c)
  xor-and a b c = ground arith

  and-false : (a : Bool) → (a && false) ≡ false
  and-false a = ground arith

  false-and : (a : Bool) → (false && a) ≡ false
  false-and a = ground arith

  true-and : (a : Bool) → (true && a) ≡ a
  true-and a = ground arith

  xor-xor : (a b : Bool) → xor (xor a b) b ≡ a
  xor-xor a b = ground arith

  odd-add : (a b : ℕ) → a + b < 2 ^ 64 → odd (a + b) ≡ xor (odd a) (odd b)
  odd-add a b h = ground arith

pub bits-GroupLaws : GroupLaws bits
bits-GroupLaws = record {
  add_comm = xor_comm;
  add_assoc = xor_assoc;
  add-zero = xor-false;
  mul_comm = and_comm;
  mul_assoc = and_assoc;
  mul-one = and-true;
  mul-add = and-xor;
  mul-zero = and-false;
  add-sub = xor-xor;
  from_uint64_zero = refl;
  from_uint64_one = refl;
  from_uint64-add = odd-add;
  plus_comm = xor_comm;
  plus_assoc = xor_assoc;
  plus-identity = xor-false;
  scale-plus = and-xor;
  scale-identity = and-false;
  scale-zero = false-and;
  scale-add = xor-and;
  scale-mul = and_assoc;
  scale-one = true-and;
}

-- Vectors of length 4, and four generators of either kind.
abbrev wit : Witness bits
wit = record { a = true ∷ false ∷ true ∷ true ∷ []; b = true ∷ true ∷ false ∷ true ∷ []; p = false }

abbrev gens : List Bool
gens = true ∷ true ∷ false ∷ true ∷ []

abbrev gens' : List Bool
gens' = false ∷ true ∷ true ∷ true ∷ []

abbrev made : Proof bits
made = record { l = true ∷ false ∷ []; r = false ∷ false ∷ []; a = true; b = true; p = false }

prove_run : prove bits wit gens gens' true (5 ∷ []) ≡ ok made
unfolding prove prove_loop left_point right_point cross inner_product inner_product_from
    encode_vectors multi_scalar_mult next_vars fold_scalars fold_points fold_commitment last_values
    generate_challenge points_bytes
prove_run = refl

prove-returns_example :
    (proof : Proof bits) × (prove bits wit gens gens' true (5 ∷ []) ≡ ok proof)
    × (length proof.l ≡ 2)
    × (length proof.r ≡ 2)
prove-returns_example =
    prove-returns bits-GroupLaws true wit gens gens' (5 ∷ []) 2 refl refl (omega arith)
      (omega arith)

wit_committed :
    cross bits true (wit.a) (wit.b) (take (length (wit.a)) gens) (take (length (wit.a)) gens')
    ≡ ok (wit.p)
unfolding cross inner_product inner_product_from encode_vectors multi_scalar_mult
wit_committed = refl

made-ChallengesInvert : ChallengesInvert bits (5 ∷ []) made.l made.r
unfolding ChallengesInvert generate_challenge
made-ChallengesInvert = (refl, (refl, tt))

prove-Accepts_example : Accepts bits true made.l made.r made.a made.b (5 ∷ []) gens gens' made.p
prove-Accepts_example =
    prove-Accepts bits-GroupLaws true wit gens gens' (5 ∷ []) 2 refl refl (omega arith)
      (omega arith) wit_committed made prove_run made-ChallengesInvert

prove-power_of_two_example :
    (length (wit.a) ≡ 2 ^ length made.l)
    × (length (wit.b) ≡ 2 ^ length made.l)
    × (length made.r ≡ length made.l)
prove-power_of_two_example = prove-power_of_two bits true wit gens gens' (5 ∷ []) made prove_run
