-- ===== src/Bulletproofs/RangeProof/Steps.antt =====
-- The steps of Prove on vectors of one length: they do not fail, and tHat is a polynomial in x.
use go_incognito_sdk_v.Base.{
  ℕ, suc, ◌≡◌, refl, sym, ap, ◌∙◌, true, List, [], ◌∷◌, map, ◌==◌, length, ok, arith, length-map,
}
use go_incognito_sdk_v.Bulletproofs.{Group, inner_product, encode_vectors, multi_scalar_mult}
use go_incognito_sdk_v.Bulletproofs.Laws.{GroupLaws}
use go_incognito_sdk_v.Bulletproofs.InnerProduct.Commitments.{dot, inner_product-dot}
use go_incognito_sdk_v.Bulletproofs.RangeProof.{
  ProveVectors, zip_scalars, vector_add, hadamard_product, vector_add_scalar, vector_mul_scalar,
  z_neg, t_values, response_vectors, h_prime_from, compute_h_prime,
}
use go_incognito_sdk_v.Bulletproofs.RangeProof.Vectors.{line, square, dot-line, right-line}

pub record HasLength {g : Group} (n : ℕ) (v : ProveVectors g) : Type 0 where
  pub length_a_l : length v.a_l ≡ n
  pub length_a_r : length v.a_r ≡ n
  pub length_s_l : length v.s_l ≡ n
  pub length_s_r : length v.s_r ≡ n
  pub length_y : length v.y_vector ≡ n
  pub length_sums : length v.sums ≡ n

module _ {g : Group} (h : GroupLaws g) where
  length-zip_scalars :
      (op : g.Scalar → g.Scalar → g.Scalar) (a b : List g.Scalar)
      → length b ≡ length a
      → length (zip_scalars g op a b) ≡ length a
  unfolding zip_scalars
  length-zip_scalars op [] b e = refl
  length-zip_scalars op (x ∷ a) [] e = absurd (omega arith)
  length-zip_scalars op (x ∷ a) (y ∷ b) e = ap suc (length-zip_scalars op a b (omega arith))

  vector_add-zip :
      (a b : List g.Scalar) → length b ≡ length a → vector_add g a b ≡ ok (zip_scalars g g.add a b)
  unfolding vector_add
  vector_add-zip a b e = let e1 : (length a == length b) ≡ true = ground arith in rw e1 refl

  hadamard_product-zip :
      (a b : List g.Scalar)
      → length b ≡ length a
      → hadamard_product g a b ≡ ok (zip_scalars g g.mul a b)
  unfolding hadamard_product
  hadamard_product-zip a b e = let e1 : (length a == length b) ≡ true = ground arith in rw e1 refl

  pub inner_product-ok :
      (a b : List g.Scalar) → length b ≡ length a → inner_product g a b ≡ ok (dot h a b)
  unfolding inner_product
  inner_product-ok a b e =
      let e1 : (length a == length b) ≡ true = ground arith in
      rw e1 (ap ok (inner_product-dot h a b))

  module _ (z : g.Scalar) (v : ProveVectors g) where
    -- l0, r0 and r1
    abbrev pub left_zero : List g.Scalar
    left_zero = vector_add_scalar g v.a_l (z_neg g z)

    abbrev pub a_r_z : List g.Scalar
    a_r_z = vector_add_scalar g v.a_r z

    abbrev pub right_zero' : List g.Scalar
    right_zero' = zip_scalars g g.add (zip_scalars g g.mul v.y_vector a_r_z) v.sums

    abbrev pub right_one : List g.Scalar
    right_one = zip_scalars g g.mul v.y_vector v.s_r

    -- The coefficients of x and x^2
    abbrev pub t_one : g.Scalar
    t_one = g.add (dot h v.s_l right_zero') (dot h left_zero right_one)

    abbrev pub t_two : g.Scalar
    t_two = dot h v.s_l right_one

    abbrev pub left_vector : g.Scalar → List g.Scalar
    left_vector x = line h x left_zero v.s_l

    abbrev pub tmp_vector : g.Scalar → List g.Scalar
    tmp_vector x = line h x a_r_z v.s_r

    abbrev pub right_vector : g.Scalar → List g.Scalar
    right_vector x = zip_scalars g g.add (zip_scalars g g.mul v.y_vector (tmp_vector x)) v.sums

    module _ (n : ℕ) (s : HasLength n v) where
      length_mapped :
          (f : g.Scalar → g.Scalar) (a : List g.Scalar) → length a ≡ n → length (map f a) ≡ n
      length_mapped f a e = length-map a f ∙ e

      length_zipped :
          (op : g.Scalar → g.Scalar → g.Scalar) (a b : List g.Scalar)
          → length a ≡ n
          → length b ≡ n
          → length (zip_scalars g op a b) ≡ n
      length_zipped op a b e k = length-zip_scalars op a b (k ∙ sym e) ∙ e

      pub length-left_zero : length left_zero ≡ n
      length-left_zero = length_mapped (λ a. g.add a (z_neg g z)) v.a_l s.length_a_l

      length-a_r_z : length a_r_z ≡ n
      length-a_r_z = length_mapped (λ a. g.add a z) v.a_r s.length_a_r

      length-had_product : length (zip_scalars g g.mul v.y_vector a_r_z) ≡ n
      length-had_product = length_zipped g.mul v.y_vector a_r_z s.length_y length-a_r_z

      pub length-right_zero : length right_zero' ≡ n
      length-right_zero =
          length_zipped g.add (zip_scalars g g.mul v.y_vector a_r_z) v.sums length-had_product
            s.length_sums

      length-right_one : length right_one ≡ n
      length-right_one = length_zipped g.mul v.y_vector v.s_r s.length_y s.length_s_r

      pub t_values-returns : t_values g z v ≡ ok (t_one, t_two)
      unfolding t_values
      t_values-returns =
          rw (hadamard_product-zip v.y_vector a_r_z (length-a_r_z ∙ sym s.length_y)) (
            rw
              (
                vector_add-zip (zip_scalars g g.mul v.y_vector a_r_z) v.sums
                    (s.length_sums ∙ sym length-had_product),
                hadamard_product-zip v.y_vector v.s_r (s.length_s_r ∙ sym s.length_y),
              )
              (rw
                (
                  inner_product-ok v.s_l right_zero' (length-right_zero ∙ sym s.length_s_l),
                  inner_product-ok left_zero right_one (length-right_one ∙ sym length-left_zero),
                  inner_product-ok v.s_l right_one (length-right_one ∙ sym s.length_s_l),
                )
                refl))

      module _ (x : g.Scalar) where
        length_scaled : (a : List g.Scalar) → length a ≡ n → length (vector_mul_scalar g a x) ≡ n
        length_scaled a e = length_mapped (λ k. g.mul k x) a e

        pub length-left_vector : length (left_vector x) ≡ n
        length-left_vector =
            length_zipped g.add left_zero (vector_mul_scalar g v.s_l x) length-left_zero
              (length_scaled v.s_l s.length_s_l)

        pub length-tmp_vector : length (tmp_vector x) ≡ n
        length-tmp_vector =
            length_zipped g.add a_r_z (vector_mul_scalar g v.s_r x) length-a_r_z
              (length_scaled v.s_r s.length_s_r)

        pub length-product : length (zip_scalars g g.mul v.y_vector (tmp_vector x)) ≡ n
        length-product = length_zipped g.mul v.y_vector (tmp_vector x) s.length_y length-tmp_vector

        pub length-right_vector : length (right_vector x) ≡ n
        length-right_vector =
            length_zipped g.add (zip_scalars g g.mul v.y_vector (tmp_vector x)) v.sums
              length-product s.length_sums

        pub response_vectors-returns :
            response_vectors g z x v
            ≡ ok (left_vector x, right_vector x, dot h (left_vector x) (right_vector x))
        unfolding response_vectors
        response_vectors-returns =
            rw
              (
                vector_add-zip left_zero (vector_mul_scalar g v.s_l x)
                    (length_scaled v.s_l s.length_s_l ∙ sym length-left_zero),
                vector_add-zip a_r_z (vector_mul_scalar g v.s_r x)
                    (length_scaled v.s_r s.length_s_r ∙ sym length-a_r_z),
              )
              (rw
                (hadamard_product-zip v.y_vector (tmp_vector x)
                  (length-tmp_vector ∙ sym s.length_y))
                (rw
                  (vector_add-zip (zip_scalars g g.mul v.y_vector (tmp_vector x)) v.sums
                    (s.length_sums ∙ sym length-product))
                  (rw
                    (inner_product-ok (left_vector x) (right_vector x)
                      (length-right_vector ∙ sym length-left_vector))
                    refl)))

        -- tHat by the powers of x
        pub t_hat-square :
            dot h (left_vector x) (right_vector x)
            ≡ square h x (dot h left_zero right_zero') t_one t_two
        t_hat-square =
            ap (dot h (left_vector x)) (right-line h x v.y_vector a_r_z v.s_r v.sums)
            ∙ dot-line h x left_zero v.s_l right_zero' right_one
                (s.length_s_l ∙ sym length-left_zero) (length-right_zero ∙ sym length-left_zero)
                (length-right_one ∙ sym length-left_zero)

module _ {g : Group} (h : GroupLaws g) where
  pub encode_vectors-returns :
      (l r : List g.Scalar) (gs hs : List g.Point)
      → length r ≡ length l
      → length gs ≡ length l
      → length hs ≡ length l
      → encode_vectors g l r gs hs
        ≡ ok (g.plus (multi_scalar_mult g l gs) (multi_scalar_mult g r hs))
  unfolding encode_vectors
  encode_vectors-returns l r gs hs e f k =
      let e1 : (length l == length r) ≡ true = ground arith in
      let e2 : (length gs == length l) ≡ true = ground arith in
      let e3 : (length hs == length gs) ≡ true = ground arith in rw (e1, e2, e3) refl

  length-h_prime_from :
      (w e : g.Scalar) (hs : List g.Point) → length (h_prime_from g w e hs) ≡ length hs
  unfolding h_prime_from
  length-h_prime_from w e [] = refl
  length-h_prime_from w e (p ∷ hs) = ap suc (length-h_prime_from w (g.mul e w) hs)

  pub length-compute_h_prime :
      (y : g.Scalar) (hs : List g.Point) → length (compute_h_prime g y hs) ≡ length hs
  unfolding compute_h_prime
  length-compute_h_prime y hs = length-h_prime_from (g.invert y) (g.from_uint64 1) hs
