-- ===== src/Bulletproofs/RangeProof/Delta.antt =====
-- The constant coefficient of tHat: what computeDeltaYZ gives, and the values.
use go_incognito_sdk_v.Base.{
  ℕ, zero, suc, ◌-◌, ◌*◌, ◌/◌, ◌^◌, ◌<◌, ◌≡◌, refl, sym, ap, ◌∙◌, List, ◌∷◌, map, length, All, ok,
  arith, length-map,
}
use go_incognito_sdk_v.Bulletproofs.{Group}
use go_incognito_sdk_v.Bulletproofs.Laws.{GroupLaws}
use go_incognito_sdk_v.Bulletproofs.InnerProduct.Sums.{one-mul}
use go_incognito_sdk_v.Bulletproofs.InnerProduct.Commitments.{dot}
use go_incognito_sdk_v.Bulletproofs.RangeProof.{
  max_exp, ProveVectors, powers_from, power_vector, compute_delta_yz, bits_of, vector_sum,
  make_vectors, vector_add_scalar, zip_scalars, z_neg,
}
use go_incognito_sdk_v.Bulletproofs.RangeProof.Ring.{neg, sub-neg, neg-mul, factor}
use go_incognito_sdk_v.Bulletproofs.RangeProof.Vectors.{total, dot-bits}
use go_incognito_sdk_v.Bulletproofs.RangeProof.Bits.{two_vector, bits_of-IsBit, length-bits_of}
use go_incognito_sdk_v.Bulletproofs.RangeProof.Powers.{
  weigh_powers, power_sum, dot-bits_of, total-vector_sum, sum_powers_lem, length-powers_from,
  length-vector_sum, dot-ones,
}
use go_incognito_sdk_v.Bulletproofs.RangeProof.Steps.{
  HasLength, inner_product-ok, left_zero, right_zero',
}

module _ {g : Group} (h : GroupLaws g) where
  abbrev pub powers_of : g.Scalar → ℕ → List g.Scalar
  powers_of b n = g.from_uint64 1 ∷ powers_from g b b (n - 1)

  pub power_vector-returns :
      (b : g.Scalar) (n : ℕ) → 0 < n → power_vector g b n ≡ ok (powers_of b n)
  unfolding power_vector
  power_vector-returns b zero e = absurd (omega arith)
  power_vector-returns b (suc n) e =
      ap (λ k. ok (g.from_uint64 1 ∷ powers_from g b b k)) (omega arith)

  length-powers_of : (b : g.Scalar) (n : ℕ) → 0 < n → length (powers_of b n) ≡ n
  length-powers_of b n e = omega (arith, length-powers_from h b b (n - 1))

  length_pred : (n k : ℕ) → 0 < n → k ≡ n → suc (n - 1) ≡ k
  length_pred n k e q = omega arith

  powers_of_suc :
      (b : g.Scalar) (m : ℕ)
      → g.from_uint64 1 ∷ powers_from g b b m ≡ powers_from g b (g.from_uint64 1) (suc m)
  unfolding powers_from
  powers_of_suc b m =
      ap (λ k. g.from_uint64 1 ∷ powers_from g b k m)
        (sym (ap (λ k. g.mul k b) h.from_uint64_one ∙ one-mul g h b))

  pub powers_of-powers_from :
      (b : g.Scalar) (n k : ℕ) → 0 < n → k ≡ n → powers_of b n ≡ powers_from g b (g.from_uint64 1) k
  powers_of-powers_from b n k e q =
      powers_of_suc b (n - 1) ∙ ap (powers_from g b (g.from_uint64 1)) (length_pred n k e q)

  dot-ones_of :
      (y : List g.Scalar) (n : ℕ)
      → 0 < n
      → length y ≡ n
      → dot h (powers_of (g.from_uint64 1) n) y ≡ total h y
  dot-ones_of y n e k =
      ap (λ w. dot h w y) (powers_of-powers_from (g.from_uint64 1) n (length y) e k)
      ∙ dot-ones h (g.from_uint64 1) y h.from_uint64_one

  -- What make_vectors gives.
  abbrev pub made : g.Scalar → g.Scalar → List ℕ → List g.Scalar → List g.Scalar → ProveVectors g
  made y z vs s_l s_r = record {
    a_l = bits_of g max_exp vs;
    a_r = map (λ b. g.sub b (g.from_uint64 1)) (bits_of g max_exp vs);
    s_l = s_l;
    s_r = s_r;
    y_vector = powers_of y (max_exp * length vs);
    sums = vector_sum g z z (two_vector h 63) (length vs);
  }

  module _ (y z : g.Scalar) (vs : List ℕ) (some_value : 0 < length vs) where
    size_pos : 0 < 64 * length vs
    size_pos = omega arith

    pub make_vectors-returns :
        (s_l s_r : List g.Scalar) → make_vectors g y z vs s_l s_r ≡ ok (made y z vs s_l s_r)
    unfolding make_vectors
    make_vectors-returns s_l s_r = rw (power_vector-returns y (max_exp * length vs) size_pos) refl

    length-sums : length (vector_sum g z z (two_vector h 63) (length vs)) ≡ 64 * length vs
    length-sums =
        length-vector_sum h z z (two_vector h 63) (length vs)
        ∙ ap (λ k. suc k * length vs) (length-powers_from h (g.from_uint64 2) (g.from_uint64 2) 63)

    pub made-HasLength :
        (s_l s_r : List g.Scalar)
        → length s_l ≡ 64 * length vs
        → length s_r ≡ 64 * length vs
        → HasLength (64 * length vs) (made y z vs s_l s_r)
    made-HasLength s_l s_r el er = record {
      length_a_l = length-bits_of h 64 vs;
      length_a_r =
          length-map (bits_of g max_exp vs) (λ b. g.sub b (g.from_uint64 1))
          ∙ length-bits_of h 64 vs;
      length_s_l = el;
      length_s_r = er;
      length_y = length-powers_of y (64 * length vs) size_pos;
      length_sums = length-sums;
    }

    abbrev pub y_vector : List g.Scalar
    y_vector = powers_of y (max_exp * length vs)

    abbrev twos : List g.Scalar
    twos = two_vector h 63

    -- The value of computeDeltaYZ
    abbrev pub delta : g.Scalar
    delta =
        g.sub (g.mul (factor h z) (total h y_vector))
          (g.mul (g.mul (power_sum g z z (length vs)) z) (total h twos))

    pub compute_delta_yz-returns :
        compute_delta_yz g z (g.mul z z) y_vector (max_exp * length vs) ≡ ok delta
    unfolding compute_delta_yz
    compute_delta_yz-returns =
        let n = 64 * length vs in
        let count : n / 64 ≡ length vs = omega arith in
        let ones = λ (k : ℕ). powers_of (g.from_uint64 1) k in
        (rw (power_vector-returns (g.from_uint64 1) n size_pos) (
          rw
            (inner_product-ok h (ones n) y_vector
              (length-powers_of y n size_pos ∙ sym (length-powers_of (g.from_uint64 1) n size_pos)))
            (rw
              (inner_product-ok h (ones 64) twos (
                ap suc (length-powers_from h (g.from_uint64 2) (g.from_uint64 2) 63)
                ∙ sym (length-powers_of (g.from_uint64 1) 64 (omega arith))))
              (rw (count, sum_powers_lem h z (length vs))
                (rw
                  (
                    dot-ones_of y_vector n size_pos (length-powers_of y n size_pos),
                    dot-ones_of twos 64 (omega arith)
                        (ap suc (length-powers_from h (g.from_uint64 2) (g.from_uint64 2) 63)),
                  )
                  refl)))))

    z_neg_lem : z_neg g z ≡ neg h z
    z_neg_lem = ap (λ k. g.sub k z) h.from_uint64_zero

    delta_swap : (f w n : g.Scalar) → g.add f (g.add w (neg h n)) ≡ g.add (g.sub f n) w
    delta_swap f w n =
        ap (g.add f) (h.add_comm w (neg h n))
        ∙ sym (h.add_assoc f (neg h n) w)
        ∙ ap (λ k. g.add k w) (sym (sub-neg h f n))

    -- The vector r0 with `k` for FromUint64(1)
    abbrev right_at : g.Scalar → List g.Scalar → List g.Scalar
    right_at k sums =
        zip_scalars g g.add
          (zip_scalars g g.mul y_vector
            (vector_add_scalar g (map (λ b. g.sub b k) (bits_of g max_exp vs)) z))
          sums

    -- The constant coefficient.
    pub t_zero-delta :
        (s_l s_r : List g.Scalar)
        → All (λ v. v < 2 ^ 64) vs
        → dot h (left_zero h z (made y z vs s_l s_r)) (right_zero' h z (made y z vs s_l s_r))
          ≡ g.add delta (weigh_powers g z z (map g.from_uint64 vs))
    t_zero-delta s_l s_r b =
        let sums = vector_sum g z z twos (length vs) in
        let a = bits_of g 64 vs in
        let ps = power_sum g z z (length vs) in
        ap (λ k. dot h (vector_add_scalar g a k) (right_zero' h z (made y z vs s_l s_r))) z_neg_lem
        ∙ ap (λ k. dot h (vector_add_scalar g a (neg h z)) (right_at k sums)) h.from_uint64_one
        ∙ dot-bits h z a y_vector sums (bits_of-IsBit h 64 vs)
            (length-powers_of y (64 * length vs) size_pos ∙ sym (length-bits_of h 64 vs))
            (length-sums ∙ sym (length-bits_of h 64 vs))
        ∙ ap
            (λ k.
              g.add (g.mul (factor h z) (total h y_vector))
                (g.add k (g.mul (neg h z) (total h sums))))
            (dot-bits_of h 63 z z vs
              (ap suc (length-powers_from h (g.from_uint64 2) (g.from_uint64 2) 63)) b b)
        ∙ ap
            (λ k.
              g.add (g.mul (factor h z) (total h y_vector))
                (g.add (weigh_powers g z z (map g.from_uint64 vs)) k))
            (ap (g.mul (neg h z)) (total-vector_sum h z z twos (length vs))
              ∙ neg-mul h z (g.mul ps (total h twos))
              ∙ ap (neg h) (
                  sym (h.mul_assoc z ps (total h twos))
                  ∙ ap (λ k. g.mul k (total h twos)) (h.mul_comm z ps)))
        ∙ delta_swap (g.mul (factor h z) (total h y_vector))
            (weigh_powers g z z (map g.from_uint64 vs)) (g.mul (g.mul ps z) (total h twos))
