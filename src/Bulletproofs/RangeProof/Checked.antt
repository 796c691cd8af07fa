-- ===== src/Bulletproofs/RangeProof/Checked.antt =====
-- Witness.Prove from its steps, and what a verifier computes from the proofs that it returns.
use mathlib.Core.Path.{subst}
use go_incognito_sdk_v.Base.{
  ok_injective, ℕ, ◌-◌, ◌*◌, ◌^◌, ◌≤◌, ◌<◌, ◌≡◌, refl, sym, ap, ◌∙◌, false, List, [], ◌∷◌, ◌++◌,
  map, ltb, length, replicate, take, All, All-append, ok, arith, length-take, take_all,
  length-append, length-replicate, length-map,
}
use go_incognito_sdk_v.Bulletproofs.{
  Error, Group, multi_scalar_mult, encode_vectors, points_bytes, generate_challenge,
}
use go_incognito_sdk_v.Bulletproofs.Laws.{GroupLaws}
use go_incognito_sdk_v.Bulletproofs.InnerProduct
use go_incognito_sdk_v.Bulletproofs.InnerProduct.Commitments.{dot, weigh, multi_scalar_mult-weigh}
use go_incognito_sdk_v.Bulletproofs.InnerProduct.Accepted.{
  prove-returns, prove_commitment, prove-Accepts,
}
use go_incognito_sdk_v.Bulletproofs.InnerProduct.{cross, Accepts, ChallengesInvert}
use go_incognito_sdk_v.Bulletproofs.RangeProof.{
  Params, RangeWitness, RangeDraws, RangeProof, ProveVectors, compute_h_prime, commit,
  commit_values, bits_of, add_rands, z_neg, zip_scalars, vector_sum, make_vectors, t_values,
  response_vectors, prove,
}
use go_incognito_sdk_v.Bulletproofs.RangeProof.Vectors.{square}
use go_incognito_sdk_v.Bulletproofs.RangeProof.Bits.{two_vector, length-bits_of}
use go_incognito_sdk_v.Bulletproofs.RangeProof.Powers.{weigh_powers}
use go_incognito_sdk_v.Bulletproofs.RangeProof.Steps.{
  HasLength, tmp_vector, length-tmp_vector, length-product, t_one, t_two, left_vector, right_vector,
  length-left_vector, length-right_vector, t_values-returns, response_vectors-returns, t_hat-square,
  encode_vectors-returns, inner_product-ok, length-compute_h_prime,
}
use go_incognito_sdk_v.Bulletproofs.RangeProof.Delta.{
  made, powers_of-powers_from, make_vectors-returns, made-HasLength, delta, y_vector,
  power_vector-returns, compute_delta_yz-returns, t_zero-delta,
}
use go_incognito_sdk_v.Bulletproofs.RangeProof.Rounded.{
  round_up_pow_two-power, padded_pos, not_less, six_more, sixty_four, map-padded, zeros-fit,
}
use go_incognito_sdk_v.Bulletproofs.RangeProof.Verifier.{
  padded_count, Opens, InnerAccepted, Folds, Accepted, Invertible, challenge_y,
}
use go_incognito_sdk_v.Bulletproofs.RangeProof.Folded.{
  total_points, weigh-zip, weigh-line, weigh-h_prime, gather,
}
use go_incognito_sdk_v.Bulletproofs.RangeProof.Committed.{weigh_powers-padded, weighed_opening}

module _ {g : Group} (h : GroupLaws g) where
  module _ (params : Params g) (wit : RangeWitness g) (draws : RangeDraws g) where
    abbrev size : ℕ
    size = 64 * padded_count wit

    abbrev gs' : List g.Point
    gs' = take size params.gs

    abbrev hs' : List g.Point
    hs' = take size params.hs

    abbrev spare : ℕ
    spare = padded_count wit - length wit.values

    abbrev values' : List ℕ
    values' = wit.values ++ replicate spare 0

    abbrev a_l : List g.Scalar
    a_l = bits_of g 64 values'

    abbrev a_r : List g.Scalar
    a_r = map (λ b. g.sub b (g.from_uint64 1)) a_l

    abbrev blinded_point : List g.Scalar → List g.Scalar → g.Scalar → g.Point
    blinded_point l r e =
        g.plus (g.plus (multi_scalar_mult g l gs') (multi_scalar_mult g r hs'))
          (g.scale e params.h_base)

    abbrev point_a : g.Point
    point_a = blinded_point a_l a_r draws.alpha

    abbrev point_s : g.Point
    point_s = blinded_point draws.s_l draws.s_r draws.rho

    abbrev cms : List g.Point
    cms = commit_values g params wit.values wit.rands

    abbrev y' : g.Scalar
    y' =
        generate_challenge g (g.point_bytes params.cs ++ points_bytes g cms)
          (point_a ∷ point_s ∷ [])

    abbrev z' : g.Scalar
    z' = generate_challenge g (g.scalar_bytes y') (point_a ∷ point_s ∷ [])

    abbrev v' : ProveVectors g
    v' = made h y' z' values' draws.s_l draws.s_r

    abbrev point_t1 : g.Point
    point_t1 = commit g params (t_one h z' v') draws.tau1

    abbrev point_t2 : g.Point
    point_t2 = commit g params (t_two h z' v') draws.tau2

    abbrev x' : g.Scalar
    x' = generate_challenge g (g.scalar_bytes z') (point_t1 ∷ point_t2 ∷ [])

    abbrev l' : List g.Scalar
    l' = left_vector h z' v' x'

    abbrev r' : List g.Scalar
    r' = right_vector h z' v' x'

    abbrev h_prime : List g.Point
    h_prime = compute_h_prime g y' hs'

    abbrev u' : g.Point
    u' = g.scale (g.hash_to_scalar (g.scalar_bytes x')) params.u

    abbrev inner_wit : InnerProduct.Witness g
    inner_wit = record {
      a = l';
      b = r';
      p =
          g.plus (g.plus (multi_scalar_mult g l' gs') (multi_scalar_mult g r' h_prime))
            (g.scale (dot h l' r') u');
    }

    abbrev range_proof : InnerProduct.Proof g → RangeProof g
    range_proof inner = record {
      cms_value = cms;
      a = point_a;
      s = point_s;
      t1 = point_t1;
      t2 = point_t2;
      tau_x =
          add_rands g z' z' (g.add (g.mul draws.tau2 (g.mul x' x')) (g.mul draws.tau1 x'))
            (wit.rands ++ replicate spare (g.from_uint64 0));
      t_hat = dot h l' r';
      mu = g.add draws.alpha (g.mul draws.rho x');
      inner_product_proof = inner;
    }

    -- Prove from what its steps return.
    prove_steps :
        (ea es : g.Point) (v : ProveVectors g) (t : g.Scalar × g.Scalar)
        (answer : List g.Scalar × List g.Scalar × g.Scalar) (encoded : g.Point)
        (inner : InnerProduct.Proof g) (rs : List g.Scalar)
        → ltb 32 (length wit.values) ≡ false
        → ltb (length params.gs) size ≡ false
        → ltb (length params.hs) size ≡ false
        → ltb (length wit.rands) (length wit.values) ≡ false
        → take (length wit.values) wit.rands ≡ rs
        → encode_vectors g a_l a_r gs' hs' ≡ ok ea
        → encode_vectors g draws.s_l draws.s_r gs' hs' ≡ ok es
        → (let a = g.plus ea (g.scale draws.alpha params.h_base) in
            let s = g.plus es (g.scale draws.rho params.h_base) in
            let y =
              generate_challenge g (g.point_bytes params.cs ++ points_bytes g cms) (a ∷ s ∷ []) in
            let z = generate_challenge g (g.scalar_bytes y) (a ∷ s ∷ []) in
            let t1 = commit g params t.0 draws.tau1 in
            let t2 = commit g params t.1 draws.tau2 in
            let x = generate_challenge g (g.scalar_bytes z) (t1 ∷ t2 ∷ []) in
            let u = g.scale (g.hash_to_scalar (g.scalar_bytes x)) params.u in
            let w : InnerProduct.Witness g = record {
              a = answer.0;
              b = answer.1;
              p = g.plus encoded (g.scale answer.2 u);
            } in
            make_vectors g y z values' draws.s_l draws.s_r ≡ ok v
            → t_values g z v ≡ ok t
            → response_vectors g z x v ≡ ok answer
            → encode_vectors g answer.0 answer.1 gs' (compute_h_prime g y hs') ≡ ok encoded
            → InnerProduct.prove g w gs' (compute_h_prime g y hs') u (g.scalar_bytes x) ≡ ok inner
            → prove g params wit draws
              ≡ ok (record {
                cms_value = cms;
                a = a;
                s = s;
                t1 = t1;
                t2 = t2;
                tau_x =
                    add_rands g z z
                      (g.add (g.mul draws.tau2 (g.mul x x)) (g.mul draws.tau1 x))
                      (rs ++ replicate spare (g.from_uint64 0));
                t_hat = answer.2;
                mu = g.add draws.alpha (g.mul draws.rho x);
                inner_product_proof = inner;
              }))
    unfolding prove
    prove_steps ea es v t answer encoded inner rs e0 e1 e2 e3 er ea_ok es_ok v_ok t_ok a_ok enc_ok
          i_ok =
        rw (e0, e1, e2, e3, er)
          (rw ea_ok (rw es_ok (rw v_ok (rw t_ok (rw a_ok (rw enc_ok (rw i_ok refl)))))))

    module _ (few : length wit.values ≤ 32) (paired : length wit.rands ≡ length wit.values)
        (length_s_l : length draws.s_l ≡ 64 * padded_count wit)
        (length_s_r : length draws.s_r ≡ 64 * padded_count wit)
        (enough_gs : 64 * padded_count wit ≤ length params.gs)
        (enough_hs : 64 * padded_count wit ≤ length params.hs) where
      length-values : length values' ≡ padded_count wit
      length-values =
          let p = round_up_pow_two-power (length wit.values) few in
          omega (
            arith,
            length-append wit.values (replicate spare 0),
            length-replicate {A = ℕ} spare 0,
            p.1,
            p.2,
          )

      some_value : 0 < length values'
      some_value = omega (arith, length-values, padded_pos (length wit.values) few)

      length-gs : length gs' ≡ size
      length-gs = omega (arith, length-take size params.gs)

      length-hs : length hs' ≡ size
      length-hs = omega (arith, length-take size params.hs)

      v'-HasLength : HasLength (64 * length values') v'
      v'-HasLength =
          made-HasLength h y' z' values' some_value draws.s_l draws.s_r
            (length_s_l ∙ ap (λ k. 64 * k) (sym length-values))
            (length_s_r ∙ ap (λ k. 64 * k) (sym length-values))

      length-a_l : length a_l ≡ size
      length-a_l = length-bits_of h 64 values' ∙ ap (λ k. 64 * k) length-values

      length-a_r : length a_r ≡ size
      length-a_r = length-map a_l (λ b. g.sub b (g.from_uint64 1)) ∙ length-a_l

      length-l' : length l' ≡ size
      length-l' =
          length-left_vector h z' v' (64 * length values') v'-HasLength x'
          ∙ ap (λ k. 64 * k) length-values

      length-r' : length r' ≡ size
      length-r' =
          length-right_vector h z' v' (64 * length values') v'-HasLength x'
          ∙ ap (λ k. 64 * k) length-values

      length-h_prime : length h_prime ≡ size
      length-h_prime = length-compute_h_prime h y' hs' ∙ length-hs

      encode_all :
          (l r : List g.Scalar) (hs : List g.Point)
          → length l ≡ size
          → length r ≡ size
          → length hs ≡ size
          → encode_vectors g l r gs' hs
            ≡ ok (g.plus (multi_scalar_mult g l gs') (multi_scalar_mult g r hs))
      encode_all l r hs e f k =
          encode_vectors-returns h l r gs' hs (f ∙ sym e) (length-gs ∙ sym e) (k ∙ sym e)

      prove_lem :
          (inner : InnerProduct.Proof g)
          → InnerProduct.prove g inner_wit gs' h_prime u' (g.scalar_bytes x') ≡ ok inner
          → prove g params wit draws ≡ ok (range_proof inner)
      prove_lem inner run =
          let s = v'-HasLength in
          let n = 64 * length values' in
          prove_steps (g.plus (multi_scalar_mult g a_l gs') (multi_scalar_mult g a_r hs'))
            (g.plus (multi_scalar_mult g draws.s_l gs') (multi_scalar_mult g draws.s_r hs')) v'
            (t_one h z' v', t_two h z' v') (l', r', dot h l' r')
            (g.plus (multi_scalar_mult g l' gs') (multi_scalar_mult g r' h_prime)) inner wit.rands
            (not_less (length wit.values) 32 few) (not_less size (length params.gs) enough_gs)
            (not_less size (length params.hs) enough_hs)
            (not_less (length wit.values) (length wit.rands) (omega arith))
            (take_all (length wit.values) wit.rands (omega arith))
            (encode_all a_l a_r hs' length-a_l length-a_r length-hs)
            (encode_all draws.s_l draws.s_r hs' length_s_l length_s_r length-hs)
            (make_vectors-returns h y' z' values' some_value draws.s_l draws.s_r)
            (t_values-returns h z' v' n s) (response_vectors-returns h z' v' n s x')
            (encode_all l' r' h_prime length-l' length-r' length-h_prime) run

      inner_returns :
          (inner : InnerProduct.Proof g) × (InnerProduct.prove g inner_wit gs' h_prime u'
              (g.scalar_bytes x')
            ≡ ok inner)
          × (inner.p ≡ inner_wit.p)
      inner_returns =
          let p = round_up_pow_two-power (length wit.values) few in
          let e : size ≡ 2 ^ six_more p.0 = ap (λ k. 64 * k) p.1 ∙ sixty_four p.0 in
          let (inner, run, el, er) =
            prove-returns h u' inner_wit gs' h_prime (g.scalar_bytes x') (six_more p.0)
              (length-l' ∙ e) (length-r' ∙ e) (omega (arith, length-gs, e))
              (omega (arith, length-h_prime, e)) in
          (
            inner,
            run,
            prove_commitment h u' inner_wit gs' h_prime (g.scalar_bytes x') (six_more p.0)
                (length-l' ∙ e) (length-r' ∙ e) (omega (arith, length-gs, e))
                (omega (arith, length-h_prime, e)) inner run,
          )

      t_hat_lem :
          All (λ v. v < 2 ^ 64) wit.values
          → dot h l' r'
            ≡ square h x'
                (g.add
                  (delta h y' z' values' some_value)
                  (weigh_powers g z' z' (map g.from_uint64 wit.values)))
                (t_one h z' v')
                (t_two h z' v')
      t_hat_lem fit =
          t_hat-square h z' v' (64 * length values') v'-HasLength x'
          ∙ ap (λ k. square h x' k (t_one h z' v') (t_two h z' v'))
              (t_zero-delta h y' z' values' some_value draws.s_l draws.s_r (
                  All-append (λ v. v < 2 ^ 64) wit.values (replicate spare 0) fit (zeros-fit spare))
                ∙ ap (g.add (delta h y' z' values' some_value)) (
                    ap (weigh_powers g z' z') (map-padded g.from_uint64 wit.values spare)
                    ∙ weigh_powers-padded h params z' z' (map g.from_uint64 wit.values) spare))

      Opens_lem :
          (inner : InnerProduct.Proof g)
          → All (λ v. v < 2 ^ 64) wit.values
          → Opens g params (range_proof inner) (64 * length values')
      unfolding Opens
      Opens_lem inner fit = (
        y_vector h y' z' values' some_value,
        delta h y' z' values' some_value,
        power_vector-returns h y' (64 * length values') (omega (arith, some_value)),
        compute_delta_yz-returns h y' z' values' some_value,
        ap (λ k. commit g params k (range_proof inner).tau_x) (t_hat_lem fit)
            ∙ weighed_opening h params x' z' (delta h y' z' values' some_value) (t_one h z' v')
                (t_two h z' v') draws.tau1 draws.tau2 wit.values wit.rands spare paired,
      )

      -- Over a group with the laws, for a witness of at most 32 values below 2^64 with as many random
      -- scalars, with generators and random vectors enough for the padded values: Prove returns a proof,
      -- whose tHat and tauX open the sum of the commitments that a verifier computes, with the δ(y, z)
      -- that computeDeltaYZ returns.
      pub prove-Opens :
          All (λ v. v < 2 ^ 64) wit.values
          → (proof : RangeProof g) × (prove g params wit draws ≡ ok proof)
            × Opens g params proof (64 * padded_count wit)
      prove-Opens fit =
          let (inner, run, same) = inner_returns in
          (
            range_proof inner,
            prove_lem inner run,
            subst (λ k. Opens g params (range_proof inner) (64 * k)) length-values
                (Opens_lem inner fit),
          )

      inner_committed : cross g u' l' r' gs' h_prime ≡ ok inner_wit.p
      unfolding cross
      inner_committed =
          rw (inner_product-ok h l' r' (length-r' ∙ sym length-l'))
            (rw (encode_all l' r' h_prime length-l' length-r' length-h_prime) refl)

      made_InnerAccepted :
          (inner : InnerProduct.Proof g)
          → InnerProduct.prove g inner_wit gs' h_prime u' (g.scalar_bytes x') ≡ ok inner
          → ChallengesInvert g (g.scalar_bytes x') inner.l inner.r
          → InnerAccepted g params (range_proof inner) size
      unfolding InnerAccepted
      made_InnerAccepted inner run inverts =
          let p = round_up_pow_two-power (length wit.values) few in
          let e : size ≡ 2 ^ six_more p.0 = ap (λ k. 64 * k) p.1 ∙ sixty_four p.0 in
          let all_gs : take (length l') gs' ≡ gs' =
            take_all (length l') gs' (omega (arith, length-gs, length-l')) in
          let all_hs : take (length l') h_prime ≡ h_prime =
            take_all (length l') h_prime (omega (arith, length-h_prime, length-l')) in
          let open_all : cross g u' l' r' (take (length l') gs') (take (length l') h_prime)
              ≡ ok inner_wit.p =
            ap (λ k. cross g u' l' r' k (take (length l') h_prime)) all_gs
            ∙ ap (cross g u' l' r' gs') all_hs
            ∙ inner_committed in
          subst
            (λ k. Accepts g u' inner.l inner.r inner.a inner.b (g.scalar_bytes x') gs' k inner.p)
            all_hs
            (subst
              (λ k.
                Accepts g u' inner.l inner.r inner.a inner.b (g.scalar_bytes x') k
                  (take (length l') h_prime) inner.p)
              all_gs
              (prove-Accepts h u' inner_wit gs' h_prime (g.scalar_bytes x') (six_more p.0)
                (length-l' ∙ e) (length-r' ∙ e) (omega (arith, length-gs, e))
                (omega (arith, length-h_prime, e)) open_all inner run inverts))

      -- The vectors of the inner-product proof and what their commitment is made of.
      fold_left :
          weigh h l' gs'
          ≡ g.plus
              (g.plus (weigh h a_l gs') (g.scale x' (weigh h draws.s_l gs')))
              (g.scale (z_neg g z') (total_points g gs'))
      fold_left =
          weigh-line h x' (z_neg g z') a_l draws.s_l gs' (length-a_l ∙ sym length-gs)
            (length_s_l ∙ sym length-gs)

      fold_right :
          g.mul y' (g.invert y') ≡ g.one_scalar
          → weigh h r' h_prime
            ≡ g.plus
                (g.plus
                  (g.plus (weigh h a_r hs') (g.scale x' (weigh h draws.s_r hs')))
                  (g.scale z' (total_points g hs')))
                (weigh h v'.sums h_prime)
      unfolding compute_h_prime
      fold_right i =
          let n = 64 * length values' in
          let t = tmp_vector h z' v' x' in
          let len_n : n ≡ size = ap (λ k. 64 * k) length-values in
          weigh-zip h (zip_scalars g g.mul v'.y_vector t) v'.sums h_prime
            (length-product h z' v' n v'-HasLength x' ∙ len_n ∙ sym length-h_prime)
            (v'-HasLength.length_sums ∙ len_n ∙ sym length-h_prime)
          ∙ ap (λ k. g.plus k (weigh h v'.sums h_prime))
              (ap (λ k. weigh h (zip_scalars g g.mul k t) h_prime)
                  (powers_of-powers_from h y' n (length hs') (omega (arith, some_value))
                    (length-hs ∙ sym len_n))
                ∙ weigh-h_prime h y' (g.invert y') (g.from_uint64 1) (g.from_uint64 1) t hs' i
                    (ap (g.mul (g.from_uint64 1)) h.from_uint64_one
                      ∙ h.mul-one (g.from_uint64 1)
                      ∙ h.from_uint64_one)
                    (length-tmp_vector h z' v' n v'-HasLength x' ∙ len_n ∙ sym length-hs)
                ∙ weigh-line h x' z' a_r draws.s_r hs' (length-a_r ∙ sym length-hs)
                    (length_s_r ∙ sym length-hs))

      two_weighs :
          (a b : List g.Scalar) (ps qs : List g.Point)
          → g.plus (multi_scalar_mult g a ps) (multi_scalar_mult g b qs)
            ≡ g.plus (weigh h a ps) (weigh h b qs)
      two_weighs a b ps qs =
          ap (λ k. g.plus k (multi_scalar_mult g b qs)) (multi_scalar_mult-weigh h a ps)
          ∙ ap (g.plus (weigh h a ps)) (multi_scalar_mult-weigh h b qs)

      abbrev verifier_part : g.Point → g.Point
      verifier_part w =
          g.plus
            (g.plus
              (g.plus (g.scale (z_neg g z') (total_points g gs')) (g.scale z' (total_points g hs')))
              w)
            (g.scale (dot h l' r') u')

      sums_weigh :
          multi_scalar_mult g (vector_sum g z' z' (two_vector h 63) (padded_count wit)) h_prime
          ≡ weigh h v'.sums h_prime
      sums_weigh =
          ap (λ k. multi_scalar_mult g (vector_sum g z' z' (two_vector h 63) k) h_prime)
            (sym length-values)
          ∙ multi_scalar_mult-weigh h v'.sums h_prime

      made_Folds :
          (inner : InnerProduct.Proof g)
          → inner.p ≡ inner_wit.p
          → g.mul y' (g.invert y') ≡ g.one_scalar
          → Folds g params (range_proof inner) (padded_count wit)
      unfolding Folds
      made_Folds inner same i =
          let mu = g.scale (g.add draws.alpha (g.mul draws.rho x')) params.h_base in
          let t = g.scale (dot h l' r') u' in
          let n = g.scale (z_neg g z') (total_points g gs') in
          let z = g.scale z' (total_points g hs') in
          let w = weigh h v'.sums h_prime in
          (
            two_vector h 63,
            power_vector-returns h (g.from_uint64 2) 64 (omega arith),
            ap (λ k. g.plus k mu)
                  (same
                    ∙ ap (λ k. g.plus k t)
                        (two_weighs l' r' gs' h_prime
                          ∙ ap (λ k. g.plus k (weigh h r' h_prime)) fold_left
                          ∙ ap
                              (g.plus (
                                g.plus
                                  (g.plus (weigh h a_l gs') (g.scale x' (weigh h draws.s_l gs')))
                                  n))
                              (fold_right i)))
                ∙ gather h (weigh h a_l gs') (weigh h a_r hs') (weigh h draws.s_l gs')
                    (weigh h draws.s_r hs') params.h_base n z w t x' draws.alpha draws.rho
                ∙ sym (
                    ap (λ k. g.plus (g.plus point_a (g.scale x' point_s)) (verifier_part k))
                      sums_weigh
                    ∙ ap
                        (λ k.
                          g.plus
                            (g.plus (g.plus k (g.scale draws.alpha params.h_base))
                              (g.scale x' point_s))
                            (verifier_part w))
                        (two_weighs a_l a_r gs' hs')
                    ∙ ap
                        (λ k.
                          g.plus
                            (g.plus
                              (g.plus (g.plus (weigh h a_l gs') (weigh h a_r hs'))
                                (g.scale draws.alpha params.h_base))
                              (g.scale x' (g.plus k (g.scale draws.rho params.h_base))))
                            (verifier_part w))
                        (two_weighs draws.s_l draws.s_r gs' hs')),
          )

      made_Accepted :
          (inner : InnerProduct.Proof g)
          → InnerProduct.prove g inner_wit gs' h_prime u' (g.scalar_bytes x') ≡ ok inner
          → inner.p ≡ inner_wit.p
          → Invertible g params (range_proof inner)
          → Accepted g params (range_proof inner) (padded_count wit)
      unfolding Accepted Invertible challenge_y
      made_Accepted inner run same inverts =
          (made_Folds inner same inverts.0, made_InnerAccepted inner run inverts.1)

      -- Under the conditions of prove-Opens without the bound on the values: for a proof that Prove
      -- returns, the commitment of its inner-product proof and mu are what a verifier computes from A, S,
      -- the challenges, the generators and tHat, and the verifier accepts the inner-product proof, if the
      -- challenge y and the challenges of the inner-product proof have inverses.
      pub prove-Accepted :
          (proof : RangeProof g)
          → prove g params wit draws ≡ ok proof
          → Invertible g params proof
          → Accepted g params proof (padded_count wit)
      prove-Accepted proof returned inverts =
          let (inner, run, same) = inner_returns in
          let q : proof ≡ range_proof inner =
            ok_injective {E = Error} _ _ (sym returned ∙ prove_lem inner run) in
          subst (λ t. Invertible g params t → Accepted g params t (padded_count wit)) (sym q)
            (made_Accepted inner run same) inverts
