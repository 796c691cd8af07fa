-- ===== src/Bulletproofs/RangeProof/Verifier.antt =====
-- What a verifier computes from a range proof of Witness.Prove.
use go_incognito_sdk_v.Base.{take, ◌*◌, ℕ, ◌≡◌, List, [], ◌∷◌, ◌++◌, length, ok}
use go_incognito_sdk_v.Bulletproofs.RangeProof.Folded.{total_points}
use go_incognito_sdk_v.Bulletproofs.{multi_scalar_mult, Group, points_bytes, generate_challenge}
use go_incognito_sdk_v.Bulletproofs.InnerProduct.{Accepts, ChallengesInvert}
use go_incognito_sdk_v.Bulletproofs.RangeProof.{
  compute_h_prime, max_exp, z_neg, vector_sum, Params, RangeWitness, RangeProof, round_up_pow_two,
  power_vector, compute_delta_yz, commit,
}
use go_incognito_sdk_v.Bulletproofs.RangeProof.Committed.{weigh_commitments}

abbrev pub padded_count : {g : Group} → RangeWitness g → ℕ
padded_count wit = round_up_pow_two (length wit.values)

-- What a verifier computes from a proof: y, z and x, and the vector of the powers of y.
module _ (g : Group) (params : Params g) (proof : RangeProof g) where
  unfoldable pub challenge_y : g.Scalar
  unfolding points_bytes generate_challenge
  challenge_y =
      generate_challenge g (g.point_bytes params.cs ++ points_bytes g proof.cms_value)
        (proof.a ∷ proof.s ∷ [])

  unfoldable pub challenge_z : g.Scalar
  unfolding challenge_y generate_challenge
  challenge_z = generate_challenge g (g.scalar_bytes challenge_y) (proof.a ∷ proof.s ∷ [])

  unfoldable pub challenge_x : g.Scalar
  unfolding challenge_z generate_challenge
  challenge_x = generate_challenge g (g.scalar_bytes challenge_z) (proof.t1 ∷ proof.t2 ∷ [])

  -- tHat and tauX open δ(y, z) G + z^2 V0 + z^3 V1 + … + x T1 + x^2 T2.
  unfoldable pub Opens : ℕ → Type 0
  unfolding challenge_x
  Opens n =
      (y_vec : List g.Scalar) × (d : g.Scalar) × (power_vector g challenge_y n ≡ ok y_vec)
      × (compute_delta_yz g challenge_z (g.mul challenge_z challenge_z) y_vec n ≡ ok d)
      × (commit g params proof.t_hat proof.tau_x
          ≡ g.plus
              (g.plus (g.scale d params.value_base)
                (weigh_commitments g challenge_z challenge_z proof.cms_value))
              (g.plus (g.scale challenge_x proof.t1)
                (g.scale (g.mul challenge_x challenge_x) proof.t2)))

  -- The check of the inner-product proof, over the first `n` generators.
  unfoldable pub InnerAccepted : ℕ → Type 0
  unfolding challenge_x compute_h_prime Accepts
  InnerAccepted n =
      let inner = proof.inner_product_proof in
      Accepts g (g.scale (g.hash_to_scalar (g.scalar_bytes challenge_x)) params.u) inner.l inner.r
        inner.a inner.b (g.scalar_bytes challenge_x) (take n params.gs)
        (compute_h_prime g challenge_y (take n params.hs)) inner.p

  -- The commitment of the inner-product proof and mu, from A and S.
  unfoldable pub Folds : ℕ → Type 0
  unfolding challenge_x compute_h_prime vector_sum multi_scalar_mult total_points
  Folds count =
      let gs = take (max_exp * count) params.gs in
      let hs = take (max_exp * count) params.hs in
      let u = g.scale (g.hash_to_scalar (g.scalar_bytes challenge_x)) params.u in
      (two_vector : List g.Scalar) × (power_vector g (g.from_uint64 2) max_exp ≡ ok two_vector)
      × (g.plus proof.inner_product_proof.p (g.scale proof.mu params.h_base)
          ≡ g.plus (g.plus proof.a (g.scale challenge_x proof.s)) (
              g.plus
                (g.plus
                  (g.plus (g.scale (z_neg g challenge_z) (total_points g gs))
                    (g.scale challenge_z (total_points g hs)))
                  (multi_scalar_mult g (vector_sum g challenge_z challenge_z two_vector count)
                    (compute_h_prime g challenge_y hs)))
                (g.scale proof.t_hat u)))

  unfoldable pub Accepted : ℕ → Type 0
  unfolding InnerAccepted Folds
  Accepted count = Folds count × InnerAccepted (max_exp * count)

  -- The challenge y and those of the inner-product proof have inverses.
  unfoldable pub Invertible : Type 0
  unfolding challenge_x ChallengesInvert
  Invertible =
      let inner = proof.inner_product_proof in
      (g.mul challenge_y (g.invert challenge_y) ≡ g.one_scalar)
      × ChallengesInvert g (g.scalar_bytes challenge_x) inner.l inner.r
