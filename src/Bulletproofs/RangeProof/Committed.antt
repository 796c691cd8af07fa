-- ===== src/Bulletproofs/RangeProof/Committed.antt =====
-- Commitments to the values and to the coefficients of tHat: what they add up to.
use go_incognito_sdk_v.Base.{
  ℕ, zero, suc, ◌≡◌, refl, sym, ap, ◌∙◌, List, [], ◌∷◌, ◌++◌, map, length, replicate, arith,
}
use go_incognito_sdk_v.Bulletproofs.{Group}
use go_incognito_sdk_v.Bulletproofs.Laws.{GroupLaws}
use go_incognito_sdk_v.Bulletproofs.InnerProduct.Sums.{points_module, plus_interchange}
use go_incognito_sdk_v.Bulletproofs.RangeProof.{Params, commit, commit_values, add_rands}
use go_incognito_sdk_v.Bulletproofs.RangeProof.Ring.{zero-add}
use go_incognito_sdk_v.Bulletproofs.RangeProof.Vectors.{square}
use go_incognito_sdk_v.Bulletproofs.RangeProof.Powers.{weigh_powers, add_rands-weigh_powers}

module _ (g : Group) where
  -- z^2 V0 + z^3 V1 + …, where `z_tmp` is the power of z before the first.
  unfoldable pub weigh_commitments : g.Scalar → g.Scalar → List g.Point → g.Point
  weigh_commitments z z_tmp [] = g.identity
  weigh_commitments z z_tmp (p ∷ ps) =
      g.plus (g.scale (g.mul z_tmp z) p) (weigh_commitments z (g.mul z_tmp z) ps)

module _ {g : Group} (h : GroupLaws g) (params : Params g) where
  commit-add :
      (a b c d : g.Scalar)
      → g.plus (commit g params a b) (commit g params c d) ≡ commit g params (g.add a c) (g.add b d)
  commit-add a b c d =
      plus_interchange (points_module g h) (g.scale a params.value_base) (g.scale b params.h_base)
        (g.scale c params.value_base) (g.scale d params.h_base)
      ∙ ap (λ t. g.plus t (g.plus (g.scale b params.h_base) (g.scale d params.h_base)))
          (sym (h.scale-add a c params.value_base))
      ∙ ap (g.plus (g.scale (g.add a c) params.value_base)) (sym (h.scale-add b d params.h_base))

  commit-scale :
      (k a b : g.Scalar) → g.scale k (commit g params a b) ≡ commit g params (g.mul k a) (g.mul k b)
  commit-scale k a b =
      h.scale-plus k (g.scale a params.value_base) (g.scale b params.h_base)
      ∙ ap (λ t. g.plus t (g.scale k (g.scale b params.h_base)))
          (sym (h.scale-mul k a params.value_base))
      ∙ ap (g.plus (g.scale (g.mul k a) params.value_base)) (sym (h.scale-mul k b params.h_base))

  commit-zero : (a : g.Scalar) → commit g params a g.zero_scalar ≡ g.scale a params.value_base
  commit-zero a =
      ap (g.plus (g.scale a params.value_base)) (h.scale-zero params.h_base)
      ∙ h.plus-identity (g.scale a params.value_base)

  weigh_commitments_lem :
      (z z_tmp : g.Scalar) (vs : List ℕ) (rs : List g.Scalar)
      → length rs ≡ length vs
      → weigh_commitments g z z_tmp (commit_values g params vs rs)
        ≡ commit g params
            (weigh_powers g z z_tmp (map g.from_uint64 vs))
            (weigh_powers g z z_tmp rs)
  unfolding weigh_commitments commit_values weigh_powers
  weigh_commitments_lem z z_tmp [] [] e =
      sym (commit-zero g.zero_scalar ∙ h.scale-zero params.value_base)
  weigh_commitments_lem z z_tmp [] (r ∷ rs) e = absurd (omega arith)
  weigh_commitments_lem z z_tmp (v ∷ vs) [] e = absurd (omega arith)
  weigh_commitments_lem z z_tmp (v ∷ vs) (r ∷ rs) e =
      let p = g.mul z_tmp z in
      ap (g.plus (g.scale p (commit g params (g.from_uint64 v) r)))
        (weigh_commitments_lem z p vs rs (omega arith))
      ∙ ap
          (λ t.
            g.plus t
              (commit g params (weigh_powers g z p (map g.from_uint64 vs)) (weigh_powers g z p rs)))
          (commit-scale p (g.from_uint64 v) r)
      ∙ commit-add (g.mul p (g.from_uint64 v)) (g.mul p r)
          (weigh_powers g z p (map g.from_uint64 vs)) (weigh_powers g z p rs)

  -- Zeros at the end of a list have no weight.
  weigh_powers-zeros :
      (z z_tmp : g.Scalar) (n : ℕ)
      → weigh_powers g z z_tmp (replicate n (g.from_uint64 0)) ≡ g.zero_scalar
  unfolding weigh_powers
  weigh_powers-zeros z z_tmp zero = refl
  weigh_powers-zeros z z_tmp (suc n) =
      let p = g.mul z_tmp z in
      ap (λ k. g.add (g.mul p k) (weigh_powers g z p (replicate n (g.from_uint64 0))))
        h.from_uint64_zero
      ∙ ap (λ k. g.add k (weigh_powers g z p (replicate n (g.from_uint64 0)))) (h.mul-zero p)
      ∙ zero-add h (weigh_powers g z p (replicate n (g.from_uint64 0)))
      ∙ weigh_powers-zeros z p n

  pub weigh_powers-padded :
      (z z_tmp : g.Scalar) (xs : List g.Scalar) (n : ℕ)
      → weigh_powers g z z_tmp (xs ++ replicate n (g.from_uint64 0)) ≡ weigh_powers g z z_tmp xs
  unfolding weigh_powers
  weigh_powers-padded z z_tmp [] n = weigh_powers-zeros z z_tmp n
  weigh_powers-padded z z_tmp (x ∷ xs) n =
      ap (g.add (g.mul (g.mul z_tmp z) x)) (weigh_powers-padded z (g.mul z_tmp z) xs n)

  blinds :
      (x z tau1 tau2 : g.Scalar) (rs : List g.Scalar) (n : ℕ)
      → g.add
          (g.add g.zero_scalar (weigh_powers g z z rs))
          (g.add (g.mul x tau1) (g.mul (g.mul x x) tau2))
        ≡ add_rands g z z
            (g.add (g.mul tau2 (g.mul x x)) (g.mul tau1 x))
            (rs ++ replicate n (g.from_uint64 0))
  blinds x z tau1 tau2 rs n =
      let r = weigh_powers g z z rs in
      let sum = g.add (g.mul tau2 (g.mul x x)) (g.mul tau1 x) in
      ap (λ k. g.add k (g.add (g.mul x tau1) (g.mul (g.mul x x) tau2))) (zero-add h r)
      ∙ h.add_comm r (g.add (g.mul x tau1) (g.mul (g.mul x x) tau2))
      ∙ ap (λ k. g.add k r)
          (h.add_comm (g.mul x tau1) (g.mul (g.mul x x) tau2)
            ∙ ap (λ k. g.add k (g.mul x tau1)) (h.mul_comm (g.mul x x) tau2)
            ∙ ap (g.add (g.mul tau2 (g.mul x x))) (h.mul_comm x tau1))
      ∙ sym (
          add_rands-weigh_powers h z z sum (rs ++ replicate n (g.from_uint64 0))
          ∙ ap (g.add sum) (weigh_powers-padded z z rs n))

  -- What a verifier computes from the commitments is what opens with tHat and tauX.
  pub weighed_opening :
      (x z d t1 t2 tau1 tau2 : g.Scalar) (vs : List ℕ) (rs : List g.Scalar) (n : ℕ)
      → length rs ≡ length vs
      → commit g params (square h x (g.add d (weigh_powers g z z (map g.from_uint64 vs))) t1 t2) (
          add_rands g z z
            (g.add (g.mul tau2 (g.mul x x)) (g.mul tau1 x))
            (rs ++ replicate n (g.from_uint64 0)))
        ≡ g.plus
            (g.plus
              (g.scale d params.value_base)
              (weigh_commitments g z z (commit_values g params vs rs)))
            (g.plus
              (g.scale x (commit g params t1 tau1))
              (g.scale (g.mul x x) (commit g params t2 tau2)))
  weighed_opening x z d t1 t2 tau1 tau2 vs rs n e =
      let w = weigh_powers g z z (map g.from_uint64 vs) in
      let r = weigh_powers g z z rs in
      let xx = g.mul x x in
      sym (
        ap
          (λ t.
            g.plus (g.plus t (weigh_commitments g z z (commit_values g params vs rs)))
              (g.plus (g.scale x (commit g params t1 tau1)) (g.scale xx (commit g params t2 tau2))))
          (sym (commit-zero d))
        ∙ ap
            (λ t.
              g.plus (g.plus (commit g params d g.zero_scalar) t) (
                g.plus (g.scale x (commit g params t1 tau1))
                  (g.scale xx (commit g params t2 tau2))))
            (weigh_commitments_lem z z vs rs e)
        ∙ ap (g.plus (g.plus (commit g params d g.zero_scalar) (commit g params w r))) (
            ap (λ t. g.plus t (g.scale xx (commit g params t2 tau2))) (commit-scale x t1 tau1)
            ∙ ap (g.plus (commit g params (g.mul x t1) (g.mul x tau1))) (commit-scale xx t2 tau2)
            ∙ commit-add (g.mul x t1) (g.mul x tau1) (g.mul xx t2) (g.mul xx tau2))
        ∙ ap
            (λ t. g.plus t (
              commit g params (g.add (g.mul x t1) (g.mul xx t2))
                (g.add (g.mul x tau1) (g.mul xx tau2))))
            (commit-add d g.zero_scalar w r)
        ∙ commit-add (g.add d w) (g.add g.zero_scalar r) (g.add (g.mul x t1) (g.mul xx t2))
            (g.add (g.mul x tau1) (g.mul xx tau2))
        ∙ ap
            (λ t.
              commit g params t
                (g.add (g.add g.zero_scalar r) (g.add (g.mul x tau1) (g.mul xx tau2))))
            (sym (h.add_assoc (g.add d w) (g.mul x t1) (g.mul xx t2)))
        ∙ ap (commit g params (square h x (g.add d w) t1 t2)) (blinds x z tau1 tau2 rs n))
