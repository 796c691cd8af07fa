-- ===== src/Bulletproofs/RangeProof/Powers.antt =====
-- The powers of z that Prove weighs the values and their random scalars with, and what they add up to.
use native.Mathlib.Nat.{mul-suc}
use go_incognito_sdk_v.Base.{
  ℕ, zero, suc, ◌+◌, ◌*◌, ◌^◌, ◌<◌, ◌≡◌, refl, sym, ap, ◌∙◌, List, [], ◌∷◌, ◌++◌, map, length, All,
  arith, length-map, length-append,
}
use go_incognito_sdk_v.Bulletproofs.{Group}
use go_incognito_sdk_v.Bulletproofs.Laws.{GroupLaws}
use go_incognito_sdk_v.Bulletproofs.InnerProduct.Sums.{
  scalars_module, sum, sum-append, add-mul, one-mul,
}
use go_incognito_sdk_v.Bulletproofs.InnerProduct.Commitments.{dot}
use go_incognito_sdk_v.Bulletproofs.RangeProof.{
  convert_uint64_to_binary, vector_mul_scalar, powers_from, sum_powers, bits_of, vector_sum,
  add_rands,
}
use go_incognito_sdk_v.Bulletproofs.RangeProof.Ring.{zero-add, zero-mul}
use go_incognito_sdk_v.Bulletproofs.RangeProof.Vectors.{total}
use go_incognito_sdk_v.Bulletproofs.RangeProof.Bits.{two_vector, dot-convert, length-convert}

module _ (g : Group) where
  -- z^2 x0 + z^3 x1 + …, where `z_tmp` is the power of z before the first.
  unfoldable pub weigh_powers : g.Scalar → g.Scalar → List g.Scalar → g.Scalar
  weigh_powers z z_tmp [] = g.zero_scalar
  weigh_powers z z_tmp (x ∷ xs) =
      g.add (g.mul (g.mul z_tmp z) x) (weigh_powers z (g.mul z_tmp z) xs)

  unfoldable pub power_sum : g.Scalar → g.Scalar → ℕ → g.Scalar
  power_sum z z_tmp zero = g.zero_scalar
  power_sum z z_tmp (suc count) = g.add (g.mul z_tmp z) (power_sum z (g.mul z_tmp z) count)

module _ {g : Group} (h : GroupLaws g) where
  dot-scaled :
      (p : g.Scalar) (a w : List g.Scalar) → dot h a (vector_mul_scalar g w p) ≡ g.mul p (dot h a w)
  unfolding sum
  dot-scaled p [] w = sym (h.mul-zero p)
  dot-scaled p (a ∷ as') [] = sym (h.mul-zero p)
  dot-scaled p (a ∷ as') (w ∷ ws) =
      ap (g.add (g.mul a (g.mul w p))) (dot-scaled p as' ws)
      ∙ ap (λ k. g.add k (g.mul p (dot h as' ws)))
          (sym (h.mul_assoc a w p) ∙ h.mul_comm (g.mul a w) p)
      ∙ sym (h.mul-add p (g.mul a w) (dot h as' ws))

  -- The bits of the values with vectorSum give the values, weighed with the powers of z.
  pub dot-bits_of :
      (m : ℕ) (z z_tmp : g.Scalar) (vs : List ℕ)
      → length (two_vector h m) ≡ suc m
      → All (λ v. v < 2 ^ suc m) vs
      → All (λ v. v < 2 ^ 64) vs
      → dot h (bits_of g (suc m) vs) (vector_sum g z z_tmp (two_vector h m) (length vs))
        ≡ weigh_powers g z z_tmp (map g.from_uint64 vs)
  unfolding sum bits_of vector_sum weigh_powers
  dot-bits_of m z z_tmp [] e b l = refl
  dot-bits_of m z z_tmp (v ∷ vs) e b l =
      let p = g.mul z_tmp z in
      let a = convert_uint64_to_binary g v (suc m) in
      sum-append (scalars_module g h) a (bits_of g (suc m) vs)
        (vector_mul_scalar g (two_vector h m) p) (vector_sum g z p (two_vector h m) (length vs))
        (length-convert h v (suc m) ∙ sym e ∙ sym (length-map (two_vector h m) (λ k. g.mul k p)))
      ∙ ap (g.add (dot h a (vector_mul_scalar g (two_vector h m) p)))
          (dot-bits_of m z p vs e b.1 l.1)
      ∙ ap (λ k. g.add k (weigh_powers g z p (map g.from_uint64 vs)))
          (dot-scaled p a (two_vector h m) ∙ ap (g.mul p) (dot-convert h m v b.0 l.0))

  total-append : (a b : List g.Scalar) → total h (a ++ b) ≡ g.add (total h a) (total h b)
  unfolding total
  total-append [] b = sym (zero-add h (total h b))
  total-append (a ∷ as') b =
      ap (g.add a) (total-append as' b) ∙ sym (h.add_assoc a (total h as') (total h b))

  total-scaled :
      (p : g.Scalar) (w : List g.Scalar) → total h (vector_mul_scalar g w p) ≡ g.mul p (total h w)
  unfolding total
  total-scaled p [] = sym (h.mul-zero p)
  total-scaled p (w ∷ ws) =
      ap (g.add (g.mul w p)) (total-scaled p ws)
      ∙ ap (λ k. g.add k (g.mul p (total h ws))) (h.mul_comm w p)
      ∙ sym (h.mul-add p w (total h ws))

  pub total-vector_sum :
      (z z_tmp : g.Scalar) (w : List g.Scalar) (count : ℕ)
      → total h (vector_sum g z z_tmp w count) ≡ g.mul (power_sum g z z_tmp count) (total h w)
  unfolding total vector_sum power_sum
  total-vector_sum z z_tmp w zero = sym (zero-mul h (total h w))
  total-vector_sum z z_tmp w (suc count) =
      let p = g.mul z_tmp z in
      total-append (vector_mul_scalar g w p) (vector_sum g z p w count)
      ∙ ap (λ k. g.add k (total h (vector_sum g z p w count))) (total-scaled p w)
      ∙ ap (g.add (g.mul p (total h w))) (total-vector_sum z p w count)
      ∙ sym (add-mul g h p (power_sum g z p count) (total h w))

  power_sum-mul :
      (z z_tmp : g.Scalar) (count : ℕ)
      → power_sum g z (g.mul z_tmp z) count ≡ g.mul (power_sum g z z_tmp count) z
  unfolding power_sum
  power_sum-mul z z_tmp zero = sym (zero-mul h z)
  power_sum-mul z z_tmp (suc count) =
      let p = g.mul z_tmp z in
      ap (g.add (g.mul p z)) (power_sum-mul z p count)
      ∙ sym (add-mul g h p (power_sum g z p count) z)

  sum_powers-power_sum :
      (z z_tmp acc : g.Scalar) (count : ℕ)
      → sum_powers g z z_tmp acc count ≡ g.add acc (power_sum g z z_tmp count)
  unfolding power_sum sum_powers
  sum_powers-power_sum z z_tmp acc zero = sym (h.add-zero acc)
  sum_powers-power_sum z z_tmp acc (suc count) =
      let p = g.mul z_tmp z in
      sum_powers-power_sum z p (g.add acc p) count ∙ h.add_assoc acc p (power_sum g z p count)

  -- The sum of computeDeltaYZ is z times the one of vectorSum.
  pub sum_powers_lem :
      (z : g.Scalar) (count : ℕ)
      → sum_powers g z (g.mul z z) (g.from_uint64 0) count ≡ g.mul (power_sum g z z count) z
  sum_powers_lem z count =
      sum_powers-power_sum z (g.mul z z) (g.from_uint64 0) count
      ∙ ap (λ k. g.add k (power_sum g z (g.mul z z) count)) h.from_uint64_zero
      ∙ zero-add h (power_sum g z (g.mul z z) count)
      ∙ power_sum-mul z z count

  pub add_rands-weigh_powers :
      (z z_tmp acc : g.Scalar) (rs : List g.Scalar)
      → add_rands g z z_tmp acc rs ≡ g.add acc (weigh_powers g z z_tmp rs)
  unfolding add_rands weigh_powers
  add_rands-weigh_powers z z_tmp acc [] = sym (h.add-zero acc)
  add_rands-weigh_powers z z_tmp acc (r ∷ rs) =
      let p = g.mul z_tmp z in
      add_rands-weigh_powers z p (g.add acc (g.mul p r)) rs
      ∙ h.add_assoc acc (g.mul p r) (weigh_powers g z p rs)

  pub length-powers_from : (b p : g.Scalar) (n : ℕ) → length (powers_from g b p n) ≡ n
  unfolding powers_from
  length-powers_from b p zero = refl
  length-powers_from b p (suc n) = ap suc (length-powers_from b (g.mul p b) n)

  pub length-vector_sum :
      (z z_tmp : g.Scalar) (w : List g.Scalar) (count : ℕ)
      → length (vector_sum g z z_tmp w count) ≡ length w * count
  unfolding vector_sum
  length-vector_sum z z_tmp w zero = omega arith
  length-vector_sum z z_tmp w (suc count) =
      let p = g.mul z_tmp z in
      length-append (vector_mul_scalar g w p) (vector_sum g z p w count)
      ∙ ap (λ k. k + length (vector_sum g z p w count)) (length-map w (λ k. g.mul k p))
      ∙ ap (λ k. length w + k) (length-vector_sum z p w count)
      ∙ omega (arith, mul-suc (length w) count)

  -- The inner product with a vector of ones
  pub dot-ones :
      (p : g.Scalar) (y : List g.Scalar)
      → p ≡ g.one_scalar
      → dot h (powers_from g (g.from_uint64 1) p (length y)) y ≡ total h y
  unfolding sum powers_from total
  dot-ones p [] e = refl
  dot-ones p (y ∷ ys) e =
      ap
        (λ k.
          g.add k
            (dot h (powers_from g (g.from_uint64 1) (g.mul p (g.from_uint64 1)) (length ys)) ys))
        (ap (λ k. g.mul k y) e ∙ one-mul g h y)
      ∙ ap (g.add y) (
          dot-ones (g.mul p (g.from_uint64 1)) ys
            (ap (g.mul p) h.from_uint64_one ∙ h.mul-one p ∙ e))
