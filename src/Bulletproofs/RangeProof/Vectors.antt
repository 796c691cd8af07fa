-- ===== src/Bulletproofs/RangeProof/Vectors.antt =====
-- The inner products of the vectors of the range proof.
use go_incognito_sdk_v.Base.{◌≡◌, refl, sym, ap, ◌∙◌, List, [], ◌∷◌, map, length, All, arith}
use go_incognito_sdk_v.Bulletproofs.{Group}
use go_incognito_sdk_v.Bulletproofs.Laws.{GroupLaws}
use go_incognito_sdk_v.Bulletproofs.InnerProduct.Sums.{sum}
use go_incognito_sdk_v.Bulletproofs.InnerProduct.Commitments.{dot}
use go_incognito_sdk_v.Bulletproofs.RangeProof.{zip_scalars, vector_add_scalar, vector_mul_scalar}
use go_incognito_sdk_v.Bulletproofs.RangeProof.Ring.{
  zero-add, add_interchange, neg, factor, IsBit, bit_term, expand,
}

module _ {g : Group} (h : GroupLaws g) where
  -- l0 + l1 x
  abbrev pub line : g.Scalar → List g.Scalar → List g.Scalar → List g.Scalar
  line x a b = zip_scalars g g.add a (vector_mul_scalar g b x)

  -- t0 + t1 x + t2 x^2
  abbrev pub square : g.Scalar → g.Scalar → g.Scalar → g.Scalar → g.Scalar
  square x t0 t1 t2 = g.add (g.add t0 (g.mul x t1)) (g.mul (g.mul x x) t2)

  square-plus :
      (x a b c a' b' c' : g.Scalar)
      → g.add (square x a b c) (square x a' b' c') ≡ square x (g.add a a') (g.add b b') (g.add c c')
  square-plus x a b c a' b' c' =
      add_interchange h (g.add a (g.mul x b)) (g.mul (g.mul x x) c) (g.add a' (g.mul x b'))
        (g.mul (g.mul x x) c')
      ∙ ap (λ t. g.add t (g.add (g.mul (g.mul x x) c) (g.mul (g.mul x x) c')))
          (add_interchange h a (g.mul x b) a' (g.mul x b')
            ∙ ap (g.add (g.add a a')) (sym (h.mul-add x b b')))
      ∙ ap (g.add (g.add (g.add a a') (g.mul x (g.add b b')))) (sym (h.mul-add (g.mul x x) c c'))

  square-zero : (x : g.Scalar) → square x g.zero_scalar g.zero_scalar g.zero_scalar ≡ g.zero_scalar
  square-zero x =
      ap (g.add (g.add g.zero_scalar (g.mul x g.zero_scalar))) (h.mul-zero (g.mul x x))
      ∙ h.add-zero (g.add g.zero_scalar (g.mul x g.zero_scalar))
      ∙ ap (g.add g.zero_scalar) (h.mul-zero x)
      ∙ h.add-zero g.zero_scalar

  -- The inner product of two lines, by the powers of x.
  pub dot-line :
      (x : g.Scalar) (p s r t : List g.Scalar)
      → length s ≡ length p
      → length r ≡ length p
      → length t ≡ length p
      → dot h (line x p s) (line x r t)
        ≡ square x (dot h p r) (g.add (dot h s r) (dot h p t)) (dot h s t)
  unfolding sum zip_scalars
  dot-line x [] [] [] [] es er et =
      sym (
        ap (λ k. square x g.zero_scalar k g.zero_scalar) (h.add-zero g.zero_scalar) ∙ square-zero x)
  dot-line x (p ∷ ps) (s ∷ ss) (r ∷ rs) (t ∷ ts) es er et =
      ap (λ k. g.add k (dot h (line x ps ss) (line x rs ts))) (expand h p s r t x)
      ∙ ap (g.add (square x (g.mul p r) (g.add (g.mul s r) (g.mul p t)) (g.mul s t)))
          (dot-line x ps ss rs ts (omega arith) (omega arith) (omega arith))
      ∙ square-plus x (g.mul p r) (g.add (g.mul s r) (g.mul p t)) (g.mul s t) (dot h ps rs)
          (g.add (dot h ss rs) (dot h ps ts)) (dot h ss ts)
      ∙ ap (λ k. square x (g.add (g.mul p r) (dot h ps rs)) k (g.add (g.mul s t) (dot h ss ts)))
          (add_interchange h (g.mul s r) (g.mul p t) (dot h ss rs) (dot h ps ts))
  dot-line x [] (s ∷ ss) rs ts es er et = absurd (omega arith)
  dot-line x [] [] (r ∷ rs) ts es er et = absurd (omega arith)
  dot-line x [] [] [] (t ∷ ts) es er et = absurd (omega arith)
  dot-line x (p ∷ ps) [] rs ts es er et = absurd (omega arith)
  dot-line x (p ∷ ps) (s ∷ ss) [] ts es er et = absurd (omega arith)
  dot-line x (p ∷ ps) (s ∷ ss) (r ∷ rs) [] es er et = absurd (omega arith)

  -- The right vector of Prove is a line: y (q + t x) + w = (y q + w) + (y t) x.
  pub right-line :
      (x : g.Scalar) (y q t w : List g.Scalar)
      → zip_scalars g g.add (zip_scalars g g.mul y (line x q t)) w
        ≡ line x (zip_scalars g g.add (zip_scalars g g.mul y q) w) (zip_scalars g g.mul y t)
  unfolding zip_scalars
  right-line x (y ∷ ys) (q ∷ qs) (t ∷ ts) (w ∷ ws) =
      ap (λ k. k ∷ zip_scalars g g.add (zip_scalars g g.mul ys (line x qs ts)) ws)
        (ap (λ k. g.add k w) (h.mul-add y q (g.mul t x))
          ∙ h.add_assoc (g.mul y q) (g.mul y (g.mul t x)) w
          ∙ ap (g.add (g.mul y q)) (h.add_comm (g.mul y (g.mul t x)) w)
          ∙ sym (h.add_assoc (g.mul y q) w (g.mul y (g.mul t x)))
          ∙ ap (g.add (g.add (g.mul y q) w)) (sym (h.mul_assoc y t x)))
      ∙ ap (λ k. g.add (g.add (g.mul y q) w) (g.mul (g.mul y t) x) ∷ k) (right-line x ys qs ts ws)
  right-line x [] qs ts ws = refl
  right-line x (y ∷ ys) [] ts ws = refl
  right-line x (y ∷ ys) (q ∷ qs) [] [] = refl
  right-line x (y ∷ ys) (q ∷ qs) [] (w ∷ ws) = refl
  right-line x (y ∷ ys) (q ∷ qs) (t ∷ ts) [] = refl

  -- The sum of a vector.
  unfoldable pub total : List g.Scalar → g.Scalar
  total [] = g.zero_scalar
  total (x ∷ xs) = g.add x (total xs)

  abbrev pub right_zero : g.Scalar → List g.Scalar → List g.Scalar → List g.Scalar → List g.Scalar
  right_zero z a y w =
      zip_scalars g g.add
        (zip_scalars g g.mul y (vector_add_scalar g (map (λ b. g.sub b g.one_scalar) a) z)) w

  -- <l0, r0> for a vector of bits.
  pub dot-bits :
      (z : g.Scalar) (a y w : List g.Scalar)
      → All (IsBit h) a
      → length y ≡ length a
      → length w ≡ length a
      → dot h (vector_add_scalar g a (neg h z)) (right_zero z a y w)
        ≡ g.add (g.mul (factor h z) (total y)) (g.add (dot h a w) (g.mul (neg h z) (total w)))
  unfolding sum zip_scalars total
  dot-bits z [] [] [] b ey ew = sym (
      ap (λ k. g.add k (g.add g.zero_scalar (g.mul (neg h z) g.zero_scalar)))
        (h.mul-zero (factor h z))
      ∙ zero-add h (g.add g.zero_scalar (g.mul (neg h z) g.zero_scalar))
      ∙ zero-add h (g.mul (neg h z) g.zero_scalar)
      ∙ h.mul-zero (neg h z))
  dot-bits z (a ∷ as') (y ∷ ys) (w ∷ ws) b ey ew =
      let f = factor h z in
      let n = neg h z in
      ap (λ k. g.add k (dot h (vector_add_scalar g as' n) (right_zero z as' ys ws)))
        (bit_term h a y z w b.0)
      ∙ ap (g.add (g.add (g.mul f y) (g.add (g.mul a w) (g.mul n w))))
          (dot-bits z as' ys ws b.1 (omega arith) (omega arith))
      ∙ add_interchange h (g.mul f y) (g.add (g.mul a w) (g.mul n w)) (g.mul f (total ys))
          (g.add (dot h as' ws) (g.mul n (total ws)))
      ∙ ap
          (λ k.
            g.add k
              (g.add (g.add (g.mul a w) (g.mul n w)) (g.add (dot h as' ws) (g.mul n (total ws)))))
          (sym (h.mul-add f y (total ys)))
      ∙ ap (g.add (g.mul f (g.add y (total ys)))) (
          add_interchange h (g.mul a w) (g.mul n w) (dot h as' ws) (g.mul n (total ws))
          ∙ ap (g.add (g.add (g.mul a w) (dot h as' ws))) (sym (h.mul-add n w (total ws))))
  dot-bits z [] (y ∷ ys) ws b ey ew = absurd (omega arith)
  dot-bits z [] [] (w ∷ ws) b ey ew = absurd (omega arith)
  dot-bits z (a ∷ as') [] ws b ey ew = absurd (omega arith)
  dot-bits z (a ∷ as') (y ∷ ys) [] b ey ew = absurd (omega arith)
