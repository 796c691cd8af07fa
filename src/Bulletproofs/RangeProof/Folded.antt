-- ===== src/Bulletproofs/RangeProof/Folded.antt =====
-- The commitment to the vectors of the inner-product proof, from A and S.
use go_incognito_sdk_v.Base.{◌≡◌, refl, sym, ap, ◌∙◌, List, [], ◌∷◌, length, arith, length-map}
use go_incognito_sdk_v.Bulletproofs.{Group}
use go_incognito_sdk_v.Bulletproofs.Laws.{GroupLaws}
use go_incognito_sdk_v.Bulletproofs.InnerProduct.Sums.{
  points_module, plus_interchange, sum, one-mul,
}
use go_incognito_sdk_v.Bulletproofs.InnerProduct.Commitments.{weigh}
use go_incognito_sdk_v.Bulletproofs.RangeProof.{
  zip_scalars, vector_add_scalar, vector_mul_scalar, powers_from, h_prime_from,
}
use go_incognito_sdk_v.Bulletproofs.RangeProof.Vectors.{line}

module _ (g : Group) where
  -- The sum of the generators.
  unfoldable pub total_points : List g.Point → g.Point
  total_points [] = g.identity
  total_points (p ∷ ps) = g.plus p (total_points ps)

module _ {g : Group} (h : GroupLaws g) where
  interchange :
      (p q r s : g.Point) → g.plus (g.plus p q) (g.plus r s) ≡ g.plus (g.plus p r) (g.plus q s)
  interchange = plus_interchange (points_module g h)

  pub weigh-zip :
      (a b : List g.Scalar) (gs : List g.Point)
      → length a ≡ length gs
      → length b ≡ length gs
      → weigh h (zip_scalars g g.add a b) gs ≡ g.plus (weigh h a gs) (weigh h b gs)
  unfolding sum zip_scalars
  weigh-zip [] [] [] e f = sym (h.plus-identity g.identity)
  weigh-zip (a ∷ as') (b ∷ bs) (p ∷ ps) e f =
      ap (g.plus (g.scale (g.add a b) p)) (weigh-zip as' bs ps (omega arith) (omega arith))
      ∙ ap (λ k. g.plus k (g.plus (weigh h as' ps) (weigh h bs ps))) (h.scale-add a b p)
      ∙ interchange (g.scale a p) (g.scale b p) (weigh h as' ps) (weigh h bs ps)
  weigh-zip [] b (p ∷ ps) e f = absurd (omega arith)
  weigh-zip [] (b ∷ bs) [] e f = absurd (omega arith)
  weigh-zip (a ∷ as') b [] e f = absurd (omega arith)
  weigh-zip (a ∷ as') [] (p ∷ ps) e f = absurd (omega arith)

  weigh-scaled :
      (x : g.Scalar) (a : List g.Scalar) (gs : List g.Point)
      → weigh h (vector_mul_scalar g a x) gs ≡ g.scale x (weigh h a gs)
  unfolding sum
  weigh-scaled x [] gs = sym (h.scale-identity x)
  weigh-scaled x (a ∷ as') [] = sym (h.scale-identity x)
  weigh-scaled x (a ∷ as') (p ∷ ps) =
      ap (g.plus (g.scale (g.mul a x) p)) (weigh-scaled x as' ps)
      ∙ ap (λ k. g.plus k (g.scale x (weigh h as' ps)))
          (ap (λ k. g.scale k p) (h.mul_comm a x) ∙ h.scale-mul x a p)
      ∙ sym (h.scale-plus x (g.scale a p) (weigh h as' ps))

  weigh-shifted :
      (c : g.Scalar) (a : List g.Scalar) (gs : List g.Point)
      → length a ≡ length gs
      → weigh h (vector_add_scalar g a c) gs ≡ g.plus (weigh h a gs) (g.scale c (total_points g gs))
  unfolding sum total_points
  weigh-shifted c [] [] e =
      sym (ap (g.plus g.identity) (h.scale-identity c) ∙ h.plus-identity g.identity)
  weigh-shifted c [] (p ∷ ps) e = absurd (omega arith)
  weigh-shifted c (a ∷ as') [] e = absurd (omega arith)
  weigh-shifted c (a ∷ as') (p ∷ ps) e =
      ap (g.plus (g.scale (g.add a c) p)) (weigh-shifted c as' ps (omega arith))
      ∙ ap (λ k. g.plus k (g.plus (weigh h as' ps) (g.scale c (total_points g ps))))
          (h.scale-add a c p)
      ∙ interchange (g.scale a p) (g.scale c p) (weigh h as' ps) (g.scale c (total_points g ps))
      ∙ ap (g.plus (g.plus (g.scale a p) (weigh h as' ps)))
          (sym (h.scale-plus c p (total_points g ps)))

  -- A line of vectors: (a + c) + s x
  pub weigh-line :
      (x c : g.Scalar) (a s : List g.Scalar) (gs : List g.Point)
      → length a ≡ length gs
      → length s ≡ length gs
      → weigh h (line h x (vector_add_scalar g a c) s) gs
        ≡ g.plus (g.plus (weigh h a gs) (g.scale x (weigh h s gs))) (g.scale c (total_points g gs))
  weigh-line x c a s gs e f =
      let k = g.scale c (total_points g gs) in
      weigh-zip (vector_add_scalar g a c) (vector_mul_scalar g s x) gs
        (length-map a (λ t. g.add t c) ∙ e) (length-map s (λ t. g.mul t x) ∙ f)
      ∙ ap (λ t. g.plus t (weigh h (vector_mul_scalar g s x) gs)) (weigh-shifted c a gs e)
      ∙ ap (g.plus (g.plus (weigh h a gs) k)) (weigh-scaled x s gs)
      ∙ h.plus_assoc (weigh h a gs) k (g.scale x (weigh h s gs))
      ∙ ap (g.plus (weigh h a gs)) (h.plus_comm k (g.scale x (weigh h s gs)))
      ∙ sym (h.plus_assoc (weigh h a gs) (g.scale x (weigh h s gs)) k)

  -- H' takes the powers of y off.
  pub weigh-h_prime :
      (y w p e : g.Scalar) (a : List g.Scalar) (hs : List g.Point)
      → g.mul y w ≡ g.one_scalar
      → g.mul p e ≡ g.one_scalar
      → length a ≡ length hs
      → weigh h (zip_scalars g g.mul (powers_from g y p (length hs)) a) (h_prime_from g w e hs)
        ≡ weigh h a hs
  unfolding sum zip_scalars powers_from h_prime_from
  weigh-h_prime y w p e [] [] i j k = refl
  weigh-h_prime y w p e [] (q ∷ hs) i j k = absurd (omega arith)
  weigh-h_prime y w p e (a ∷ as') [] i j k = absurd (omega arith)
  weigh-h_prime y w p e (a ∷ as') (q ∷ hs) i j k =
      ap (g.plus (g.scale (g.mul p a) (g.scale e q))) (
        weigh-h_prime y w (g.mul p y) (g.mul e w) as' hs i
          (h.mul_assoc p y (g.mul e w)
            ∙ ap (g.mul p) (
                sym (h.mul_assoc y e w)
                ∙ ap (λ t. g.mul t w) (h.mul_comm y e)
                ∙ h.mul_assoc e y w
                ∙ ap (g.mul e) i
                ∙ h.mul-one e)
            ∙ j)
          (omega arith))
      ∙ ap (λ t. g.plus t (weigh h as' hs))
          (sym (h.scale-mul (g.mul p a) e q)
            ∙ ap (λ t. g.scale t q)
                (h.mul_assoc p a e
                  ∙ ap (g.mul p) (h.mul_comm a e)
                  ∙ sym (h.mul_assoc p e a)
                  ∙ ap (λ t. g.mul t a) j
                  ∙ one-mul g h a))

  -- The parts of the commitment, gathered into A, S and what a verifier knows.
  pub gather :
      (al ar sl sr hh n z w t : g.Point) (x alpha rho : g.Scalar)
      → g.plus
          (g.plus
            (g.plus
              (g.plus (g.plus al (g.scale x sl)) n)
              (g.plus (g.plus (g.plus ar (g.scale x sr)) z) w))
            t)
          (g.scale (g.add alpha (g.mul rho x)) hh)
        ≡ g.plus
            (g.plus
              (g.plus (g.plus al ar) (g.scale alpha hh))
              (g.scale x (g.plus (g.plus sl sr) (g.scale rho hh))))
            (g.plus (g.plus (g.plus n z) w) t)
  gather al ar sl sr hh n z w t x alpha rho =
      let l = g.plus al (g.scale x sl) in
      let r = g.plus ar (g.scale x sr) in
      let lr = g.plus l r in
      let m = g.plus (g.scale alpha hh) (g.scale x (g.scale rho hh)) in
      let nz = g.plus n z in
      ap (g.plus (g.plus (g.plus (g.plus l n) (g.plus (g.plus r z) w)) t)) (
        h.scale-add alpha (g.mul rho x) hh
        ∙ ap (g.plus (g.scale alpha hh))
            (ap (λ k. g.scale k hh) (h.mul_comm rho x) ∙ h.scale-mul x rho hh))
      ∙ ap (λ k. g.plus (g.plus k t) m)
          (sym (h.plus_assoc (g.plus l n) (g.plus r z) w)
            ∙ ap (λ k. g.plus k w) (interchange l n r z)
            ∙ h.plus_assoc lr nz w)
      ∙ ap (λ k. g.plus k m) (h.plus_assoc lr (g.plus nz w) t)
      ∙ h.plus_assoc lr (g.plus (g.plus nz w) t) m
      ∙ ap (g.plus lr) (h.plus_comm (g.plus (g.plus nz w) t) m)
      ∙ sym (h.plus_assoc lr m (g.plus (g.plus nz w) t))
      ∙ ap (λ k. g.plus k (g.plus (g.plus nz w) t))
          (ap (λ k. g.plus k m) (interchange al (g.scale x sl) ar (g.scale x sr))
            ∙ interchange (g.plus al ar) (g.plus (g.scale x sl) (g.scale x sr)) (g.scale alpha hh)
                (g.scale x (g.scale rho hh))
            ∙ ap (g.plus (g.plus (g.plus al ar) (g.scale alpha hh))) (
                ap (λ k. g.plus k (g.scale x (g.scale rho hh))) (sym (h.scale-plus x sl sr))
                ∙ sym (h.scale-plus x (g.plus sl sr) (g.scale rho hh))))
