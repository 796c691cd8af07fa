-- ===== src/Bulletproofs/InnerProduct/Commitments.antt =====
-- The commitment that Prove folds: what opens it before a round opens it after the round.
use go_incognito_sdk_v.Base.{◌≡◌, refl, sym, ap, ◌∙◌, List, [], ◌∷◌, ◌++◌, length, arith}
use go_incognito_sdk_v.Bulletproofs.{Group, inner_product_from, multi_scalar_mult}
use go_incognito_sdk_v.Bulletproofs.Laws.{GroupLaws}
use go_incognito_sdk_v.Bulletproofs.InnerProduct.{fold_scalars, fold_points}
use go_incognito_sdk_v.Bulletproofs.InnerProduct.Sums.{
  Module, points_module, scalars_module, plus_interchange, sum, fold, sum-append, sum-fold,
}

module _ {g : Group} (h : GroupLaws g) where
  -- <a, b>
  abbrev pub dot : List g.Scalar → List g.Scalar → g.Scalar
  dot = sum (scalars_module g h)

  -- a G
  abbrev pub weigh : List g.Scalar → List g.Point → g.Point
  weigh = sum (points_module g h)

  pub multi_scalar_mult-weigh :
      (xs : List g.Scalar) (ps : List g.Point) → multi_scalar_mult g xs ps ≡ weigh xs ps
  unfolding multi_scalar_mult sum
  multi_scalar_mult-weigh (x ∷ xs) (p ∷ ps) =
      ap (g.plus (g.scale x p)) (multi_scalar_mult-weigh xs ps)
  multi_scalar_mult-weigh (x ∷ xs) [] = refl
  multi_scalar_mult-weigh [] ps = refl

  inner_product_from-dot :
      (acc : g.Scalar) (a b : List g.Scalar) → inner_product_from g acc a b ≡ g.add (dot a b) acc
  unfolding inner_product_from sum
  inner_product_from-dot acc (x ∷ xs) (y ∷ ys) =
      inner_product_from-dot (g.add (g.mul x y) acc) xs ys
      ∙ sym (h.add_assoc (dot xs ys) (g.mul x y) acc)
      ∙ ap (λ t. g.add t acc) (h.add_comm (dot xs ys) (g.mul x y))
  inner_product_from-dot acc (x ∷ xs) [] = sym (h.add_comm g.zero_scalar acc ∙ h.add-zero acc)
  inner_product_from-dot acc [] ys = sym (h.add_comm g.zero_scalar acc ∙ h.add-zero acc)

  pub inner_product-dot : (a b : List g.Scalar) → inner_product_from g g.zero_scalar a b ≡ dot a b
  inner_product-dot a b = inner_product_from-dot g.zero_scalar a b ∙ h.add-zero (dot a b)

  fold_points-fold :
      (x y : g.Scalar) (ps qs : List g.Point)
      → fold_points g x y ps qs ≡ fold (points_module g h) x y ps qs
  unfolding fold_points fold
  fold_points-fold x y (p ∷ ps) (q ∷ qs) =
      ap (λ t. g.plus (g.scale x p) (g.scale y q) ∷ t) (fold_points-fold x y ps qs)
  fold_points-fold x y (p ∷ ps) [] = refl
  fold_points-fold x y [] qs = refl

  fold_scalars-fold :
      (x y : g.Scalar) (ss ts : List g.Scalar)
      → fold_scalars g x y ss ts ≡ fold (scalars_module g h) x y ss ts
  unfolding fold_scalars fold
  fold_scalars-fold x y (s ∷ ss) (t ∷ ts) =
      ap (λ z. z ∷ fold_scalars g x y ss ts)
        (h.add_comm (g.mul t y) (g.mul s x)
          ∙ ap (λ z. g.add z (g.mul t y)) (h.mul_comm s x)
          ∙ ap (g.add (g.mul x s)) (h.mul_comm t y))
      ∙ ap (λ z. g.add (g.mul x s) (g.mul y t) ∷ z) (fold_scalars-fold x y ss ts)
  fold_scalars-fold x y (s ∷ ss) [] = refl
  fold_scalars-fold x y [] ts = refl

  -- a G + b H + c u
  abbrev pub tri : g.Point → g.Point → g.Point → g.Point
  tri p q r = g.plus (g.plus p q) r

  tri-plus :
      (a b c a' b' c' : g.Point)
      → tri (g.plus a a') (g.plus b b') (g.plus c c') ≡ g.plus (tri a b c) (tri a' b' c')
  tri-plus a b c a' b' c' =
      ap (λ t. g.plus t (g.plus c c')) (plus_interchange (points_module g h) a a' b b')
      ∙ plus_interchange (points_module g h) (g.plus a b) (g.plus a' b') c c'

  tri-scale :
      (k : g.Scalar) (a b c : g.Point)
      → tri (g.scale k a) (g.scale k b) (g.scale k c) ≡ g.scale k (tri a b c)
  tri-scale k a b c =
      ap (λ t. g.plus t (g.scale k c)) (sym (h.scale-plus k a b))
      ∙ sym (h.scale-plus k (g.plus a b) c)

  -- The point that commits to a and b.
  abbrev pub commits :
      g.Point → List g.Scalar → List g.Scalar → List g.Point → List g.Point → g.Point
  commits u a b gs hs = tri (weigh a gs) (weigh b hs) (g.scale (dot a b) u)

  module _ (k j : g.Scalar) where
    abbrev pub folded : g.Point → g.Point → g.Point → g.Point
    folded a b c = g.plus (g.plus (g.scale k a) (g.scale j b)) c

    tri-folded :
        (a b c a' b' c' a'' b'' c'' : g.Point)
        → tri (folded a a' a'') (folded b b' b'') (folded c c' c'')
          ≡ folded (tri a b c) (tri a' b' c') (tri a'' b'' c'')
    tri-folded a b c a' b' c' a'' b'' c'' =
        let s = g.scale k in
        let t = g.scale j in
        tri-plus (g.plus (s a) (t a')) (g.plus (s b) (t b')) (g.plus (s c) (t c')) a'' b'' c''
        ∙ ap (λ z. g.plus z (tri a'' b'' c''))
            (tri-plus (s a) (s b) (s c) (t a') (t b') (t c')
              ∙ ap (λ z. g.plus z (tri (t a') (t b') (t c'))) (tri-scale k a b c)
              ∙ ap (g.plus (s (tri a b c))) (tri-scale j a' b' c'))

    scale-folded :
        (u : g.Point) (a b c : g.Scalar)
        → g.scale (g.add (g.add (g.mul k a) (g.mul j b)) c) u
          ≡ folded (g.scale a u) (g.scale b u) (g.scale c u)
    scale-folded u a b c =
        h.scale-add (g.add (g.mul k a) (g.mul j b)) c u
        ∙ ap (λ z. g.plus z (g.scale c u))
            (h.scale-add (g.mul k a) (g.mul j b) u
              ∙ ap (λ z. g.plus z (g.scale (g.mul j b) u)) (h.scale-mul k a u)
              ∙ ap (g.plus (g.scale k (g.scale a u))) (h.scale-mul j b u))

  module _ (x y : g.Scalar) (inverse : g.mul x y ≡ g.one_scalar) where
    -- The products of the halves of two vectors, in a module.
    halves :
        (m : Module g) (ss ts : List g.Scalar) (ps qs : List m.Carrier)
        → length ss ≡ length ts
        → length ps ≡ length ss
        → length qs ≡ length ss
        → sum m (fold_scalars g x y ss ts) (fold m y x ps qs)
          ≡ m.plus
              (m.plus (m.scale (g.mul x x) (sum m ss qs)) (m.scale (g.mul y y) (sum m ts ps)))
              (sum m (ss ++ ts) (ps ++ qs))
    halves m ss ts ps qs e f k =
        sum-fold h m x y inverse ss ts ps qs e f k
        ∙ ap
            (m.plus
              (m.plus (m.scale (g.mul x x) (sum m ss qs)) (m.scale (g.mul y y) (sum m ts ps))))
            (sym (sum-append m ss ts ps qs (sym f)))

  module _ (x y : g.Scalar) (inverse : g.mul x y ≡ g.one_scalar) (u : g.Point)
      (al ar bl br : List g.Scalar) (gl gr hl hr : List g.Point) (ea : length ar ≡ length al)
      (eb : length bl ≡ length al) (eb' : length br ≡ length al) (eg : length gl ≡ length al)
      (eg' : length gr ≡ length al) (eh : length hl ≡ length al) (eh' : length hr ≡ length al) where
    abbrev xx : g.Scalar
    xx = g.mul x x

    abbrev yy : g.Scalar
    yy = g.mul y y

    weigh-first :
        weigh (fold_scalars g x y al ar) (fold_points g y x gl gr)
        ≡ folded xx yy (weigh al gr) (weigh ar gl) (weigh (al ++ ar) (gl ++ gr))
    weigh-first =
        ap (weigh (fold_scalars g x y al ar)) (fold_points-fold y x gl gr)
        ∙ halves x y inverse (points_module g h) al ar gl gr (sym ea) eg eg'

    weigh-second :
        weigh (fold_scalars g y x bl br) (fold_points g x y hl hr)
        ≡ folded xx yy (weigh br hl) (weigh bl hr) (weigh (bl ++ br) (hl ++ hr))
    weigh-second =
        ap (weigh (fold_scalars g y x bl br)) (fold_points-fold x y hl hr)
        ∙ halves y x (h.mul_comm y x ∙ inverse) (points_module g h) bl br hl hr (omega arith)
            (omega arith) (omega arith)
        ∙ ap (λ z. g.plus z (weigh (bl ++ br) (hl ++ hr)))
            (h.plus_comm (g.scale yy (weigh bl hr)) (g.scale xx (weigh br hl)))

    dot-folded :
        dot (fold_scalars g x y al ar) (fold_scalars g y x bl br)
        ≡ g.add (g.add (g.mul xx (dot al br)) (g.mul yy (dot ar bl))) (dot (al ++ ar) (bl ++ br))
    dot-folded =
        ap (dot (fold_scalars g x y al ar)) (fold_scalars-fold y x bl br)
        ∙ halves x y inverse (scalars_module g h) al ar bl br (sym ea) eb eb'

    -- What the folded vectors commit to is the folded commitment.
    pub commits-fold :
        commits u
          (fold_scalars g x y al ar)
          (fold_scalars g y x bl br)
          (fold_points g y x gl gr)
          (fold_points g x y hl hr)
        ≡ folded xx yy
            (commits u al br gr hl)
            (commits u ar bl gl hr)
            (commits u (al ++ ar) (bl ++ br) (gl ++ gr) (hl ++ hr))
    commits-fold =
        let c = dot (al ++ ar) (bl ++ br) in
        ap
          (λ z.
            tri z (weigh (fold_scalars g y x bl br) (fold_points g x y hl hr))
              (g.scale (dot (fold_scalars g x y al ar) (fold_scalars g y x bl br)) u))
          weigh-first
        ∙ ap
            (λ z.
              tri (folded xx yy (weigh al gr) (weigh ar gl) (weigh (al ++ ar) (gl ++ gr))) z
                (g.scale (dot (fold_scalars g x y al ar) (fold_scalars g y x bl br)) u))
            weigh-second
        ∙ ap
            (tri (folded xx yy (weigh al gr) (weigh ar gl) (weigh (al ++ ar) (gl ++ gr)))
              (folded xx yy (weigh br hl) (weigh bl hr) (weigh (bl ++ br) (hl ++ hr))))
            (ap (λ z. g.scale z u) dot-folded ∙ scale-folded xx yy u (dot al br) (dot ar bl) c)
        ∙ tri-folded xx yy (weigh al gr) (weigh br hl) (g.scale (dot al br) u) (weigh ar gl)
            (weigh bl hr) (g.scale (dot ar bl) u) (weigh (al ++ ar) (gl ++ gr))
            (weigh (bl ++ br) (hl ++ hr)) (g.scale c u)
