-- ===== src/Bulletproofs/InnerProduct/Sums.antt =====
-- Weighted sums over a module of the scalars, of which the points and the scalars themselves are two,
-- and what a round of Prove makes of them.
use go_incognito_sdk_v.Base.{◌≡◌, sym, ap, ◌∙◌, List, [], ◌∷◌, ◌++◌, length, arith}
use go_incognito_sdk_v.Bulletproofs.{Group}
use go_incognito_sdk_v.Bulletproofs.Laws.{GroupLaws}
use go_incognito_sdk_v.Bulletproofs.InnerProduct.{fold_scalars}

pub record Module (g : Group) : Type 1 where
  pub Carrier : Type 0
  pub zero : Carrier
  pub plus : Carrier → Carrier → Carrier
  pub scale : g.Scalar → Carrier → Carrier
  pub plus_comm : (p q : Carrier) → plus p q ≡ plus q p
  pub plus_assoc : (p q r : Carrier) → plus (plus p q) r ≡ plus p (plus q r)
  pub plus-zero : (p : Carrier) → plus p zero ≡ p
  pub scale-plus :
      (a : g.Scalar) (p q : Carrier) → scale a (plus p q) ≡ plus (scale a p) (scale a q)
  pub scale-zero : (a : g.Scalar) → scale a zero ≡ zero
  pub scale-add :
      (a b : g.Scalar) (p : Carrier) → scale (g.add a b) p ≡ plus (scale a p) (scale b p)
  pub scale-mul : (a b : g.Scalar) (p : Carrier) → scale (g.mul a b) p ≡ scale a (scale b p)
  pub scale-one : (p : Carrier) → scale g.one_scalar p ≡ p

abbrev pub points_module : (g : Group) → GroupLaws g → Module g
points_module g h = record {
  Carrier = g.Point;
  zero = g.identity;
  plus = g.plus;
  scale = g.scale;
  plus_comm = h.plus_comm;
  plus_assoc = h.plus_assoc;
  plus-zero = h.plus-identity;
  scale-plus = h.scale-plus;
  scale-zero = h.scale-identity;
  scale-add = h.scale-add;
  scale-mul = h.scale-mul;
  scale-one = h.scale-one;
}

pub add-mul :
    (g : Group)
    → GroupLaws g
    → (a b c : g.Scalar) → g.mul (g.add a b) c ≡ g.add (g.mul a c) (g.mul b c)
add-mul g h a b c =
    h.mul_comm (g.add a b) c
    ∙ h.mul-add c a b
    ∙ ap (λ t. g.add t (g.mul c b)) (h.mul_comm c a)
    ∙ ap (λ t. g.add (g.mul a c) t) (h.mul_comm c b)

pub one-mul : (g : Group) → GroupLaws g → (a : g.Scalar) → g.mul g.one_scalar a ≡ a
one-mul g h a = h.mul_comm g.one_scalar a ∙ h.mul-one a

abbrev pub scalars_module : (g : Group) → GroupLaws g → Module g
scalars_module g h = record {
  Carrier = g.Scalar;
  zero = g.zero_scalar;
  plus = g.add;
  scale = g.mul;
  plus_comm = h.add_comm;
  plus_assoc = h.add_assoc;
  plus-zero = h.add-zero;
  scale-plus = h.mul-add;
  scale-zero = h.mul-zero;
  scale-add = add-mul g h;
  scale-mul = h.mul_assoc;
  scale-one = one-mul g h;
}

module _ {g : Group} (m : Module g) where
  -- (a + b) + (c + d) = (a + c) + (b + d)
  pub plus_interchange :
      (a b c d : m.Carrier) → m.plus (m.plus a b) (m.plus c d) ≡ m.plus (m.plus a c) (m.plus b d)
  plus_interchange a b c d =
      m.plus_assoc a b (m.plus c d)
      ∙ ap (m.plus a)
          (sym (m.plus_assoc b c d) ∙ ap (λ t. m.plus t d) (m.plus_comm b c) ∙ m.plus_assoc c b d)
      ∙ sym (m.plus_assoc a c (m.plus b d))

  unfoldable pub sum : List g.Scalar → List m.Carrier → m.Carrier
  sum (x ∷ xs) (p ∷ ps) = m.plus (m.scale x p) (sum xs ps)
  sum xs ps = m.zero

  unfoldable pub fold : g.Scalar → g.Scalar → List m.Carrier → List m.Carrier → List m.Carrier
  fold x y (p ∷ ps) (q ∷ qs) = m.plus (m.scale x p) (m.scale y q) ∷ fold x y ps qs
  fold x y ps qs = []

  pub sum-append :
      (xs ys : List g.Scalar) (ps qs : List m.Carrier)
      → length xs ≡ length ps
      → sum (xs ++ ys) (ps ++ qs) ≡ m.plus (sum xs ps) (sum ys qs)
  unfolding sum
  sum-append [] ys [] qs e = sym (m.plus_comm m.zero (sum ys qs) ∙ m.plus-zero (sum ys qs))
  sum-append [] ys (p ∷ ps) qs e = absurd (omega arith)
  sum-append (x ∷ xs) ys [] qs e = absurd (omega arith)
  sum-append (x ∷ xs) ys (p ∷ ps) qs e =
      ap (m.plus (m.scale x p)) (sum-append xs ys ps qs (omega arith))
      ∙ sym (m.plus_assoc (m.scale x p) (sum xs ps) (sum ys qs))

module _ {g : Group} (h : GroupLaws g) (m : Module g) (x y : g.Scalar)
    (inverse : g.mul x y ≡ g.one_scalar) where
  -- a y (b x p) with x y = 1
  scale_cancel :
      (s v w : g.Scalar) (p : m.Carrier)
      → g.mul v w ≡ g.one_scalar
      → m.scale (g.mul s v) (m.scale w p) ≡ m.scale s p
  scale_cancel s v w p e =
      m.scale-mul s v (m.scale w p)
      ∙ ap (m.scale s) (sym (m.scale-mul v w p) ∙ ap (λ t. m.scale t p) e ∙ m.scale-one p)

  scale_square :
      (s v : g.Scalar) (p : m.Carrier)
      → m.scale (g.mul s v) (m.scale v p) ≡ m.scale (g.mul v v) (m.scale s p)
  scale_square s v p =
      sym (m.scale-mul (g.mul s v) v p)
      ∙ ap (λ t. m.scale t p) (h.mul_assoc s v v ∙ h.mul_comm s (g.mul v v))
      ∙ m.scale-mul (g.mul v v) s p

  term-fold :
      (s t : g.Scalar) (p q : m.Carrier)
      → m.scale (g.add (g.mul t y) (g.mul s x)) (m.plus (m.scale y p) (m.scale x q))
        ≡ m.plus
            (m.plus (m.scale (g.mul x x) (m.scale s q)) (m.scale (g.mul y y) (m.scale t p)))
            (m.plus (m.scale s p) (m.scale t q))
  term-fold s t p q =
      let e : g.mul y x ≡ g.one_scalar = h.mul_comm y x ∙ inverse in
      let yp = m.scale y p in
      let xq = m.scale x q in
      m.scale-add (g.mul t y) (g.mul s x) (m.plus yp xq)
      ∙ ap (λ z. m.plus z (m.scale (g.mul s x) (m.plus yp xq)))
          (m.scale-plus (g.mul t y) yp xq
            ∙ ap (λ z. m.plus z (m.scale (g.mul t y) xq)) (scale_square t y p)
            ∙ ap (m.plus (m.scale (g.mul y y) (m.scale t p))) (scale_cancel t y x q e))
      ∙ ap (m.plus (m.plus (m.scale (g.mul y y) (m.scale t p)) (m.scale t q))) (
          m.scale-plus (g.mul s x) yp xq
          ∙ m.plus_comm (m.scale (g.mul s x) yp) (m.scale (g.mul s x) xq)
          ∙ ap (λ z. m.plus z (m.scale (g.mul s x) yp)) (scale_square s x q)
          ∙ ap (m.plus (m.scale (g.mul x x) (m.scale s q))) (scale_cancel s x y p inverse))
      ∙ plus_interchange m (m.scale (g.mul y y) (m.scale t p)) (m.scale t q)
          (m.scale (g.mul x x) (m.scale s q)) (m.scale s p)
      ∙ ap (λ z. m.plus z (m.plus (m.scale t q) (m.scale s p)))
          (m.plus_comm (m.scale (g.mul y y) (m.scale t p)) (m.scale (g.mul x x) (m.scale s q)))
      ∙ ap (m.plus (m.plus (m.scale (g.mul x x) (m.scale s q)) (m.scale (g.mul y y) (m.scale t p))))
          (m.plus_comm (m.scale t q) (m.scale s p))

  -- What is on the right of the next lemma.
  abbrev pub quad : m.Carrier → m.Carrier → m.Carrier → m.Carrier → m.Carrier
  quad a b c d = m.plus (m.plus (m.scale (g.mul x x) a) (m.scale (g.mul y y) b)) (m.plus c d)

  quad-plus :
      (a b c d a' b' c' d' : m.Carrier)
      → m.plus (quad a b c d) (quad a' b' c' d')
        ≡ quad (m.plus a a') (m.plus b b') (m.plus c c') (m.plus d d')
  quad-plus a b c d a' b' c' d' =
      let xx = m.scale (g.mul x x) in
      let yy = m.scale (g.mul y y) in
      plus_interchange m (m.plus (xx a) (yy b)) (m.plus c d) (m.plus (xx a') (yy b')) (m.plus c' d')
      ∙ ap (λ z. m.plus z (m.plus (m.plus c d) (m.plus c' d')))
          (plus_interchange m (xx a) (yy b) (xx a') (yy b'))
      ∙ ap (m.plus (m.plus (m.plus (xx a) (xx a')) (m.plus (yy b) (yy b'))))
          (plus_interchange m c d c' d')
      ∙ ap (λ z. m.plus (m.plus z (m.plus (yy b) (yy b'))) (m.plus (m.plus c c') (m.plus d d')))
          (sym (m.scale-plus (g.mul x x) a a'))
      ∙ ap (λ z. m.plus (m.plus (xx (m.plus a a')) z) (m.plus (m.plus c c') (m.plus d d')))
          (sym (m.scale-plus (g.mul y y) b b'))

  quad-zero : quad m.zero m.zero m.zero m.zero ≡ m.zero
  quad-zero =
      ap (λ z. m.plus (m.plus z (m.scale (g.mul y y) m.zero)) (m.plus m.zero m.zero))
        (m.scale-zero (g.mul x x))
      ∙ ap (λ z. m.plus (m.plus m.zero z) (m.plus m.zero m.zero)) (m.scale-zero (g.mul y y))
      ∙ ap (λ z. m.plus z (m.plus m.zero m.zero)) (m.plus-zero m.zero)
      ∙ ap (m.plus m.zero) (m.plus-zero m.zero)
      ∙ m.plus-zero m.zero

  -- The sum after a round, from the sums of the halves.
  pub sum-fold :
      (ss ts : List g.Scalar) (ps qs : List m.Carrier)
      → length ss ≡ length ts
      → length ps ≡ length ss
      → length qs ≡ length ss
      → sum m (fold_scalars g x y ss ts) (fold m y x ps qs)
        ≡ quad (sum m ss qs) (sum m ts ps) (sum m ss ps) (sum m ts qs)
  unfolding sum fold fold_scalars
  sum-fold [] [] [] [] e f k = sym quad-zero
  sum-fold (s ∷ ss) (t ∷ ts) (p ∷ ps) (q ∷ qs) e f k =
      ap (λ z. m.plus z (sum m (fold_scalars g x y ss ts) (fold m y x ps qs))) (term-fold s t p q)
      ∙ ap (m.plus (quad (m.scale s q) (m.scale t p) (m.scale s p) (m.scale t q)))
          (sum-fold ss ts ps qs (omega arith) (omega arith) (omega arith))
      ∙ quad-plus (m.scale s q) (m.scale t p) (m.scale s p) (m.scale t q) (sum m ss qs)
          (sum m ts ps) (sum m ss ps) (sum m ts qs)
  sum-fold [] (t ∷ ts) ps qs e f k = absurd (omega arith)
  sum-fold (s ∷ ss) [] ps qs e f k = absurd (omega arith)
  sum-fold [] [] (p ∷ ps) qs e f k = absurd (omega arith)
  sum-fold [] [] [] (q ∷ qs) e f k = absurd (omega arith)
  sum-fold (s ∷ ss) (t ∷ ts) [] qs e f k = absurd (omega arith)
  sum-fold (s ∷ ss) (t ∷ ts) (p ∷ ps) [] e f k = absurd (omega arith)
