-- ===== src/Bulletproofs/InnerProduct/Rounds.antt =====
-- One round of Prove on vectors of even length: it does not fail, halves the vectors, and keeps what
-- they commit to.
use go_incognito_sdk_v.Base.{
  ℕ, suc, ◌+◌, ◌/◌, ◌≡◌, refl, sym, ap, ◌∙◌, true, List, [], ◌∷◌, ◌==◌, length, take, drop, ok,
  arith, length-take, length-drop, take-append-drop,
}
use go_incognito_sdk_v.Bulletproofs.{Group, inner_product, encode_vectors}
use go_incognito_sdk_v.Bulletproofs.Laws.{GroupLaws}
use go_incognito_sdk_v.Bulletproofs.InnerProduct.{
  Vars, fold_scalars, fold_points, fold_commitment, cross, next_vars, left_point, right_point,
}
use go_incognito_sdk_v.Bulletproofs.InnerProduct.Commitments.{
  commits, commits-fold, multi_scalar_mult-weigh, inner_product-dot,
}

pub record HasSize {g : Group} (n : ℕ) (v : Vars g) : Type 0 where
  pub size_a : length v.a ≡ n
  pub size_b : length v.b ≡ n
  pub size_gs : length v.gs ≡ n
  pub size_hs : length v.hs ≡ n

half_front : {A : Type 0} (n : ℕ) (xs : List A) → length xs ≡ n + n → length (take n xs) ≡ n
half_front n xs e = omega (arith, length-take n xs)

half_back : {A : Type 0} (n : ℕ) (xs : List A) → length xs ≡ n + n → length (drop n xs) ≡ n
half_back n xs e = omega (arith, length-drop n xs)

pub length-fold_scalars :
    (g : Group) (x y : g.Scalar) (ss ts : List g.Scalar)
    → length ss ≡ length ts
    → length (fold_scalars g x y ss ts) ≡ length ss
unfolding fold_scalars
length-fold_scalars g x y [] ts e = refl
length-fold_scalars g x y (s ∷ ss) [] e = absurd (omega arith)
length-fold_scalars g x y (s ∷ ss) (t ∷ ts) e =
    ap suc (length-fold_scalars g x y ss ts (omega arith))

length-fold_points :
    (g : Group) (x y : g.Scalar) (ps qs : List g.Point)
    → length ps ≡ length qs
    → length (fold_points g x y ps qs) ≡ length ps
unfolding fold_points
length-fold_points g x y [] qs e = refl
length-fold_points g x y (p ∷ ps) [] e = absurd (omega arith)
length-fold_points g x y (p ∷ ps) (q ∷ qs) e = ap suc (length-fold_points g x y ps qs (omega arith))

module _ {g : Group} (h : GroupLaws g) (u : g.Point) where
  pub cross-commits :
      (a b : List g.Scalar) (gs hs : List g.Point)
      → length b ≡ length a
      → length gs ≡ length a
      → length hs ≡ length a
      → cross g u a b gs hs ≡ ok (commits h u a b gs hs)
  unfolding cross inner_product encode_vectors
  cross-commits a b gs hs e f k =
      let e1 : (length a == length b) ≡ true = ground arith in
      let e2 : (length gs == length a) ≡ true = ground arith in
      let e3 : (length hs == length gs) ≡ true = ground arith in
      rw (e1, e2, e3)
        (rw
          (multi_scalar_mult-weigh h a gs, multi_scalar_mult-weigh h b hs, inner_product-dot h a b)
          refl)

  module _ (n : ℕ) (v : Vars g) (s : HasSize (n + n) v) where
    pub half_lem : length v.a / 2 ≡ n
    half_lem = omega (arith, s.size_a)

    -- L and R of the round
    abbrev pub left : g.Point
    left = commits h u (take n v.a) (drop n v.b) (drop n v.gs) (take n v.hs)

    abbrev pub right : g.Point
    right = commits h u (drop n v.a) (take n v.b) (take n v.gs) (drop n v.hs)

    pub left_point-commits : left_point g u v ≡ ok left
    unfolding left_point
    left_point-commits = rw half_lem (
        cross-commits (take n v.a) (drop n v.b) (drop n v.gs) (take n v.hs)
          (omega (arith, half_front n v.a s.size_a, half_back n v.b s.size_b))
          (omega (arith, half_front n v.a s.size_a, half_back n v.gs s.size_gs))
          (omega (arith, half_front n v.a s.size_a, half_front n v.hs s.size_hs)))

    pub right_point-commits : right_point g u v ≡ ok right
    unfolding right_point
    right_point-commits = rw half_lem (
        cross-commits (drop n v.a) (take n v.b) (take n v.gs) (drop n v.hs)
          (omega (arith, half_back n v.a s.size_a, half_front n v.b s.size_b))
          (omega (arith, half_back n v.a s.size_a, half_front n v.gs s.size_gs))
          (omega (arith, half_back n v.a s.size_a, half_back n v.hs s.size_hs)))

    pub next_vars-HasSize : (x : g.Scalar) (l r : g.Point) → HasSize n (next_vars g u x l r v)
    unfolding next_vars
    next_vars-HasSize x l r =
        let fa = half_front n v.a s.size_a in
        let fb = half_front n v.b s.size_b in
        let fg = half_front n v.gs s.size_gs in
        let fh = half_front n v.hs s.size_hs in
        rw half_lem (record {
          size_a =
              length-fold_scalars g x (g.invert x) (take n v.a) (drop n v.a)
                (fa ∙ sym (half_back n v.a s.size_a))
              ∙ fa;
          size_b =
              length-fold_scalars g (g.invert x) x (take n v.b) (drop n v.b)
                (fb ∙ sym (half_back n v.b s.size_b))
              ∙ fb;
          size_gs =
              length-fold_points g (g.invert x) x (take n v.gs) (drop n v.gs)
                (fg ∙ sym (half_back n v.gs s.size_gs))
              ∙ fg;
          size_hs =
              length-fold_points g x (g.invert x) (take n v.hs) (drop n v.hs)
                (fh ∙ sym (half_back n v.hs s.size_hs))
              ∙ fh;
        })

    opens_half :
        (x : g.Scalar)
        → g.mul x (g.invert x) ≡ g.one_scalar
        → v.p ≡ commits h u v.a v.b v.gs v.hs
        → fold_commitment g x left right v.p
          ≡ commits h u
              (fold_scalars g x (g.invert x) (take n v.a) (drop n v.a))
              (fold_scalars g (g.invert x) x (take n v.b) (drop n v.b))
              (fold_points g (g.invert x) x (take n v.gs) (drop n v.gs))
              (fold_points g x (g.invert x) (take n v.hs) (drop n v.hs))
    unfolding fold_commitment
    opens_half x inverse opens =
        let fa = half_front n v.a s.size_a in
        let same = λ (k : ℕ) (e : k ≡ n). e ∙ sym fa in
        ap (λ z. fold_commitment g x left right z)
          (opens
            ∙ sym (
                rw
                  (
                    take-append-drop n v.a,
                    take-append-drop n v.b,
                    take-append-drop n v.gs,
                    take-append-drop n v.hs,
                  )
                  refl))
        ∙ sym (
            commits-fold h x (g.invert x) inverse u (take n v.a) (drop n v.a) (take n v.b)
              (drop n v.b) (take n v.gs) (drop n v.gs) (take n v.hs) (drop n v.hs)
              (same _ (half_back n v.a s.size_a)) (same _ (half_front n v.b s.size_b))
              (same _ (half_back n v.b s.size_b)) (same _ (half_front n v.gs s.size_gs))
              (same _ (half_back n v.gs s.size_gs)) (same _ (half_front n v.hs s.size_hs))
              (same _ (half_back n v.hs s.size_hs)))

    -- The commitment of the next round is opened by the vectors of the next round.
    pub next_vars-opens :
        (x : g.Scalar)
        → g.mul x (g.invert x) ≡ g.one_scalar
        → v.p ≡ commits h u v.a v.b v.gs v.hs
        → (let v' = next_vars g u x left right v in v'.p ≡ commits h u v'.a v'.b v'.gs v'.hs)
    unfolding next_vars
    next_vars-opens x inverse opens = rw half_lem (opens_half x inverse opens)
