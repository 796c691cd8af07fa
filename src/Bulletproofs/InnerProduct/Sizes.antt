-- ===== src/Bulletproofs/InnerProduct/Sizes.antt =====
-- Prove succeeds for vectors of a length that is a power of two only.
use native.Mathlib.Nat.{pow-suc}
use go_incognito_sdk_v.Base.{
  ℕ, zero, suc, ◌+◌, ◌/◌, ◌^◌, ◌≡◌, inl, inr, refl, sym, ap, ◌∙◌, true, false, List, [], ◌∷◌, ltb,
  ◌==◌, ==_iff, ◌||◌, length, take, drop, ok, arith, length-take, length-drop, ok_injective,
  Bool-cases, Result-cases,
}
use go_incognito_sdk_v.Bulletproofs.{Error, Group, inner_product, generate_challenge}
use go_incognito_sdk_v.Bulletproofs.InnerProduct.{
  Witness, Proof, Vars, cross, next_vars, left_point, Rounds, last_values, with_round, right_point,
  prove_loop, first_vars, prove,
}
use go_incognito_sdk_v.Bulletproofs.InnerProduct.Rounds.{length-fold_scalars}

module _ (g : Group) (u : g.Point) where
  inner_product-sizes :
      (a b : List g.Scalar) (c : g.Scalar) → inner_product g a b ≡ ok c → length a ≡ length b
  unfolding inner_product
  inner_product-sizes a b c e = ground arith

  cross-sizes :
      (a b : List g.Scalar) (gs hs : List g.Point) (p : g.Point)
      → cross g u a b gs hs ≡ ok p
      → length a ≡ length b
  unfolding cross
  cross-sizes a b gs hs p e = elim (Result-cases (inner_product g a b)) [
    | inl (c, f) ↦ inner_product-sizes a b c f
    | inr (c, f) ↦ let bad = rw (f, cross) at e in cc bad
  ]

  -- The first point of a round exists for vectors of even length only.
  left_point-sizes :
      (v : Vars g) (l : g.Point)
      → length v.b ≡ length v.a
      → left_point g u v ≡ ok l
      → (length v.a ≡ length v.a / 2 + length v.a / 2)
  unfolding left_point
  left_point-sizes v l e f =
      let n = length v.a / 2 in
      omega (
        arith,
        cross-sizes (take n v.a) (drop n v.b) (drop n v.gs) (take n v.hs) l f,
        length-take n v.a,
        length-drop n v.b,
      )

  last_values-sizes :
      (a b : List g.Scalar) (gs hs : List g.Point) (p : g.Point) (d : Rounds g u)
      → ltb 1 (length a) ≡ false
      → last_values g u (record { a = a; b = b; gs = gs; hs = hs; p = p }) ≡ ok d
      → (length a ≡ 1) × (d.0 ≡ []) × (d.1 ≡ [])
  unfolding last_values
  last_values-sizes [] b gs hs p d e f = cc
  last_values-sizes (x ∷ xs) [] gs hs p d e f = cc
  last_values-sizes (x ∷ xs) (y ∷ ys) gs hs p d e f =
      let same = sym (ok_injective {E = Error} _ _ f) in
      (ground arith, ap (λ (r : Rounds g u). r.0) same, ap (λ (r : Rounds g u). r.1) same)

  -- A round that succeeds.
  abbrev Inverted : ℕ → List ℕ → Vars g → Rounds g u → Type 0
  Inverted rounds cache v d =
      (l : g.Point) × (r : g.Point) × (rest : Rounds g u) × (left_point g u v ≡ ok l)
      × (let x = generate_challenge g cache (l ∷ r ∷ []) in
          prove_loop g u rounds (g.scalar_bytes x) (next_vars g u x l r v) ≡ ok rest)
      × (d ≡ with_round g u l r rest)

  invert_round :
      (rounds : ℕ) (cache : List ℕ) (v : Vars g) (d : Rounds g u)
      → ltb 1 (length v.a) ≡ true
      → prove_loop g u (suc rounds) cache v ≡ ok d
      → Inverted rounds cache v d
  unfolding prove_loop
  invert_round rounds cache v d e run = elim (Result-cases (left_point g u v)) [
    | inr (c, f) ↦ let bad = rw (e, prove_loop, f) at run in cc bad
    | inl (l, f) ↦ elim (Result-cases (right_point g u v)) [
      | inr (c, k) ↦ let bad = rw (e, prove_loop, f, k) at run in cc bad
      | inl (r, k) ↦
          elim (Result-cases (
            prove_loop g u rounds (g.scalar_bytes (generate_challenge g cache (l ∷ r ∷ [])))
              (next_vars g u (generate_challenge g cache (l ∷ r ∷ [])) l r v))) [
                | inr (c, m) ↦ let bad = rw (e, prove_loop, f, k, m) at run in cc bad
                | inl (rest, m) ↦ (
                  l,
                  r,
                  rest,
                  f,
                  m,
                  sym (ok_injective {E = Error} _ _ (rw (e, prove_loop, f, k, m) at run)),
                )
              ]
    ]
  ]

  next_vars-sizes :
      (x : g.Scalar) (l r : g.Point) (v : Vars g)
      → length v.a ≡ length v.a / 2 + length v.a / 2
      → length v.b ≡ length v.a
      → (length (next_vars g u x l r v).a ≡ length v.a / 2)
        × (length (next_vars g u x l r v).b ≡ length v.a / 2)
  unfolding next_vars
  next_vars-sizes x l r v even e =
      let n = length v.a / 2 in
      let y = g.invert x in
      (
        length-fold_scalars g x y (take n v.a) (drop n v.a)
              (omega (arith, length-take n v.a, length-drop n v.a))
            ∙ omega (arith, length-take n v.a),
        length-fold_scalars g y x (take n v.b) (drop n v.b)
              (omega (arith, length-take n v.b, length-drop n v.b))
            ∙ omega (arith, length-take n v.b),
      )

  end-sizes :
      (rounds : ℕ) (cache : List ℕ) (v : Vars g) (d : Rounds g u)
      → ltb 1 (length v.a) ≡ false
      → prove_loop g u (suc rounds) cache v ≡ ok d
      → (length v.a ≡ 2 ^ length d.0) × (length d.1 ≡ length d.0)
  unfolding prove_loop
  end-sizes rounds cache v d e run =
      let s = last_values-sizes v.a v.b v.gs v.hs v.p d e (rw (e, prove_loop) at run) in
      rw (s.1, s.2) (s.0, refl)

  no_rounds : (cache : List ℕ) (v : Vars g) (d : Rounds g u) → ¬ (prove_loop g u 0 cache v ≡ ok d)
  unfolding prove_loop
  no_rounds cache v d e = cc

  loop-sizes :
      (rounds : ℕ) (cache : List ℕ) (v : Vars g) (d : Rounds g u)
      → length v.b ≡ length v.a
      → prove_loop g u rounds cache v ≡ ok d
      → (length v.a ≡ 2 ^ length d.0) × (length d.1 ≡ length d.0)
  loop-sizes zero cache v d e run = absurd (no_rounds cache v d run)
  loop-sizes (suc rounds) cache v d e run = elim (Bool-cases (ltb 1 (length v.a))) [
    | inr small ↦ end-sizes rounds cache v d small run
    | inl more ↦
        let (l, r, rest, f, again, same) = invert_round rounds cache v d more run in
        let x = generate_challenge g cache (l ∷ r ∷ []) in
        let even = left_point-sizes v l e f in
        let s = next_vars-sizes x l r v even e in
        let ih =
          loop-sizes rounds (g.scalar_bytes x) (next_vars g u x l r v) rest (s.1 ∙ sym s.0) again in
        let whole : length d.0 ≡ suc (length rest.0) = ap (λ (t : Rounds g u). length t.0) same in
        let whole_r : length d.1 ≡ suc (length rest.1) = ap (λ (t : Rounds g u). length t.1) same in
        rw (whole, whole_r) (omega (arith, pow-suc 2 (length rest.0), even, s.0, ih.0), ap suc ih.1)
  ]

  -- If Prove succeeds, the vectors have 2 ^ k elements each, where k is the number of points on either
  -- side of the proof, of which there are as many on both: any other length is an error.
  pub prove-power_of_two :
      (w : Witness g) (gs hs : List g.Point) (cache : List ℕ) (proof : Proof g)
      → prove g w gs hs u cache ≡ ok proof
      → (length w.a ≡ 2 ^ length proof.l)
        × (length w.b ≡ 2 ^ length proof.l)
        × (length proof.r ≡ length proof.l)
  unfolding prove
  prove-power_of_two w gs hs cache proof returned = elim (Bool-cases (length w.a == length w.b)) [
    | inr e ↦ let bad = rw (e, prove) at returned in cc bad
    | inl e ↦ elim (Bool-cases (ltb (length gs) (length w.a) || ltb (length hs) (length w.a))) [
      | inl f ↦ let bad = rw (e, prove, f) at returned in cc bad
      | inr f ↦
          elim (Result-cases (prove_loop g u (suc (length w.a)) cache (first_vars g w gs hs))) [
            | inr (c, k) ↦ let bad = rw (e, prove, f, k) at returned in cc bad
            | inl (d, k) ↦
                let same : proof ≡ record { l = d.0; r = d.1; a = d.2; b = d.3; p = w.p } =
                  sym (ok_injective {E = Error} _ _ (rw (e, prove, f, k) at returned)) in
                let whole : length proof.l ≡ length d.0 = ap (λ (t : Proof g). length t.l) same in
                let s =
                  loop-sizes (suc (length w.a)) cache (first_vars g w gs hs) d (ground arith) k in
                let whole_r : length proof.r ≡ length d.1 = ap (λ (t : Proof g). length t.r) same in
                rw (whole, whole_r)
                  (s.0, omega (arith, s.0, (==_iff (length w.a) (length w.b)).0 e), s.1)
          ]
    ]
  ]
