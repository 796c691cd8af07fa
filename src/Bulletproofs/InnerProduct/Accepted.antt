-- ===== src/Bulletproofs/InnerProduct/Accepted.antt =====
-- Prove gives a proof for vectors whose length is a power of two, and a verifier accepts it.
use mathlib.Core.Path.{subst}
use native.Mathlib.Nat.{pow-suc}
use go_incognito_sdk_v.Base.{
  ℕ, zero, suc, ◌+◌, ◌^◌, ◌≤◌, ◌<◌, ◌≡◌, refl, sym, ap, ◌∙◌, true, false, List, [], ◌∷◌, ltb,
  lt→ltb, ◌==◌, length, take, ok, arith, length-take, ok_injective,
}
use go_incognito_sdk_v.Bulletproofs.{Error, Group, generate_challenge}
use go_incognito_sdk_v.Bulletproofs.Laws.{GroupLaws}
use go_incognito_sdk_v.Bulletproofs.InnerProduct.{
  Witness, Proof, Vars, next_vars, left_point, right_point, Rounds, last_values, with_round,
  prove_loop, first_vars, prove, cross, Accepts, ChallengesInvert,
}
use go_incognito_sdk_v.Bulletproofs.InnerProduct.Sums.{sum}
use go_incognito_sdk_v.Bulletproofs.InnerProduct.Commitments.{commits}
use go_incognito_sdk_v.Bulletproofs.InnerProduct.Rounds.{
  HasSize, left, right, left_point-commits, right_point-commits, next_vars-HasSize, next_vars-opens,
  cross-commits,
}

pub two_pow_pos : (k : ℕ) → 0 < 2 ^ k
two_pow_pos zero = omega arith
two_pow_pos (suc k) = omega (arith, pow-suc 2 k, two_pow_pos k)

module _ {g : Group} (h : GroupLaws g) (u : g.Point) where
  -- The loop ends with `k` rounds, and a verifier accepts what it leaves.
  abbrev Proved : ℕ → ℕ → List ℕ → Vars g → Type 0
  Proved k rounds cache v =
      (d : Rounds g u) × (prove_loop g u rounds cache v ≡ ok d)
      × (length d.0 ≡ k)
      × (length d.1 ≡ k)
      × (v.p ≡ commits h u v.a v.b v.gs v.hs
          → ChallengesInvert g cache d.0 d.1
          → Accepts g u d.0 d.1 d.2 d.3 cache v.gs v.hs v.p)

  one_commits :
      (x y : g.Scalar) (s t : g.Point)
      → commits h u (x ∷ []) (y ∷ []) (s ∷ []) (t ∷ [])
        ≡ g.plus (g.plus (g.scale x s) (g.scale y t)) (g.scale (g.mul x y) u)
  unfolding sum
  one_commits x y s t =
      let c = g.scale (g.add (g.mul x y) g.zero_scalar) u in
      ap (λ z. g.plus (g.plus z (g.plus (g.scale y t) g.identity)) c)
        (h.plus-identity (g.scale x s))
      ∙ ap (λ z. g.plus (g.plus (g.scale x s) z) c) (h.plus-identity (g.scale y t))
      ∙ ap (λ z. g.plus (g.plus (g.scale x s) (g.scale y t)) (g.scale z u)) (h.add-zero (g.mul x y))

  one_Proved :
      (rounds : ℕ) (cache : List ℕ) (a b : List g.Scalar) (gs hs : List g.Point) (p : g.Point)
      → length a ≡ 1
      → length b ≡ 1
      → length gs ≡ 1
      → length hs ≡ 1
      → Proved 0 (suc rounds) cache (record { a = a; b = b; gs = gs; hs = hs; p = p })
  unfolding prove_loop last_values sum Accepts
  one_Proved rounds cache (x ∷ []) (y ∷ []) (s ∷ []) (t ∷ []) p ea eb eg eh =
      (([], [], x, y), refl, refl, refl, λ opens c. opens ∙ one_commits x y s t)
  one_Proved rounds cache a b gs hs p ea eb eg eh = absurd (omega arith)

  round_lem :
      (rounds : ℕ) (cache : List ℕ) (v : Vars g) (l r : g.Point) (rest : Rounds g u)
      → ltb 1 (length v.a) ≡ true
      → left_point g u v ≡ ok l
      → right_point g u v ≡ ok r
      → prove_loop g u rounds
          (g.scalar_bytes (generate_challenge g cache (l ∷ r ∷ [])))
          (next_vars g u (generate_challenge g cache (l ∷ r ∷ [])) l r v)
        ≡ ok rest
      → prove_loop g u (suc rounds) cache v ≡ ok (with_round g u l r rest)
  unfolding prove_loop
  round_lem rounds cache v l r rest e f k m = rw (e, prove_loop) (rw f (rw k (rw m refl)))

  accepts_lem :
      (cache : List ℕ) (v : Vars g) (l r : g.Point) (rest : Rounds g u)
      → length v.gs ≡ length v.a
      → (let x = generate_challenge g cache (l ∷ r ∷ []) in
          Accepts g u rest.0 rest.1 rest.2 rest.3
            (g.scalar_bytes x)
            (next_vars g u x l r v).gs
            (next_vars g u x l r v).hs
            (next_vars g u x l r v).p)
      → Accepts g u (l ∷ rest.0) (r ∷ rest.1) rest.2 rest.3 cache v.gs v.hs v.p
  unfolding Accepts next_vars
  accepts_lem cache v l r rest e t = rw e t

  invert_parts :
      (cache : List ℕ) (l r : g.Point) (ls rs : List g.Point)
      → ChallengesInvert g cache (l ∷ ls) (r ∷ rs)
      → (let x = generate_challenge g cache (l ∷ r ∷ []) in
          (g.mul x (g.invert x) ≡ g.one_scalar) × ChallengesInvert g (g.scalar_bytes x) ls rs)
  unfolding ChallengesInvert
  invert_parts cache l r ls rs c = c

  -- More rounds than the length has halvings are enough.
  loop_Proved :
      (k rounds : ℕ) (cache : List ℕ) (v : Vars g)
      → k < rounds
      → HasSize (2 ^ k) v
      → Proved k rounds cache v
  loop_Proved k zero cache v e s = absurd (omega arith)
  loop_Proved zero (suc rounds) cache v e s =
      one_Proved rounds cache v.a v.b v.gs v.hs v.p s.size_a s.size_b s.size_gs s.size_hs
  loop_Proved (suc k) (suc rounds) cache v e s =
      let n = 2 ^ k in
      let two : 2 ^ suc k ≡ n + n = omega (arith, pow-suc 2 k) in
      let s' : HasSize (n + n) v = subst (λ m. HasSize m v) two s in
      let x = generate_challenge g cache (left h u n v s' ∷ right h u n v s' ∷ []) in
      let v' = next_vars g u x (left h u n v s') (right h u n v s') v in
      let (d, run, el, er, accepted) =
        loop_Proved k rounds (g.scalar_bytes x) v' (omega arith)
          (next_vars-HasSize h u n v s' x (left h u n v s') (right h u n v s')) in
      (
        with_round g u (left h u n v s') (right h u n v s') d,
        round_lem rounds cache v (left h u n v s') (right h u n v s') d
            (lt→ltb 1 (length v.a) (omega (arith, two_pow_pos k, s.size_a)))
            (left_point-commits h u n v s') (right_point-commits h u n v s') run,
        ap suc el,
        ap suc er,
        λ opens c.
            accepts_lem cache v (left h u n v s') (right h u n v s') d (s.size_gs ∙ sym s.size_a) (
              let i = invert_parts cache (left h u n v s') (right h u n v s') d.0 d.1 c in
              accepted (next_vars-opens h u n v s' x i.0 opens) i.1),
      )

  le_two_pow : (k : ℕ) → k < 2 ^ k
  le_two_pow zero = omega arith
  le_two_pow (suc k) = omega (arith, pow-suc 2 k, le_two_pow k)

  prove_lem :
      (w : Witness g) (gs hs : List g.Point) (cache : List ℕ) (d : Rounds g u)
      → length w.b ≡ length w.a
      → length w.a ≤ length gs
      → length w.a ≤ length hs
      → prove_loop g u (suc (length w.a)) cache (first_vars g w gs hs) ≡ ok d
      → prove g w gs hs u cache ≡ ok (record { l = d.0; r = d.1; a = d.2; b = d.3; p = w.p })
  prove_lem w gs hs cache d e f k run =
      let e1 : (length w.a == length w.b) ≡ true = ground arith in
      let e2 : ltb (length gs) (length w.a) ≡ false = ground arith in
      let e3 : ltb (length hs) (length w.a) ≡ false = ground arith in
      unfold prove in rw (e1, e2, e3) (rw run refl)

  module _ (w : Witness g) (gs hs : List g.Point) (cache : List ℕ) (k : ℕ)
      (size_a : length w.a ≡ 2 ^ k) (size_b : length w.b ≡ 2 ^ k) (size_gs : 2 ^ k ≤ length gs)
      (size_hs : 2 ^ k ≤ length hs) where
    first_Proved : Proved k (suc (length w.a)) cache (first_vars g w gs hs)
    first_Proved =
        loop_Proved k (suc (length w.a)) cache (first_vars g w gs hs)
          (omega (arith, le_two_pow k, size_a))
          (record {
            size_a = size_a;
            size_b = size_b;
            size_gs = omega (arith, length-take (length w.a) gs);
            size_hs = omega (arith, length-take (length w.a) hs);
          })

    -- Prove of vectors of length 2 ^ k, with as many generators at least, returns a proof with k
    -- points on either side.
    pub prove-returns :
        (proof : Proof g) × (prove g w gs hs u cache ≡ ok proof)
        × (length proof.l ≡ k)
        × (length proof.r ≡ k)
    prove-returns =
        let (d, run, el, er, accepted) = first_Proved in
        (
          record { l = d.0; r = d.1; a = d.2; b = d.3; p = w.p },
          prove_lem w gs hs cache d (omega arith) (omega arith) (omega arith) run,
          el,
          er,
        )

    -- The proof carries the commitment of the witness.
    pub prove_commitment : (proof : Proof g) → prove g w gs hs u cache ≡ ok proof → proof.p ≡ w.p
    prove_commitment proof returned =
        let (d, run, el, er, accepted) = first_Proved in
        ap (λ (t : Proof g). t.p)
          (ok_injective {E = Error} _ _ (
            sym returned ∙ prove_lem w gs hs cache d (omega arith) (omega arith) (omega arith) run))

    -- Over a group with the laws, for vectors of length 2 ^ k with as many generators at least: if p is
    -- what encodeVectors and innerProduct make of the vectors, and no challenge of the proof is without
    -- an inverse, the verifier accepts the proof that Prove gives.
    pub prove-Accepts :
        cross g u w.a w.b (take (length w.a) gs) (take (length w.a) hs) ≡ ok w.p
        → (proof : Proof g) → prove g w gs hs u cache ≡ ok proof
        → ChallengesInvert g cache proof.l proof.r
        → Accepts g u proof.l proof.r proof.a proof.b cache
            (take (length w.a) gs)
            (take (length w.a) hs)
            proof.p
    prove-Accepts committed proof returned inverts =
        let (d, run, el, er, accepted) = first_Proved in
        let q : proof ≡ record { l = d.0; r = d.1; a = d.2; b = d.3; p = w.p } =
          ok_injective {E = Error} _ _ (
            sym returned
            ∙ prove_lem w gs hs cache d (omega arith) (omega arith) (omega arith) run) in
        let opens : w.p ≡ commits h u w.a w.b (take (length w.a) gs) (take (length w.a) hs) =
          ok_injective {E = Error} _ _ (
            sym committed
            ∙ cross-commits h u w.a w.b (take (length w.a) gs) (take (length w.a) hs) (omega arith)
                (omega (arith, length-take (length w.a) gs))
                (omega (arith, length-take (length w.a) hs))) in
        subst
          (λ (t : Proof g).
            ChallengesInvert g cache t.l t.r
            → Accepts g u t.l t.r t.a t.b cache (take (length w.a) gs) (take (length w.a) hs) t.p)
          (sym q) (accepted opens) inverts
