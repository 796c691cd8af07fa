-- ===== src/Bulletproofs/InnerProduct.antt =====
-- InnerProductWitness.Prove of privacy/v2/bulletproofs/innerproduct.go, and what a verifier computes.
pub mod Sums
pub mod Commitments
pub mod Rounds
pub mod Accepted
pub mod Sizes
use go_incognito_sdk_v.Base.{
  ℕ, zero, suc, ◌/◌, ◌≡◌, Bool, true, false, not, ◌||◌, List, [], ◌∷◌, ltb, ◌==◌, length, take,
  drop, Result, ok, err, ◌>>=◌, ◌>>◌, fail_if,
}
use go_incognito_sdk_v.Bulletproofs.{
  Error, invalid_input, panic, out_of_rounds, Group, inner_product, encode_vectors, add_pedersen,
  generate_challenge,
}

-- InnerProductWitness
pub record Witness (g : Group) : Type 0 where
  pub a : List g.Scalar
  pub b : List g.Scalar
  pub p : g.Point

-- InnerProductProof
pub record Proof (g : Group) : Type 0 where
  pub l : List g.Point
  pub r : List g.Point
  pub a : g.Scalar
  pub b : g.Scalar
  pub p : g.Point

module _ (g : Group) where
  -- What a round makes of the two halves of the vectors: aPrime or bPrime by the challenge and its
  -- inverse, `MulAdd(a[i+nPrime], y, a[i] * x)`.
  unfoldable pub fold_scalars : g.Scalar → g.Scalar → List g.Scalar → List g.Scalar → List g.Scalar
  fold_scalars x y (s ∷ ss) (t ∷ ts) = g.add (g.mul t y) (g.mul s x) ∷ fold_scalars x y ss ts
  fold_scalars x y ss ts = []

  -- GPrime or HPrime, `AddPedersen(x, G[i], y, G[i+nPrime])`.
  unfoldable pub fold_points : g.Scalar → g.Scalar → List g.Point → List g.Point → List g.Point
  fold_points x y (p ∷ ps) (q ∷ qs) = add_pedersen g x p y q ∷ fold_points x y ps qs
  fold_points x y ps qs = []

  -- PPrime: x^2 * l + P + xInverse^2 * r
  unfoldable pub fold_commitment : g.Scalar → g.Point → g.Point → g.Point → g.Point
  fold_commitment x l r p =
      g.plus (add_pedersen g (g.mul x x) l (g.mul (g.invert x) (g.invert x)) r) p

  -- The variables of the loop of Prove.
  pub record Vars : Type 0 where
    pub a : List g.Scalar
    pub b : List g.Scalar
    pub gs : List g.Point
    pub hs : List g.Point
    pub p : g.Point

module _ (g : Group) (u : g.Point) where
  -- L and R of a round, from the vectors that they encode.
  unfoldable pub cross :
      List g.Scalar → List g.Scalar → List g.Point → List g.Point → Result Error g.Point
  cross a b gs hs = do
    c ← inner_product g a b
    e ← encode_vectors g a b gs hs
    ok (g.plus e (g.scale c u))

  -- The values for the next round.
  unfoldable pub next_vars : g.Scalar → g.Point → g.Point → Vars g → Vars g
  next_vars x l r v =
      let n = length v.a / 2 in
      let y = g.invert x in
      record {
        a = fold_scalars g x y (take n v.a) (drop n v.a);
        b = fold_scalars g y x (take n v.b) (drop n v.b);
        gs = fold_points g y x (take n v.gs) (drop n v.gs);
        hs = fold_points g x y (take n v.hs) (drop n v.hs);
        p = fold_commitment g x l r v.p;
      }

  unfoldable pub left_point : Vars g → Result Error g.Point
  left_point v =
      let n = length v.a / 2 in cross (take n v.a) (drop n v.b) (drop n v.gs) (take n v.hs)

  unfoldable pub right_point : Vars g → Result Error g.Point
  right_point v =
      let n = length v.a / 2 in cross (drop n v.a) (take n v.b) (take n v.gs) (drop n v.hs)

  -- What the loop leaves: l, r and the single values of a and b.
  abbrev pub Rounds : Type 0
  Rounds = List g.Point × List g.Point × g.Scalar × g.Scalar

  unfoldable pub last_values : Vars g → Result Error Rounds
  last_values v = elim v.a [
    | [] ↦ err panic
    | x ∷ xs ↦ elim v.b [ [] ↦ err panic | y ∷ ys ↦ ok ([], [], x, y) ]
  ]

  abbrev pub with_round : g.Point → g.Point → Rounds → Rounds
  with_round l r (ls, rs, a, b) = (l ∷ ls, r ∷ rs, a, b)

  -- `for N > 1`, with a bound on its rounds.
  unfoldable pub prove_loop : ℕ → List ℕ → Vars g → Result Error Rounds
  prove_loop zero hash_cache v = err out_of_rounds
  prove_loop (suc rounds) hash_cache v = elim (ltb 1 (length v.a)) [
    | false ↦ last_values v
    | true ↦ left_point v >>= λ l. right_point v >>= λ r.
        let x = generate_challenge g hash_cache (l ∷ r ∷ []) in
        prove_loop rounds (g.scalar_bytes x) (next_vars x l r v) >>= λ rest.
        ok (with_round l r rest)
  ]

module _ (g : Group) where
  -- The variables with which the loop begins.
  abbrev pub first_vars : Witness g → List g.Point → List g.Point → Vars g
  first_vars w g_param h_param =
      let n = length w.a in
      record { a = w.a; b = w.b; gs = take n g_param; hs = take n h_param; p = w.p }

  -- Prove copies the first N generators, and panics if there are fewer. A round halves N, so N + 1
  -- rounds are enough.
  unfoldable pub prove :
      Witness g → List g.Point → List g.Point → g.Point → List ℕ → Result Error (Proof g)
  unfolding prove_loop
  prove w g_param h_param u hash_cache = do
    let n = length w.a
    fail_if (not (n == length w.b)) invalid_input
    fail_if (ltb (length g_param) n || ltb (length h_param) n) panic
    done ← prove_loop g u (suc n) hash_cache (first_vars w g_param h_param)
    ok (record { l = done.0; r = done.1; a = done.2; b = done.3; p = w.p })

  -- The check of a verifier: it folds the generators and the commitment by the challenges, and opens
  -- the last commitment with a, b and their product.
  unfoldable pub Accepts :
      g.Point
      → List g.Point
      → List g.Point
      → g.Scalar
      → g.Scalar
      → List ℕ
      → List g.Point
      → List g.Point
      → g.Point
      → Type 0
  Accepts u [] [] a b hash_cache (p ∷ []) (q ∷ []) c =
      c ≡ g.plus (g.plus (g.scale a p) (g.scale b q)) (g.scale (g.mul a b) u)
  Accepts u (l ∷ ls) (r ∷ rs) a b hash_cache gs hs c =
      let x = generate_challenge g hash_cache (l ∷ r ∷ []) in
      let y = g.invert x in
      let n = length gs / 2 in
      Accepts u ls rs a b (g.scalar_bytes x) (fold_points g y x (take n gs) (drop n gs))
        (fold_points g x y (take n hs) (drop n hs)) (fold_commitment g x l r c)
  Accepts u ls rs a b hash_cache gs hs c = ⊥

  -- No challenge of the proof is 0: each has an inverse.
  unfoldable pub ChallengesInvert : List ℕ → List g.Point → List g.Point → Type 0
  ChallengesInvert hash_cache (l ∷ ls) (r ∷ rs) =
      let x = generate_challenge g hash_cache (l ∷ r ∷ []) in
      (g.mul x (g.invert x) ≡ g.one_scalar) × ChallengesInvert (g.scalar_bytes x) ls rs
  ChallengesInvert hash_cache ls rs = Unit {0}
