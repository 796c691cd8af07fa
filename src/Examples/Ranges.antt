-- ===== src/Examples/Ranges.antt =====
-- The range proof of three values, over the field with two elements.
use go_incognito_sdk_v.Base.{
  ℕ, List, ◌*◌, ◌≤◌, ◌≡◌, refl, sym, ap, ◌∙◌, Bool, true, false, [], ◌∷◌, length, replicate, ok,
  arith, length-replicate,
}
use go_incognito_sdk_v.Bulletproofs.{generate_challenge}
use go_incognito_sdk_v.Bulletproofs.InnerProduct.{ChallengesInvert}
use go_incognito_sdk_v.Bulletproofs.RangeProof.{
  Params, RangeWitness, RangeDraws, RangeProof, round_up_pow_two, prove,
}
use go_incognito_sdk_v.Bulletproofs.RangeProof.Verifier.{
  padded_count, Opens, Accepted, Invertible, challenge_y, challenge_x,
}
use go_incognito_sdk_v.Bulletproofs.RangeProof.Checked.{prove-Opens, prove-Accepted}
use go_incognito_sdk_v.Examples.Proofs.{bits, bits-GroupLaws}

abbrev params : Params bits
params = record {
  gs = replicate 2048 true;
  hs = replicate 2048 false;
  u = true;
  cs = false;
  value_base = true;
  h_base = false;
}

abbrev wit : RangeWitness bits
wit = record { values = 5 ∷ 0 ∷ 1000 ∷ []; rands = true ∷ false ∷ true ∷ [] }

abbrev draws : RangeDraws bits
draws = record {
  s_l = replicate 256 true;
  s_r = replicate 256 false;
  alpha = true;
  rho = false;
  tau1 = true;
  tau2 = true;
}

padded : padded_count wit ≡ 4
unfolding round_up_pow_two
padded = refl

drawn : (b : Bool) → length (replicate 256 b) ≡ 64 * padded_count wit
drawn b = length-replicate 256 b ∙ ap (λ k. 64 * k) (sym padded)

enough : (b : Bool) → 64 * padded_count wit ≤ length (replicate 2048 b)
enough b = omega (arith, padded, length-replicate 2048 b)

prove-Opens_example :
    (proof : RangeProof bits) × (prove bits params wit draws ≡ ok proof)
    × Opens bits params proof (64 * padded_count wit)
prove-Opens_example =
    prove-Opens bits-GroupLaws params wit draws (omega arith) refl (drawn true) (drawn false)
      (enough true) (enough false) (omega arith, (omega arith, (omega arith, tt)))

-- Every challenge is 1 here.
ones-ChallengesInvert : (cache : List ℕ) (ls rs : List Bool) → ChallengesInvert bits cache ls rs
unfolding ChallengesInvert generate_challenge
ones-ChallengesInvert cache [] rs = tt
ones-ChallengesInvert cache (l ∷ ls) [] = tt
ones-ChallengesInvert cache (l ∷ ls) (r ∷ rs) = (refl, ones-ChallengesInvert (1 ∷ []) ls rs)

some_proof : (proof : RangeProof bits) × (prove bits params wit draws ≡ ok proof)
some_proof =
    let (proof, returned, opens) =
      prove-Opens bits-GroupLaws params wit draws (omega arith) refl (drawn true) (drawn false)
        (enough true) (enough false) (omega arith, (omega arith, (omega arith, tt))) in
    (proof, returned)

some_proof-Invertible : (proof : RangeProof bits) → Invertible bits params proof
unfolding Invertible challenge_y challenge_x generate_challenge
some_proof-Invertible proof =
    (refl, ones-ChallengesInvert (1 ∷ []) proof.inner_product_proof.l proof.inner_product_proof.r)

prove-Accepted_example : Accepted bits params (some_proof.0) (padded_count wit)
prove-Accepted_example =
    prove-Accepted bits-GroupLaws params wit draws (omega arith) refl (drawn true) (drawn false)
      (enough true) (enough false) (some_proof.0) (some_proof.1)
      (some_proof-Invertible (some_proof.0))
