-- ===== src/Mlsag/Closes/Steps.antt =====
-- The parts of Sign of privacy/v2/mlsag/mlsag.go.
use go_incognito_sdk_v.Base.{
  ℕ, zero, suc, ◌+◌, ◌%◌, ◌<◌, ◌≡◌, refl, true, false, List, [], ◌∷◌, ◌++◌, none, some, length,
  get_elem?, ok, arith, ◌==◌,
}
use go_incognito_sdk_v.Crypto.{Key, Curve, PedersenCommitment}
use go_incognito_sdk_v.Crypto.Laws.{IsPoint, CurveLaws}
use go_incognito_sdk_v.Mlsag.{
  Challenges, set_challenge, set_row, row_at, challenge_at, calculate_first_c, challenge_loop,
  calculate_c, sign, respond, parse_key_images, first_bytes,
}
use go_incognito_sdk_v.Mlsag.Closes.{MultipleLaws}

pub get_elem?-set_row :
    (i j : ℕ) (row : List Key) (rows : List (List Key))
    → (j == i) ≡ false
    → get_elem? (set_row i row rows) j ≡ get_elem? rows j
unfolding set_row
get_elem?-set_row i j row [] e = refl
get_elem?-set_row zero zero row (s ∷ rows) e = absurd (ground arith)
get_elem?-set_row zero (suc j) row (s ∷ rows) e = refl
get_elem?-set_row (suc i) zero row (s ∷ rows) e = refl
get_elem?-set_row (suc i) (suc j) row (s ∷ rows) e = get_elem?-set_row i j row rows (ground arith)

pub get_elem?-set_row_same :
    (i : ℕ) (row : List Key) (rows : List (List Key))
    → i < length rows
    → get_elem? (set_row i row rows) i ≡ some row
unfolding set_row
get_elem?-set_row_same i row [] h = absurd (omega arith)
get_elem?-set_row_same zero row (s ∷ rows) h = refl
get_elem?-set_row_same (suc i) row (s ∷ rows) h = get_elem?-set_row_same i row rows (omega arith)

module _ (c : Curve) (laws : CurveLaws c) (more : MultipleLaws c) (pcm : PedersenCommitment)
    (g4 : IsPoint c pcm.g4) where
  pub first_computes :
      (digest : List ℕ) (alpha ks : List Key)
      → length alpha ≡ length ks
      → 0 < length ks
      → calculate_first_c c pcm digest alpha ks
        ≡ ok (c.hash_to_scalar (digest ++ first_bytes c pcm alpha ks))
  unfolding calculate_first_c
  first_computes digest alpha ks e pos =
      let f : (length alpha == length ks) ≡ true = ground arith in
      let g : (length ks == 0) ≡ false = ground arith in rw (f, g) refl

  pub calculate_c_lem :
      (digest : List ℕ) (keys r : List (List Key)) (images alpha xs ks : List Key) (pi : ℕ)
      (first cc : Key) (cs : Challenges c pcm)
      → get_elem? keys pi ≡ some ks
      → calculate_first_c c pcm digest alpha ks ≡ ok first
      → challenge_loop c pcm digest keys r images pi
          (length keys)
          ((pi + 1) % length keys)
          (((pi + 1) % length keys + 1) % length keys)
          (set_challenge c pcm ((pi + 1) % length keys) first (λ i. none))
        ≡ ok cs
      → cs pi ≡ some cc
      → calculate_c c pcm digest keys r images pi alpha xs ≡ ok (cs, respond c pcm alpha cc xs)
  unfolding calculate_c
  calculate_c_lem digest keys r images alpha xs ks pi first cc cs ek f run e =
      rw (ek, calculate_c, row_at) (rw f (rw run (rw (e, challenge_at) refl)))

  pub sign_lem :
      (keys r : List (List Key)) (pi : ℕ) (xs alpha row : List Key) (message : List ℕ)
      (cs : Challenges c pcm) (cc : Key)
      → length message ≡ 32
      → calculate_c c pcm message keys r (parse_key_images c pcm xs) pi alpha xs ≡ ok (cs, row)
      → cs 0 ≡ some cc
      → sign c pcm keys pi xs alpha r message
        ≡ ok (record {
          challenge = cc;
          key_images = parse_key_images c pcm xs;
          responses = set_row pi row r;
        })
  unfolding sign
  sign_lem keys r pi xs alpha row message cs cc l e z =
      let f : (length message == 32) ≡ true = ground arith in
      rw (f, sign) (rw e (rw (z, challenge_at) refl))
