-- ===== src/Mlsag/Closes.antt =====
-- The signer's place in the ring of privacy/v2/mlsag/mlsag.go.
pub mod Distance
pub mod Ring
pub mod Steps
pub mod Signed
use mathlib.Core.Path.{ap₂}
use go_incognito_sdk_v.Base.{
  ℕ, zero, suc, ◌+◌, ◌%◌, ◌≡◌, refl, sym, ap, ◌∙◌, Bool, true, false, List, [], ◌∷◌, ◌++◌, length,
  Result, ok, err, All, arith, ◌==◌, fail_if, ◌>>◌,
}
use go_incognito_sdk_v.Crypto.{Key, Curve, PedersenCommitment}
use go_incognito_sdk_v.Crypto.Laws.{IsPoint, IsScalar, CurveLaws}
use go_incognito_sdk_v.Mlsag.{
  Error, panic, parse_public_key, public_keys, key_image, parse_key_images, first_bytes, next_bytes,
  respond, calculate_first_c, calculate_next_c,
}

-- What the signature relies on of crypto/curve25519 besides CurveLaws: multiples of a point add up,
-- and multiples of multiples are those of the product.
pub record MultipleLaws (c : Curve) : Type 0 where
  pub sc_mul-IsScalar : (a b : Key) → IsScalar c a → IsScalar c b → IsScalar c (c.sc_mul a b)
  pub scalarmult_base-sc_sub :
      (a b : Key)
      → IsScalar c a
      → IsScalar c b
      → c.add_keys (c.scalarmult_base (c.sc_sub a b)) (c.scalarmult_base b) ≡ c.scalarmult_base a
  pub scalarmult_key-sc_sub :
      (p a b : Key)
      → IsPoint c p
      → IsScalar c a
      → IsScalar c b
      → c.add_keys (c.scalarmult_key p (c.sc_sub a b)) (c.scalarmult_key p b) ≡ c.scalarmult_key p a
  pub scalarmult_key-scalarmult_base :
      (a b : Key)
      → IsScalar c a
      → IsScalar c b
      → c.scalarmult_key (c.scalarmult_base a) b ≡ c.scalarmult_base (c.sc_mul b a)
  pub scalarmult_key-scalarmult_key :
      (p a b : Key)
      → IsPoint c p
      → IsScalar c a
      → IsScalar c b
      → c.scalarmult_key (c.scalarmult_key p a) b ≡ c.scalarmult_key p (c.sc_mul b a)

module _ (c : Curve) (laws : CurveLaws c) (more : MultipleLaws c) (pcm : PedersenCommitment)
    (g4 : IsPoint c pcm.g4) where
  -- The response and the challenge of a key give back the random multiple.
  answered_base :
      (a x cc : Key)
      → IsScalar c a
      → IsScalar c x
      → IsScalar c cc
      → c.add_keys
          (c.scalarmult_base (c.sc_sub a (c.sc_mul cc x)))
          (c.scalarmult_key (c.scalarmult_base x) cc)
        ≡ c.scalarmult_base a
  answered_base a x cc ha hx hc =
      ap (c.add_keys (c.scalarmult_base (c.sc_sub a (c.sc_mul cc x))))
        (more.scalarmult_key-scalarmult_base x cc hx hc)
      ∙ more.scalarmult_base-sc_sub a (c.sc_mul cc x) ha (more.sc_mul-IsScalar cc x hc hx)

  answered_key :
      (p a x cc : Key)
      → IsPoint c p
      → IsScalar c a
      → IsScalar c x
      → IsScalar c cc
      → c.add_keys
          (c.scalarmult_key p (c.sc_sub a (c.sc_mul cc x)))
          (c.scalarmult_key (c.scalarmult_key p x) cc)
        ≡ c.scalarmult_key p a
  answered_key p a x cc hp ha hx hc =
      ap (c.add_keys (c.scalarmult_key p (c.sc_sub a (c.sc_mul cc x))))
        (more.scalarmult_key-scalarmult_key p x cc hp hx hc)
      ∙ more.scalarmult_key-sc_sub p a (c.sc_mul cc x) hp ha (more.sc_mul-IsScalar cc x hc hx)

  next_bytes-first_bytes :
      (alpha xs : List Key) (cc : Key)
      → length alpha ≡ length xs
      → All (IsScalar c) alpha
      → All (IsScalar c) xs
      → IsScalar c cc
      → next_bytes c pcm
          (respond c pcm alpha cc xs)
          cc
          (public_keys c pcm xs)
          (parse_key_images c pcm xs)
        ≡ first_bytes c pcm alpha (public_keys c pcm xs)
  unfolding next_bytes first_bytes respond public_keys parse_key_images
  next_bytes-first_bytes [] [] cc e ha hx hc = refl
  next_bytes-first_bytes [] (x ∷ xs) cc e ha hx hc = absurd (omega arith)
  next_bytes-first_bytes (a ∷ as') [] cc e ha hx hc = absurd (omega arith)
  next_bytes-first_bytes (a ∷ []) (x ∷ []) cc e ha hx hc =
      answered_key pcm.g4 a x cc g4 ha.0 hx.0 hc
  next_bytes-first_bytes (a ∷ []) (x ∷ y ∷ xs) cc e ha hx hc = absurd (omega arith)
  next_bytes-first_bytes (a ∷ b ∷ as') (x ∷ []) cc e ha hx hc = absurd (omega arith)
  next_bytes-first_bytes (a ∷ b ∷ as') (x ∷ y ∷ xs) cc e ha hx hc =
      ap₂ ◌++◌ (answered_base a x cc ha.0 hx.0 hc) (
        ap₂ ◌++◌
          (answered_key (c.hash_to_point (c.scalarmult_base x)) a x cc
            (laws.hash_to_point-IsPoint _) ha.0 hx.0 hc)
          (next_bytes-first_bytes (b ∷ as') (y ∷ xs) cc (omega arith) ha.1 hx.1 hc))

  length-respond :
      (alpha xs : List Key) (cc : Key)
      → length alpha ≡ length xs
      → length (respond c pcm alpha cc xs) ≡ length xs
  unfolding respond
  length-respond [] [] cc e = refl
  length-respond [] (x ∷ xs) cc e = absurd (omega arith)
  length-respond (a ∷ as') [] cc e = absurd (omega arith)
  length-respond (a ∷ as') (x ∷ xs) cc e = omega (arith, length-respond as' xs cc (omega arith))

  pub length-public_keys : (xs : List Key) → length (public_keys c pcm xs) ≡ length xs
  unfolding public_keys
  length-public_keys [] = refl
  length-public_keys (x ∷ []) = refl
  length-public_keys (x ∷ y ∷ xs) = omega (arith, length-public_keys (y ∷ xs))

  pub length-parse_key_images : (xs : List Key) → length (parse_key_images c pcm xs) ≡ length xs
  unfolding parse_key_images
  length-parse_key_images [] = refl
  length-parse_key_images (x ∷ []) = refl
  length-parse_key_images (x ∷ y ∷ xs) = omega (arith, length-parse_key_images (y ∷ xs))

  -- From the signer's response, the challenge of the next place is the one that the random scalars
  -- gave.
  pub calculate_next_c-first :
      (digest : List ℕ) (alpha xs : List Key) (cc : Key)
      → length alpha ≡ length xs
      → All (IsScalar c) alpha
      → All (IsScalar c) xs
      → IsScalar c cc
      → calculate_next_c c pcm digest
          (respond c pcm alpha cc xs)
          cc
          (public_keys c pcm xs)
          (parse_key_images c pcm xs)
        ≡ calculate_first_c c pcm digest alpha (public_keys c pcm xs)
  unfolding calculate_next_c calculate_first_c
  calculate_next_c-first digest alpha xs cc e ha hx hc =
      let r = length-respond alpha xs cc e in
      let k = length-public_keys xs in
      let i = length-parse_key_images xs in
      let same : (length xs == length xs) ≡ true = ground arith in
      rw (r, k, i, e)
        (rw same (
          ap (λ b. fail_if (length xs == 0) panic >> ok (c.hash_to_scalar (digest ++ b)))
            (next_bytes-first_bytes alpha xs cc e ha hx hc)))
