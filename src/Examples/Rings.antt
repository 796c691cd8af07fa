-- ===== src/Examples/Rings.antt =====
-- A ring signature over the small curve.
use go_incognito_sdk_v.Base.{
  some, ◌++◌, ℕ, zero, suc, ◌+◌, ◌*◌, ◌%◌, ◌<◌, ◌≡◌, refl, ap, inl, inr, Bool, true, ◌&&◌, List, [],
  ◌∷◌, replicate, ok, arith, ◌==◌, ==_iff, le_or_lt,
}
use go_incognito_sdk_v.Crypto.{Key}
use go_incognito_sdk_v.Mlsag.{Sig, sign, public_keys, parse_public_key}
use go_incognito_sdk_v.Mlsag.Closes.{MultipleLaws}
use go_incognito_sdk_v.Mlsag.Closes.Signed.{CanSign, Signed, sign-Signed}
use go_incognito_sdk_v.Mlsag.Bytes.{SigFields, to_bytes, from_bytes}
use go_incognito_sdk_v.Mlsag.Bytes.RoundTrip.{from_bytes-to_bytes}
use go_incognito_sdk_v.Examples.Toy.{key, value, is_small-key, toy, key-IsScalar, toy-CurveLaws}
use go_incognito_sdk_v.Examples.Accounts.{generators}

-- A test of all numbers below a bound.
all_below : ℕ → (ℕ → Bool) → Bool
all_below zero f = true
all_below (suc n) f = f n && all_below n f

all_below-elim : (n i : ℕ) (f : ℕ → Bool) → all_below n f ≡ true → i < n → f i ≡ true
unfolding all_below
all_below-elim zero i f h lt = absurd (omega arith)
all_below-elim (suc n) i f h lt = elim (le_or_lt n i) [
  | inl last ↦ let q : i ≡ n = omega arith in rw q (ground arith)
  | inr under ↦ all_below-elim n i f (ground arith) under
]

abbrev minus_times : ℕ → ℕ → ℕ → Bool
minus_times p a b = (p * ((a + 6 * b) % 7) % 7 + p * b % 7) % 7 == p * a % 7

minus_times_lem :
    (p a b : ℕ) → p < 7 → a < 7 → b < 7 → (p * ((a + 6 * b) % 7) % 7 + p * b % 7) % 7 ≡ p * a % 7
unfolding all_below
minus_times_lem p a b hp ha hb =
    let f = all_below-elim 7 p (λ p. all_below 7 (λ a. all_below 7 (minus_times p a))) refl hp in
    let g = all_below-elim 7 a (λ a. all_below 7 (minus_times p a)) f ha in
    let h = all_below-elim 7 b (minus_times p a) g hb in (==_iff _ _).0 h

abbrev times_times : ℕ → ℕ → ℕ → Bool
times_times p a b = (p * a % 7 * b % 7) == p * (b * a % 7) % 7

times_times_lem : (p a b : ℕ) → p < 7 → a < 7 → b < 7 → p * a % 7 * b % 7 ≡ p * (b * a % 7) % 7
unfolding all_below
times_times_lem p a b hp ha hb =
    let f = all_below-elim 7 p (λ p. all_below 7 (λ a. all_below 7 (times_times p a))) refl hp in
    let g = all_below-elim 7 a (λ a. all_below 7 (times_times p a)) f ha in
    let h = all_below-elim 7 b (times_times p a) g hb in (==_iff _ _).0 h

abbrev base_times : ℕ → ℕ → Bool
base_times a b = (a % 7 * b % 7) == b * a % 7 % 7

base_times_lem : (a b : ℕ) → a < 7 → b < 7 → a % 7 * b % 7 ≡ b * a % 7 % 7
unfolding all_below
base_times_lem a b ha hb =
    let f = all_below-elim 7 a (λ a. all_below 7 (base_times a)) refl ha in
    let h = all_below-elim 7 b (base_times a) f hb in (==_iff _ _).0 h

toy-MultipleLaws : MultipleLaws toy
unfolding value
toy-MultipleLaws = record {
  sc_mul-IsScalar = λ a b ha hb. key-IsScalar _ (omega arith);
  scalarmult_base-sc_sub = λ a b ha hb.
      let (ea, la) = is_small-key a ha.1 in
      let (eb, lb) = is_small-key b hb.1 in
      let e : ((value a + 6 * value b) % 7 % 7 + value b % 7) % 7 ≡ value a % 7 = omega arith in
      ap key e;
  scalarmult_key-sc_sub = λ p a b hp ha hb.
      let (ep, lp) = is_small-key p hp.1 in
      let (ea, la) = is_small-key a ha.1 in
      let (eb, lb) = is_small-key b hb.1 in
      ap key (minus_times_lem (value p) (value a) (value b) lp la lb);
  scalarmult_key-scalarmult_base = λ a b ha hb.
      let (ea, la) = is_small-key a ha.1 in
      let (eb, lb) = is_small-key b hb.1 in ap key (base_times_lem (value a) (value b) la lb);
  scalarmult_key-scalarmult_key = λ p a b hp ha hb.
      let (ep, lp) = is_small-key p hp.1 in
      let (ea, la) = is_small-key a ha.1 in
      let (eb, lb) = is_small-key b hb.1 in
      ap key (times_times_lem (value p) (value a) (value b) lp la lb);
}

abbrev ring : List (List Key)
ring = (key 1 ∷ key 4 ∷ []) ∷ (key 3 ∷ key 6 ∷ []) ∷ []

abbrev responses : List (List Key)
responses = (key 2 ∷ key 6 ∷ []) ∷ (key 0 ∷ key 0 ∷ []) ∷ []

abbrev private_keys : List Key
private_keys = key 3 ∷ key 2 ∷ []

abbrev alpha : List Key
alpha = key 5 ∷ key 1 ∷ []

signer :
    CanSign toy toy-CurveLaws toy-MultipleLaws generators
      (key-IsScalar 3 (omega arith))
      ring
      responses
      1
      private_keys
      alpha
unfolding public_keys parse_public_key value
signer = record {
  some_keys = omega arith;
  key_scalars = (key-IsScalar 3 (omega arith), (key-IsScalar 2 (omega arith), tt));
  random_scalars = (key-IsScalar 5 (omega arith), (key-IsScalar 1 (omega arith), tt));
  random_count = refl;
  inside = omega arith;
  own_row = refl;
  key_rows = (refl, (refl, tt));
  response_rows = (refl, (refl, tt));
  same_size = refl;
}

sign-Signed_example :
    (sig : Sig) × (sign toy generators ring 1 private_keys alpha responses (replicate 32 4)
      ≡ ok sig)
    × Signed toy toy-CurveLaws toy-MultipleLaws generators
        (key-IsScalar 3 (omega arith))
        ring
        responses
        1
        private_keys
        alpha
        (replicate 32 4)
        signer
        sig
sign-Signed_example =
    sign-Signed toy toy-CurveLaws toy-MultipleLaws generators (key-IsScalar 3 (omega arith)) ring
      responses 1 private_keys alpha (replicate 32 4) signer refl

abbrev all_parts : SigFields
all_parts = record {
  c = some (key 2);
  key_images = some (key 1 ∷ key 5 ∷ []);
  r = some ((key 2 ∷ key 6 ∷ []) ∷ (key 0 ∷ key 3 ∷ []) ∷ (key 4 ∷ key 4 ∷ []) ∷ []);
}

from_bytes-to_bytes_example :
    (b : List ℕ) × (to_bytes all_parts ≡ ok b) × (from_bytes toy (b ++ (9 ∷ [])) ≡ ok all_parts)
from_bytes-to_bytes_example =
    from_bytes-to_bytes toy (key 2) (key 1 ∷ key 5 ∷ [])
      ((key 2 ∷ key 6 ∷ []) ∷ (key 0 ∷ key 3 ∷ []) ∷ (key 4 ∷ key 4 ∷ []) ∷ []) 2 (9 ∷ [])
      (record {
        challenge_scalar = key-IsScalar 2 (omega arith);
        image_points = (key-IsScalar 1 (omega arith), (key-IsScalar 5 (omega arith), tt));
        image_count = omega arith;
        row_count = omega arith;
        row_length = omega arith;
        full_rows = (
          (refl, (key-IsScalar 2 (omega arith), (key-IsScalar 6 (omega arith), tt))),
          (
            (refl, (key-IsScalar 0 (omega arith), (key-IsScalar 3 (omega arith), tt))),
            ((refl, (key-IsScalar 4 (omega arith), (key-IsScalar 4 (omega arith), tt))), tt),
          ),
        );
      })
