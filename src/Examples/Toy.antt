-- ===== src/Examples/Toy.antt =====
-- A small instance of `Curve`: points and scalars are the numbers below 7 in the first byte of a key,
-- the base point is 1, and a message is hashed to the sum of its bytes.
use go_incognito_sdk_v.Base.{
  ℕ, ◌+◌, ◌*◌, ◌%◌, ◌<◌, ◌≡◌, refl, sym, ap, ◌∙◌, Bool, true, ◌&&◌, List, [], ◌∷◌, ltb, replicate,
  arith,
}
use go_incognito_sdk_v.Common.Hash.{same_bytes}
use go_incognito_sdk_v.Common.Hash.Order.{same_bytes_refl, same_bytes→eq}
use go_incognito_sdk_v.Crypto.{Key, Curve}
use go_incognito_sdk_v.Crypto.Laws.{IsScalar, CurveLaws}

abbrev pub key : ℕ → Key
key n = n ∷ replicate 31 0

unfoldable pub value : Key → ℕ
value [] = 0
value (b ∷ bs) = b

unfoldable pub sum_bytes : List ℕ → ℕ
sum_bytes [] = 0
sum_bytes (b ∷ bs) = (b + sum_bytes bs) % 7

unfoldable pub is_small : Key → Bool
is_small k = ltb (value k) 7 && same_bytes k (key (value k))

abbrev pub add : Key → Key → Key
add a b = key ((value a + value b) % 7)

abbrev pub sub : Key → Key → Key
sub a b = key ((value a + 6 * value b) % 7)

abbrev pub mul : Key → Key → Key
mul a b = key (value a * value b % 7)

abbrev pub toy : Curve
toy = record {
  point_valid = is_small;
  sc_valid = is_small;
  identity = key 0;
  sc_add = add;
  sc_sub = sub;
  sc_mul = mul;
  scalarmult_base = λ a. key (value a % 7);
  scalarmult_key = mul;
  add_keys = add;
  sub_keys = sub;
  hash_to_scalar = λ m. key (sum_bytes m % 7);
  hash_to_point = λ m. key (sum_bytes m % 7);
}

pub key-IsScalar : (n : ℕ) → n < 7 → IsScalar toy (key n)
unfolding is_small value
key-IsScalar n h = (refl, ground (arith, same_bytes_refl (key n)))

pub is_small-key : (k : Key) → is_small k ≡ true → (k ≡ key (value k)) × (value k < 7)
unfolding is_small
is_small-key k h = (same_bytes→eq k (key (value k)) (ground arith), ground arith)

pub toy-CurveLaws : CurveLaws toy
unfolding value
toy-CurveLaws = record {
  sc_add-IsScalar = λ a b ha hb. key-IsScalar _ (omega arith);
  hash_to_scalar-IsScalar = λ m. key-IsScalar _ (omega arith);
  scalarmult_base-IsPoint = λ a ha. key-IsScalar _ (omega arith);
  scalarmult_key-IsPoint = λ p a hp ha. key-IsScalar _ (omega arith);
  add_keys-IsPoint = λ p q hp hq. key-IsScalar _ (omega arith);
  sc_sub-sc_add = λ a b ha hb.
      let (ea, la) = is_small-key a ha.1 in
      let (eb, lb) = is_small-key b hb.1 in
      let e : ((value a + value b) % 7 + 6 * value b) % 7 ≡ value a = omega arith in
      ap key e ∙ sym ea;
  sub_keys-add_keys = λ p q hp hq.
      let (ep, lp) = is_small-key p hp.1 in
      let (eq, lq) = is_small-key q hq.1 in
      let e : ((value p + value q) % 7 + 6 * value p) % 7 ≡ value q = omega arith in
      ap key e ∙ sym eq;
  sub_keys-add_keys_right = λ p q hp hq.
      let (ep, lp) = is_small-key p hp.1 in
      let (eq, lq) = is_small-key q hq.1 in
      let e : ((value p + value q) % 7 + 6 * value q) % 7 ≡ value p = omega arith in
      ap key e ∙ sym ep;
  hash_to_point-IsPoint = λ m. key-IsScalar _ (omega arith);
  shared_secret = λ a b ha hb.
      let (ea, la) = is_small-key a ha.1 in
      let (eb, lb) = is_small-key b hb.1 in
      let xa : value a % 7 ≡ value a = omega arith in
      let xb : value b % 7 ≡ value b = omega arith in
      let e : value b * value a ≡ value a * value b = grind arith in
      rw (xa, xb) (ap (λ n. key (n % 7)) e);
  scalarmult_base-sc_add = λ a b ha hb. ap key (omega arith);
}
