-- ===== src/Crypto/Laws.antt =====
-- What the program relies on of crypto/curve25519: the group of points is a module over the scalars,
-- as far as the coins use it.
use go_incognito_sdk_v.Base.{ℕ, ◌≡◌, List, true, length}
use go_incognito_sdk_v.Crypto.{Key, Curve}

abbrev pub IsPoint : Curve → Key → Type 0
IsPoint c k = (length k ≡ 32) × (c.point_valid k ≡ true)

abbrev pub IsScalar : Curve → Key → Type 0
IsScalar c k = (length k ≡ 32) × (c.sc_valid k ≡ true)

pub record CurveLaws (c : Curve) : Type 0 where
  pub sc_add-IsScalar : (a b : Key) → IsScalar c a → IsScalar c b → IsScalar c (c.sc_add a b)
  pub hash_to_scalar-IsScalar : (m : Key) → IsScalar c (c.hash_to_scalar m)
  pub scalarmult_base-IsPoint : (a : Key) → IsScalar c a → IsPoint c (c.scalarmult_base a)
  pub scalarmult_key-IsPoint :
      (p a : Key) → IsPoint c p → IsScalar c a → IsPoint c (c.scalarmult_key p a)
  pub add_keys-IsPoint : (p q : Key) → IsPoint c p → IsPoint c q → IsPoint c (c.add_keys p q)
  -- subtraction undoes addition
  pub sc_sub-sc_add : (a b : Key) → IsScalar c a → IsScalar c b → c.sc_sub (c.sc_add a b) b ≡ a
  pub sub_keys-add_keys :
      (p q : Key) → IsPoint c p → IsPoint c q → c.sub_keys (c.add_keys p q) p ≡ q
  pub sub_keys-add_keys_right :
      (p q : Key) → IsPoint c p → IsPoint c q → c.sub_keys (c.add_keys p q) q ≡ p
  pub hash_to_point-IsPoint : (m : List ℕ) → IsPoint c (c.hash_to_point m)
  -- (b G) a = (a G) b, the shared secret of Diffie and Hellman
  pub shared_secret :
      (a b : Key)
      → IsScalar c a
      → IsScalar c b
      → c.scalarmult_key (c.scalarmult_base b) a ≡ c.scalarmult_key (c.scalarmult_base a) b
  -- (a + b) G = a G + b G
  pub scalarmult_base-sc_add :
      (a b : Key)
      → IsScalar c a
      → IsScalar c b
      → c.scalarmult_base (c.sc_add a b) ≡ c.add_keys (c.scalarmult_base a) (c.scalarmult_base b)
