-- ===== src/Bulletproofs/Laws.antt =====
-- What the proofs rely on of crypto.Scalar and crypto.Point: the scalars are a commutative ring and
-- the points a module over it.
use go_incognito_sdk_v.Base.{ℕ, ◌+◌, ◌^◌, ◌<◌, ◌≡◌}
use go_incognito_sdk_v.Bulletproofs.{Group}

pub record GroupLaws (g : Group) : Type 0 where
  pub add_comm : (a b : g.Scalar) → g.add a b ≡ g.add b a
  pub add_assoc : (a b c : g.Scalar) → g.add (g.add a b) c ≡ g.add a (g.add b c)
  pub add-zero : (a : g.Scalar) → g.add a g.zero_scalar ≡ a
  pub mul_comm : (a b : g.Scalar) → g.mul a b ≡ g.mul b a
  pub mul_assoc : (a b c : g.Scalar) → g.mul (g.mul a b) c ≡ g.mul a (g.mul b c)
  pub mul-one : (a : g.Scalar) → g.mul a g.one_scalar ≡ a
  pub mul-add : (a b c : g.Scalar) → g.mul a (g.add b c) ≡ g.add (g.mul a b) (g.mul a c)
  pub mul-zero : (a : g.Scalar) → g.mul a g.zero_scalar ≡ g.zero_scalar
  pub add-sub : (a b : g.Scalar) → g.add (g.sub a b) b ≡ a
  pub from_uint64_zero : g.from_uint64 0 ≡ g.zero_scalar
  pub from_uint64_one : g.from_uint64 1 ≡ g.one_scalar
  pub from_uint64-add :
      (a b : ℕ) → a + b < 2 ^ 64 → g.from_uint64 (a + b) ≡ g.add (g.from_uint64 a) (g.from_uint64 b)
  pub plus_comm : (p q : g.Point) → g.plus p q ≡ g.plus q p
  pub plus_assoc : (p q r : g.Point) → g.plus (g.plus p q) r ≡ g.plus p (g.plus q r)
  pub plus-identity : (p : g.Point) → g.plus p g.identity ≡ p
  pub scale-plus :
      (a : g.Scalar) (p q : g.Point) → g.scale a (g.plus p q) ≡ g.plus (g.scale a p) (g.scale a q)
  pub scale-identity : (a : g.Scalar) → g.scale a g.identity ≡ g.identity
  pub scale-zero : (p : g.Point) → g.scale g.zero_scalar p ≡ g.identity
  pub scale-add :
      (a b : g.Scalar) (p : g.Point) → g.scale (g.add a b) p ≡ g.plus (g.scale a p) (g.scale b p)
  pub scale-mul : (a b : g.Scalar) (p : g.Point) → g.scale (g.mul a b) p ≡ g.scale a (g.scale b p)
  pub scale-one : (p : g.Point) → g.scale g.one_scalar p ≡ p
