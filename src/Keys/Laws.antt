-- ===== src/Keys/Laws.antt =====
-- The keys of key/keyset.go for one private key, and the bytes of a payment address.
use go_incognito_sdk_v.Base.{
  ℕ, ◌≡◌, refl, sym, ap, ◌∙◌, List, [], ◌∷◌, ◌++◌, Option, none, some, length, drop, replicate, ok,
  arith, take-append, drop-append, length-append, take_all, append_assoc,
}
use go_incognito_sdk_v.Crypto.{Key, Curve, point_from_bytes, scalar_from_bytes}
use go_incognito_sdk_v.Crypto.Laws.{IsPoint, IsScalar, CurveLaws}
use go_incognito_sdk_v.Keys.{
  PaymentAddress, KeySet, bytes, set_bytes, point_or_nil, get_private_view, get_public_view,
  get_public_spend, get_ota_public_key, get_ota_secret_key, ota_public_spend, init_from_private_key,
  generate_payment_address, generate_viewing_key, generate_ota_key, generate_private_ota_key,
  encryption_key, c_string_ota,
}

pub scalar_from_bytes-IsScalar : (c : Curve) (k : Key) → IsScalar c k → scalar_from_bytes k ≡ k
unfolding scalar_from_bytes
scalar_from_bytes-IsScalar c k h = take-append 32 k (replicate 32 0) h.0

pub point_from_bytes-IsPoint : (c : Curve) (k : Key) → IsPoint c k → point_from_bytes c k ≡ ok k
unfolding point_from_bytes
point_from_bytes-IsPoint c k h = ground arith

-- The parts of an address have 32 bytes each, and the one-time key may be missing.
pub record IsAddress (a : PaymentAddress) : Type 0 where
  pub pk_size : length a.pk ≡ 32
  pub tk_size : length a.tk ≡ 32
  pub ota_size : (b : List ℕ) → a.ota_public ≡ some b → length b ≡ 32

read_parts :
    (pk tk : List ℕ) (ota : Option (List ℕ))
    → length pk ≡ 32
    → length tk ≡ 32
    → ((b : List ℕ) → ota ≡ some b → length b ≡ 32)
    → set_bytes (bytes (record { pk = pk; tk = tk; ota_public = ota }))
      ≡ ok (record { pk = pk; tk = tk; ota_public = ota })
unfolding bytes set_bytes
read_parts pk tk none hp ht ho =
    let l : length (pk ++ tk) ≡ 64 = omega (arith, length-append pk tk) in
    rw (l, take-append 32 pk tk hp, drop-append 32 pk tk hp, take_all 32 tk (omega arith))
read_parts pk tk (some b) hp ht ho =
    let l : length (pk ++ tk) ≡ 64 = omega (arith, length-append pk tk) in
    let d : drop 64 ((pk ++ tk) ++ b) ≡ b = drop-append 64 (pk ++ tk) b l in
    let l' : length ((pk ++ tk) ++ b) ≡ 96 = omega (arith, length-append (pk ++ tk) b, ho b refl) in
    rw (l', d, append_assoc pk tk b, take-append 32 pk (tk ++ b) hp, drop-append 32 pk (tk ++ b) hp)
      (rw (take-append 32 tk b ht))

-- An address of either version is read back from its bytes.
pub set_bytes-bytes_address : (a : PaymentAddress) → IsAddress a → set_bytes (bytes a) ≡ ok a
set_bytes-bytes_address a h = read_parts a.pk a.tk a.ota_public h.pk_size h.tk_size h.ota_size

module _ (c : Curve) (laws : CurveLaws c) where
  point_or_nil-base :
      (a : Key) → IsScalar c a → point_or_nil c (c.scalarmult_base a) ≡ some (c.scalarmult_base a)
  point_or_nil-base a h =
      rw (point_from_bytes-IsPoint c _ (laws.scalarmult_base-IsPoint a h), point_or_nil)

  -- What the functions read from a key set of a private key: the view key, the one-time key and the
  -- spending key, each public key being the base point times the private one.
  pub record KeysFit (k : List ℕ) (ks : KeySet) : Type 0 where
    pub private_key : ks.private_key ≡ k
    pub view : get_private_view ks.readonly_key ≡ c.hash_to_scalar k
    pub public_view :
        get_public_view c ks.payment_address
        ≡ some (c.scalarmult_base (get_private_view ks.readonly_key))
    pub ota_secret : get_ota_secret_key c ks.ota_key ≡ some (generate_private_ota_key c k)
    pub public_ota :
        get_ota_public_key c ks.payment_address
        ≡ some (c.scalarmult_base (generate_private_ota_key c k))
    pub public_spend : get_public_spend c ks.payment_address ≡ some (c.scalarmult_base k)
    pub ota_public_spend : ota_public_spend c ks.ota_key ≡ some (c.scalarmult_base k)

  encryption_key-point : (p : Key) → IsPoint c p → encryption_key c (some p) ≡ some p
  unfolding encryption_key
  encryption_key-point [] h = absurd (omega (arith, h.0))
  encryption_key-point (b ∷ bs) h = rw (point_from_bytes-IsPoint c (b ∷ bs) h, point_or_nil)

  spend_point :
      (k : Key)
      → IsScalar c k
      → ota_public_spend c (record { pk = c.scalarmult_base k; ota_secret = [] })
        ≡ some (c.scalarmult_base k)
  unfolding ota_public_spend
  spend_point k h =
      rw (point_or_nil-base k h, ota_public_spend) (rw (laws.scalarmult_base-IsPoint k h).1)

  -- A private key that is a scalar gives a key set whose parts fit together.
  pub init_from_private_key-KeysFit :
      (k : List ℕ)
      → IsScalar c k
      → (ks : KeySet) × (init_from_private_key c k ≡ ok ks) × KeysFit k ks
  unfolding init_from_private_key get_private_view get_public_view get_ota_secret_key
      get_ota_public_key get_public_spend ota_public_spend
  init_from_private_key-KeysFit k h =
      let hv = laws.hash_to_scalar-IsScalar k in
      let ho = laws.hash_to_scalar-IsScalar (k ++ c_string_ota) in
      let sk = scalar_from_bytes-IsScalar c k h in
      let sv = scalar_from_bytes-IsScalar c _ hv in
      let so = scalar_from_bytes-IsScalar c _ ho in
      (
        record {
          private_key = k;
          payment_address = generate_payment_address c k;
          readonly_key = generate_viewing_key c k;
          ota_key = generate_ota_key c k;
        },
        ground (arith, h.0),
        record {
          private_key = refl;
          view = sv;
          public_view =
              ap (λ x. point_or_nil c (c.scalarmult_base x)) sv
              ∙ point_or_nil-base _ hv
              ∙ ap (λ x. some (c.scalarmult_base x)) (sym sv);
          ota_secret = rw (so, ho.1);
          public_ota =
              ap (λ x. encryption_key c (some (c.scalarmult_base x))) so
              ∙ encryption_key-point _ (laws.scalarmult_base-IsPoint _ ho);
          public_spend = ap (λ x. point_or_nil c (c.scalarmult_base x)) sk ∙ point_or_nil-base k h;
          ota_public_spend =
              ap (λ x. ota_public_spend c (record { pk = c.scalarmult_base x; ota_secret = [] })) sk
              ∙ spend_point k h;
        },
      )
