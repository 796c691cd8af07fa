-- ===== src/Wallet.antt =====
-- Serialize and deserialize of wallet/hdwallet.go with their text form. The HD key of the wallet is
-- a key of go-hdwallet that neither of them looks at, and is left out.
pub mod RoundTrip
pub mod Kinds
pub mod Address
pub mod Text
use go_incognito_sdk_v.Base.{
  ℕ, suc, ◌+◌, ◌-◌, ◌%◌, ◌≡◌, Bool, true, false, not, ◌&&◌, ◌||◌, List, [], ◌∷◌, ◌++◌, Option, none,
  some, ltb, leb, ◌==◌, if◌then◌else◌, length, take, drop, get_elem?, Result, ok, err, ◌>>=◌, ◌>>◌,
  fail_if,
}
use go_incognito_sdk_v.Common.Hash.{same_bytes}
use go_incognito_sdk_v.Crypto.{Key, Curve, ed25519_key_size}
use go_incognito_sdk_v.Keys.{
  ViewingKey, OtaKey, PaymentAddress, KeySet, ota_public_spend, get_ota_secret_key,
  init_from_private_key,
}
use go_incognito_sdk_v.Base58.{Codec, Lru, checksum_first_4_bytes, encode, new_encode, decode}

pub data Error : Type 0 where
  invalid_key_type invalid_serialized_key invalid_checksum invalid_private_key undecoded panic :
      Error

pub record KeyWallet : Type 0 where
  pub depth : ℕ
  pub child_number : List ℕ
  pub chain_code : List ℕ
  pub key_set : KeySet

abbrev pub no_keys : KeySet
no_keys = record {
  private_key = [];
  payment_address = record { pk = []; tk = []; ota_public = none };
  readonly_key = record { pk = []; rk = [] };
  ota_key = record { pk = []; ota_secret = [] };
}

-- `&KeyWallet{}`
abbrev pub no_wallet : KeyWallet
no_wallet = record { depth = 0; child_number = []; chain_code = []; key_set = no_keys }

-- A length byte and the bytes
abbrev pub sized : List ℕ → List ℕ
sized k = (length k % 256) ∷ k

abbrev pub private_key_type : ℕ
private_key_type = 0

abbrev pub payment_address_type : ℕ
payment_address_type = 1

abbrev pub readonly_key_type : ℕ
readonly_key_type = 2

abbrev pub ota_key_type : ℕ
ota_key_type = 3

abbrev pub private_key_serialized_len : ℕ
private_key_serialized_len = 75

-- That of the two other keys is the same.
abbrev pub payment_addr_serialized_len : ℕ
payment_addr_serialized_len = 71

-- The third part of a payment address.
unfoldable pub ota_part : Bool → Option (List ℕ) → List ℕ
ota_part is_new none = []
ota_part is_new (some ota) = if is_new && ltb 0 (length ota) then sized ota else []

-- The bytes before the check sum. ToBytesS of a nil key panics.
unfoldable pub body : Curve → KeyWallet → ℕ → Bool → Result Error (List ℕ)
unfolding ota_part
body c w key_type is_new =
    let ks = w.key_set in
    let addr = ks.payment_address in
    if key_type == private_key_type
    then ok (key_type ∷ w.depth ∷ (w.child_number ++ (w.chain_code ++ sized ks.private_key)))
    else if key_type == payment_address_type
    then ok (key_type ∷ (sized addr.pk ++ (sized addr.tk ++ ota_part is_new addr.ota_public)))
    else if key_type == readonly_key_type
    then ok (key_type ∷ (sized ks.readonly_key.pk ++ sized ks.readonly_key.rk))
    else if key_type == ota_key_type
    then elim (ota_public_spend c ks.ota_key) [
      | none ↦ err panic
      | some spend ↦ elim (get_ota_secret_key c ks.ota_key) [
        | none ↦ err panic
        | some secret ↦ ok (key_type ∷ (sized spend ++ sized secret))
      ]
    ]
    else err invalid_key_type

unfoldable pub serialize : Codec → Curve → KeyWallet → ℕ → Bool → Result Error (List ℕ)
serialize h c w key_type is_new = do
  b ← body c w key_type is_new
  ok (b ++ checksum_first_4_bytes h b is_new)

-- data[i]
abbrev pub byte_at : List ℕ → ℕ → Result Error ℕ
byte_at bs i = elim (get_elem? bs i) [ none ↦ err panic | some b ↦ ok b ]

-- data[lo:hi]. `spare` are the bytes of the array behind the slice, up to which Go slices again.
unfoldable pub slice : List ℕ → List ℕ → ℕ → ℕ → Result Error (List ℕ)
slice bs spare lo hi =
    if ltb (length bs + length spare) hi
    then err panic
    else ok (take (hi - lo) (drop lo (bs ++ spare)))

abbrev pub burn_address_1_bytes_decode : List ℕ
burn_address_1_bytes_decode =
    1 ∷ 32 ∷ 99 ∷ 183 ∷ 246 ∷ 161 ∷ 68 ∷ 172 ∷ 228 ∷ 222 ∷ 153 ∷ 9 ∷ 172 ∷ 39 ∷ 208 ∷ 245 ∷ 167 ∷ 79
    ∷ 11 ∷ 2 ∷ 114 ∷ 65 ∷ 241 ∷ 69 ∷ 85 ∷ 40 ∷ 193 ∷ 104 ∷ 199 ∷ 79 ∷ 70 ∷ 4 ∷ 53 ∷ 0 ∷ 0 ∷ 163
    ∷ 228 ∷ 236 ∷ 208 ∷ []

unfoldable pub init_key_set : Curve → List ℕ → Result Error KeySet
init_key_set c k = elim (init_from_private_key c k) [
  | ok ks ↦ ok ks
  | err e ↦ err invalid_private_key
]

unfoldable pub read_private : Curve → List ℕ → List ℕ → Result Error KeyWallet
read_private c bs spare = do
  fail_if (not (length bs == private_key_serialized_len)) invalid_serialized_key
  depth ← byte_at bs 1
  key_length ← byte_at bs 38
  k ← slice bs spare 39 (39 + key_length)
  ks ← init_key_set c k
  ok (record {
    depth = depth;
    child_number = take 4 (drop 2 bs);
    chain_code = take 32 (drop 6 bs);
    key_set = ks;
  })

-- Two keys with their lengths, from byte 1 on.
unfoldable pub read_two : List ℕ → List ℕ → Result Error (List ℕ × List ℕ)
read_two bs spare = do
  n ← byte_at bs 1
  m ← byte_at bs (n + 2)
  a ← slice bs spare 2 (2 + n)
  b ← slice bs spare (3 + n) (3 + n + m)
  ok (a, b)

-- The one-time key of an address behind two keys.
unfoldable pub read_third : List ℕ → List ℕ → ℕ → Result Error (List ℕ)
read_third bs spare lo = do
  o ← byte_at bs (lo + 3)
  fail_if (not (o == ed25519_key_size)) invalid_serialized_key
  slice bs spare (lo + 4) (lo + o + 4)

unfoldable pub is_address_length : List ℕ → Bool
is_address_length bs =
    same_bytes burn_address_1_bytes_decode bs
    || length bs == payment_addr_serialized_len
    || length bs == payment_addr_serialized_len + 1 + ed25519_key_size

abbrev pub with_address : List ℕ → List ℕ → Option (List ℕ) → KeyWallet
with_address pk tk ota = record no_wallet {
  key_set = record no_keys { payment_address = record { pk = pk; tk = tk; ota_public = ota } };
}

unfoldable pub read_address : List ℕ → List ℕ → Result Error KeyWallet
read_address bs spare = do
  fail_if (not (is_address_length bs)) invalid_serialized_key
  keys ← read_two bs spare
  elim (ltb payment_addr_serialized_len (length bs)) [
    | false ↦ ok (with_address keys.0 keys.1 none)
    | true ↦ do
      ota ← read_third bs spare (length keys.0 + length keys.1)
      ok (with_address keys.0 keys.1 (some ota))
  ]

-- The lengths of the read-only and of the one-time key are tested once more.
unfoldable pub read_two_of_71 : List ℕ → List ℕ → Result Error (List ℕ × List ℕ)
read_two_of_71 bs spare = do
  fail_if (not (length bs == payment_addr_serialized_len)) invalid_serialized_key
  n ← byte_at bs 1
  fail_if (ltb (length bs) (n + 3)) invalid_key_type
  read_two bs spare

unfoldable pub read_keys : Curve → ℕ → List ℕ → List ℕ → Result Error KeyWallet
read_keys c key_type bs spare =
    if key_type == private_key_type
    then read_private c bs spare
    else if key_type == payment_address_type
    then read_address bs spare
    else if key_type == readonly_key_type
    then (do
      keys ← read_two_of_71 bs spare
      ok (record no_wallet {
        key_set = record no_keys { readonly_key = record { pk = keys.0; rk = keys.1 } };
      }))
    else if key_type == ota_key_type
    then (do
      keys ← read_two_of_71 bs spare
      ok (record no_wallet {
        key_set = record no_keys { ota_key = record { pk = keys.0; ota_secret = keys.1 } };
      }))
    else err invalid_key_type

unfoldable pub has_checksum : Codec → List ℕ → Bool
has_checksum h bs =
    let front = take (length bs - 4) bs in
    let cs = drop (length bs - 4) bs in
    same_bytes (checksum_first_4_bytes h front true) cs
    || same_bytes (checksum_first_4_bytes h front false) cs

unfoldable pub deserialize : Codec → Curve → List ℕ → List ℕ → Result Error KeyWallet
deserialize h c bs spare = do
  fail_if (ltb (length bs) 2) invalid_key_type
  key_type ← byte_at bs 0
  w ← read_keys c key_type bs spare
  fail_if (not (has_checksum h bs)) invalid_checksum
  ok w

module _ {M : Type 0} (h : Codec) (lru : Lru M) (c : Curve) where
  -- Base58CheckSerialize under the AddressVersion: the text, empty after an error, and the cache of
  -- the encoder.
  unfoldable pub base58_check_serialize : M → KeyWallet → ℕ → ℕ → List ℕ × M
  base58_check_serialize cache w key_type address_version =
      let is_new = address_version == 1 in
      elim (serialize h c w key_type is_new) [
        | err e ↦ ([], cache)
        | ok bs ↦ if is_new then new_encode h lru cache bs 0 else encode h lru cache bs 0
      ]

unfoldable pub base58_check_deserialize : Codec → Curve → List ℕ → List ℕ → Result Error KeyWallet
base58_check_deserialize h c text spare = elim (decode h text) [
  | err e ↦ err undecoded
  | ok r ↦ deserialize h c r.0 spare
]
