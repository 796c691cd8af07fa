-- ===== src/Keys.antt =====
-- key/key.go and key/keyset.go: the keys of an account and how they follow from its private key.
-- A key that Go keeps in a slice is a list of bytes; nil and the empty slice are the empty list.
pub mod Laws
use go_incognito_sdk_v.Base.{
  ℕ, zero, suc, ◌+◌, ◌-◌, ◌*◌, ◌≤◌, ◌<◌, ◌≡◌, Bool, true, false, not, ◌&&◌, List, [], ◌∷◌, ◌++◌,
  Option, none, some, ltb, leb, ◌==◌, if◌then◌else◌, length, take, drop, Result, ok, err, ◌>>=◌,
}
use go_incognito_sdk_v.Crypto.{Key, Curve, ed25519_key_size, point_from_bytes, scalar_from_bytes}

pub data Error : Type 0 where
  invalid_private_key invalid_address_length : Error

pub record ViewingKey : Type 0 where
  pub pk : List ℕ
  pub rk : List ℕ

pub record OtaKey : Type 0 where
  pub pk : List ℕ
  pub ota_secret : List ℕ

-- `ota_public` is nil in an address of version 1.
pub record PaymentAddress : Type 0 where
  pub pk : List ℕ
  pub tk : List ℕ
  pub ota_public : Option (List ℕ)

pub record KeySet : Type 0 where
  pub private_key : List ℕ
  pub payment_address : PaymentAddress
  pub readonly_key : ViewingKey
  pub ota_key : OtaKey

-- FromBytesS with the error dropped: nil unless it succeeds.
abbrev pub point_or_nil : Curve → List ℕ → Option Key
point_or_nil c b = elim (point_from_bytes c b) [ ok p ↦ some p | err e ↦ none ]

unfoldable pub get_private_view : ViewingKey → Key
get_private_view view_key = scalar_from_bytes view_key.rk

-- OTAKey.GetPublicSpend: FromBytesS has tested the point already.
unfoldable pub ota_public_spend : Curve → OtaKey → Option Key
ota_public_spend c k = elim (point_or_nil c k.pk) [
  | none ↦ none
  | some p ↦ if c.point_valid p then some p else none
]

unfoldable pub get_ota_secret_key : Curve → OtaKey → Option Key
get_ota_secret_key c k =
    let s = scalar_from_bytes k.ota_secret in if c.sc_valid s then some s else none

unfoldable pub bytes : PaymentAddress → List ℕ
bytes addr = elim addr.ota_public [
  | none ↦ addr.pk ++ addr.tk
  | some ota ↦ (addr.pk ++ addr.tk) ++ ota
]

unfoldable pub set_bytes : List ℕ → Result Error PaymentAddress
set_bytes b =
    if not (length b == 2 * ed25519_key_size) && not (length b == 3 * ed25519_key_size)
    then err invalid_address_length
    else ok (record {
      pk = take ed25519_key_size b;
      tk = take ed25519_key_size (drop ed25519_key_size b);
      ota_public =
          if length b == 3 * ed25519_key_size then some (drop (2 * ed25519_key_size) b) else none;
    })

unfoldable pub get_public_spend : Curve → PaymentAddress → Option Key
get_public_spend c addr = point_or_nil c addr.pk

unfoldable pub get_public_view : Curve → PaymentAddress → Option Key
get_public_view c addr = point_or_nil c addr.tk

unfoldable pub encryption_key : Curve → Option (List ℕ) → Option Key
encryption_key c none = none
encryption_key c (some []) = none
encryption_key c (some (b ∷ bs)) = point_or_nil c (b ∷ bs)

unfoldable pub get_ota_public_key : Curve → PaymentAddress → Option Key
get_ota_public_key c addr = encryption_key c addr.ota_public

unfoldable pub generate_private_key : Curve → List ℕ → List ℕ
generate_private_key c seed = c.hash_to_scalar seed

unfoldable pub generate_public_key : Curve → List ℕ → List ℕ
generate_public_key c private_key = c.scalarmult_base (scalar_from_bytes private_key)

unfoldable pub generate_receiving_key : Curve → List ℕ → List ℕ
generate_receiving_key c private_key = c.hash_to_scalar private_key

unfoldable pub generate_transmission_key : Curve → List ℕ → List ℕ
generate_transmission_key c receiving_key = c.scalarmult_base (scalar_from_bytes receiving_key)

unfoldable pub generate_viewing_key : Curve → List ℕ → ViewingKey
unfolding generate_public_key generate_receiving_key
generate_viewing_key c k = record { pk = generate_public_key c k; rk = generate_receiving_key c k }

-- CStringOTA, "onetimeaddress"
abbrev pub c_string_ota : List ℕ
c_string_ota =
    b'o' ∷ b'n' ∷ b'e' ∷ b't' ∷ b'i' ∷ b'm' ∷ b'e' ∷ b'a' ∷ b'd' ∷ b'd' ∷ b'r' ∷ b'e' ∷ b's' ∷ b's'
    ∷ []

unfoldable pub generate_private_ota_key : Curve → List ℕ → List ℕ
generate_private_ota_key c private_key = c.hash_to_scalar (private_key ++ c_string_ota)

unfoldable pub generate_public_ota_key : Curve → List ℕ → List ℕ
generate_public_ota_key c private_ota_key = c.scalarmult_base (scalar_from_bytes private_ota_key)

unfoldable pub generate_ota_key : Curve → List ℕ → OtaKey
unfolding generate_public_key generate_private_ota_key
generate_ota_key c k = record {
  pk = generate_public_key c k;
  ota_secret = generate_private_ota_key c k;
}

unfoldable pub generate_payment_address : Curve → List ℕ → PaymentAddress
unfolding generate_public_key generate_receiving_key generate_transmission_key
    generate_private_ota_key generate_public_ota_key
generate_payment_address c k = record {
  pk = generate_public_key c k;
  tk = generate_transmission_key c (generate_receiving_key c k);
  ota_public = some (generate_public_ota_key c (generate_private_ota_key c k));
}

abbrev pub key_set : Curve → List ℕ → KeySet
key_set c k = record {
  private_key = k;
  payment_address = generate_payment_address c k;
  readonly_key = generate_viewing_key c k;
  ota_key = generate_ota_key c k;
}

-- KeySet.GenerateKey
unfoldable pub generate_key : Curve → List ℕ → KeySet
unfolding generate_private_key generate_payment_address generate_viewing_key generate_ota_key
generate_key c seed = key_set c (generate_private_key c seed)

-- InitFromPrivateKeyByte and InitFromPrivateKey
unfoldable pub init_from_private_key : Curve → List ℕ → Result Error KeySet
unfolding generate_payment_address generate_viewing_key generate_ota_key
init_from_private_key c private_key =
    if not (length private_key == ed25519_key_size)
    then err invalid_private_key
    else ok (key_set c private_key)
