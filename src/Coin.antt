-- ===== src/Coin.antt =====
-- coin/utils.go: the length-prefixed fields of which a serialised coin consists, and the steps of a
-- SetBytes method. `coinBytes` behind `offset` is the list of the bytes that are left.
pub mod Fields
pub mod V2
pub mod Receiver
pub mod Shard
pub mod PlainV1
pub mod V1
use go_incognito_sdk_v.Base.{
  ℕ, zero, suc, ◌+◌, ◌-◌, ◌%◌, ◌≤◌, ◌<◌, ◌≡◌, Bool, true, false, List, [], ◌∷◌, ◌++◌, Option, none,
  some, ltb, leb, ◌==◌, if◌then◌else◌, length, replicate, take, drop, Result, ok, err, ◌>>=◌, min,
}
use go_incognito_sdk_v.Crypto
use go_incognito_sdk_v.Hybrid
use go_incognito_sdk_v.Crypto.{Key, Curve, ed25519_key_size, point_from_bytes, scalar_from_bytes}

pub data Error : Type 0 where
  empty wrong_version offset_too_large out_of_range : Error
  bad_key : Crypto.Error → Error
  bad_cipher : Hybrid.Error → Error
  invalid_tx_random unknown_prefix : Error
  no_key_set no_view_key no_receiver_view commitment_mismatch invalid_private_key
        unsupported_privacy_type too_many_shards too_many_tries no_public_ota no_token_id
        missing_asset_tag unexpected_asset_tag missing_arguments not_owned no_raw_asset_tag
        unknown_token panic :
      Error

abbrev pub max_size_info_coin : ℕ
max_size_info_coin = 255

abbrev pub tx_random_group_size : ℕ
tx_random_group_size = 68

abbrev pub key_result : {A : Type 0} → Result Crypto.Error A → Result Error A
key_result (ok a) = ok a
key_result (err e) = err (bad_key e)

-- Each parser returns its value with the bytes behind it.
unfoldable pub parse_scalar_for_set_bytes : List ℕ → Result Error (Option Key × List ℕ)
parse_scalar_for_set_bytes [] = err offset_too_large
parse_scalar_for_set_bytes (len_field ∷ b) =
    if len_field == 0
    then ok (none, b)
    else if ltb (length b) len_field
    then err out_of_range
    else ok (some (scalar_from_bytes (take len_field b)), drop len_field b)

unfoldable pub parse_point_for_set_bytes : Curve → List ℕ → Result Error (Option Key × List ℕ)
parse_point_for_set_bytes c [] = err offset_too_large
parse_point_for_set_bytes c (len_field ∷ b) =
    if len_field == 0
    then ok (none, b)
    else if ltb (length b) len_field
    then err out_of_range
    else do
      point ← key_result (point_from_bytes c (take len_field b))
      ok (some point, drop len_field b)

unfoldable pub parse_info_for_set_bytes : List ℕ → Result Error (List ℕ × List ℕ)
parse_info_for_set_bytes [] = err offset_too_large
parse_info_for_set_bytes (len_field ∷ b) =
    if len_field == 0
    then ok ([], b)
    else if ltb (length b) len_field
    then err out_of_range
    else ok (take len_field b, drop len_field b)

-- What the Bytes methods append for a key: its length and its bytes, or a zero for nil.
unfoldable pub key_field : Option Key → List ℕ
key_field none = 0 ∷ []
key_field (some k) = ed25519_key_size ∷ k

unfoldable pub info_field : List ℕ → List ℕ
info_field info = let n = min (length info) max_size_info_coin in (n % 256) ∷ take (n % 256) info

-- A part of a SetBytes method: it writes to the receiver and moves on in the bytes. What was written
-- before an error stays written.
abbrev pub Step : Type 0 → Type 0
Step S = S → List ℕ → S × Result Error (List ℕ)

abbrev pub continue : {S : Type 0} → S × Result Error (List ℕ) → Step S → S × Result Error (List ℕ)
continue (s, ok rest) k = k s rest
continue (s, err e) k = (s, err e)

infixl 5 ◌>>◌
abbrev pub ◌>>◌ : {S : Type 0} → Step S → Step S → Step S
◌>>◌ m k s rest = continue (m s rest) k

-- `c.field, err = parse(&coinBytes, &offset)`: with an error the field is set to `nil_value`.
abbrev pub assign : {S X : Type 0} → (List ℕ → Result Error (X × List ℕ)) → X → (X → S → S) → Step S
assign parse nil_value set s rest = elim (parse rest) [
  | ok (x, rest') ↦ (set x s, ok rest')
  | err e ↦ (set nil_value s, err e)
]

-- The error that the method returns, if any.
abbrev pub finish : {S : Type 0} → S × Result Error (List ℕ) → S × Option Error
finish (s, ok rest) = (s, none)
finish (s, err e) = (s, some e)
