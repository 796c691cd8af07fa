-- ===== src/Coin/V2/Tags.antt =====
-- coin/coin_v2_ca.go: the asset tags of confidential assets, and NewCoinCA; GetTokenId of
-- coin/coin_v2.go. A hash is a list of bytes.
pub mod Found
pub mod Token
use go_incognito_sdk_v.Base.{
  ℕ, Bool, true, false, not, ◌||◌, List, [], ◌∷◌, ◌++◌, Option, none, some, if◌then◌else◌,
  replicate, Result, ok, err, ◌==◌, ◌>>=◌, ◌>>◌, fail_if,
}
use go_incognito_sdk_v.Common.Hash.{same_bytes}
use go_incognito_sdk_v.Crypto.{
  Key, Curve, PedersenCommitment, point_from_bytes, is_point_equal, scalar_from_bytes,
}
use go_incognito_sdk_v.Keys.{OtaKey, get_ota_public_key, get_public_spend, generate_private_ota_key}
use go_incognito_sdk_v.Coin.{
  Error, panic, key_result, no_public_ota, too_many_tries, no_token_id, missing_asset_tag,
  unexpected_asset_tag, missing_arguments, not_owned, no_raw_asset_tag, unknown_token,
}
use go_incognito_sdk_v.Coin.Shard.{last_byte}
use go_incognito_sdk_v.Coin.Receiver.{max_tries_ota}
use go_incognito_sdk_v.Coin.V2.{CoinV2, TxRandom, get_tx_ota_random_point}
use go_incognito_sdk_v.Coin.V2.Conceal.{compute_commitment_ca, or_panic}
use go_incognito_sdk_v.Coin.V2.Owner.{asset_tag_string, does_coin_belong_to_key_set}
use go_incognito_sdk_v.Coin.V2.Make.{
  CoinParams, Randoms, prepared, find_index, with_one_time_key, target,
}

-- common.PRVCoinID
abbrev pub prv_coin_id : List ℕ
prv_coin_id = 4 ∷ replicate 31 0

-- ComputeAssetTagBlinder of a secret that is not nil
unfoldable pub compute_asset_tag_blinder : Curve → Key → Key
compute_asset_tag_blinder c secret = c.hash_to_scalar (secret ++ asset_tag_string)

-- The asset tag of a token: its point and a blinder times the generator of the randomness.
unfoldable pub blinded_tag : Curve → PedersenCommitment → Key → List ℕ → Key
unfolding compute_asset_tag_blinder
blinded_tag c pcm secret token_id =
    c.add_keys (c.hash_to_point token_id)
      (c.scalarmult_key pcm.g4 (compute_asset_tag_blinder c secret))

abbrev is_prv : Option (List ℕ) → Bool
is_prv none = true
is_prv (some token_id) = same_bytes token_id prv_coin_id

abbrev tag_matches : Curve → PedersenCommitment → Key → Option Key → List ℕ → Result Error Bool
tag_matches c pcm tag secret token_id =
    if is_point_equal (c.hash_to_point token_id) tag then ok true else elim secret [
      | none ↦ err missing_arguments
      | some x ↦ ok (is_point_equal (blinded_tag c pcm x token_id) tag)
    ]

-- ValidateAssetTag, by the coin's tag, the shared secret and the token
unfoldable pub validate_asset_tag :
    Curve → PedersenCommitment → Option Key → Option Key → Option (List ℕ) → Result Error Bool
validate_asset_tag c pcm none secret token_id =
    if is_prv token_id then ok true else err missing_asset_tag
validate_asset_tag c pcm (some tag) secret none = err unexpected_asset_tag
validate_asset_tag c pcm (some tag) secret (some token_id) =
    if is_prv (some token_id)
    then err unexpected_asset_tag
    else tag_matches c pcm tag secret token_id

-- RecomputeSharedSecret; a nil TxRandom panics.
unfoldable pub recompute_shared_secret : Curve → Option TxRandom → List ℕ → Result Error Key
recompute_shared_secret c tx_random private_key = do
  t ← or_panic tx_random
  ota ← get_tx_ota_random_point c t
  ok (c.scalarmult_key ota (scalar_from_bytes (generate_private_ota_key c private_key)))

-- The method ComputeCommitmentCA on the coin's fields: a nil tag panics in the multiplication.
unfoldable pub coin_commitment_ca : Curve → PedersenCommitment → CoinV2 → Result Error Key
coin_commitment_ca c pcm s = elim s.mask [
  | none ↦ err missing_arguments
  | some mask ↦ elim s.amount [
    | none ↦ err missing_arguments
    | some amount ↦ or_panic s.asset_tag >>= λ tag. ok (compute_commitment_ca c pcm tag mask amount)
  ]
]

-- SetAssetTag, ComputeCommitmentCA and SetCommitment
unfoldable pub with_asset_tag : Curve → PedersenCommitment → Key → CoinV2 → Result Error CoinV2
with_asset_tag c pcm tag s = do
  commitment ← coin_commitment_ca c pcm (record s { asset_tag = some tag })
  ok (record s { asset_tag = some tag; commitment = some commitment })

-- SetPlainTokenID: a nil token panics.
unfoldable pub set_plain_token_id :
    Curve → PedersenCommitment → Option (List ℕ) → CoinV2 → Result Error CoinV2
set_plain_token_id c pcm none s = err panic
set_plain_token_id c pcm (some token_id) s = with_asset_tag c pcm (c.hash_to_point token_id) s

abbrev Made : Type 0
Made = CoinV2 × Option Key

-- The round of the loop that finds an index.
abbrev pub found_coin_ca :
    Curve
    → PedersenCommitment
    → Key
    → Key
    → Randoms
    → Option (List ℕ)
    → CoinV2
    → Option ℕ
    → Result Error Made
found_coin_ca c pcm rk spend rnd token_id s none = err too_many_tries
found_coin_ca c pcm rk spend rnd none s (some index) = err no_token_id
found_coin_ca c pcm rk spend rnd (some token_id) s (some index) = do
  made ←
      with_asset_tag c pcm (blinded_tag c pcm rk token_id)
        (with_one_time_key c rk spend rnd index s)
  ok (made, some rk)

abbrev pub search_coin_ca :
    Curve
    → PedersenCommitment
    → ℕ
    → CoinParams
    → Randoms
    → Option (List ℕ)
    → ℕ
    → Option Key
    → Option Key
    → Result Error Made
search_coin_ca c pcm num_shards p rnd token_id b none spend = err no_public_ota
search_coin_ca c pcm num_shards p rnd token_id b (some ota) none = err panic
search_coin_ca c pcm num_shards p rnd token_id b (some ota) (some spend) =
    let rk = c.scalarmult_key ota rnd.shared_random in
    found_coin_ca c pcm rk spend rnd token_id (prepared c p rnd)
      (find_index c num_shards rk spend (target num_shards p b) max_tries_ota 0)

-- NewCoinCA: the coin, and the shared secret unless the coin is burned.
unfoldable pub new_coin_ca :
    Curve
    → PedersenCommitment
    → (List ℕ → Bool)
    → ℕ
    → CoinParams
    → Randoms
    → Option (List ℕ)
    → Result Error (CoinV2 × Option Key)
new_coin_ca c pcm is_burning num_shards p rnd token_id = do
  pk ← key_result (point_from_bytes c p.payment_address.pk)
  b ← or_panic (last_byte pk)
  fail_if (num_shards == 0) panic
  (if is_burning p.payment_address.pk
      then (set_plain_token_id c pcm token_id (record (prepared c p rnd) { public_key = some pk })
          >>= λ s. ok (s, none))
      else search_coin_ca c pcm num_shards p rnd token_id b (get_ota_public_key c p.payment_address)
          (get_public_spend c p.payment_address))

abbrev found_or : Error → Option (List ℕ) → Result Error (List ℕ)
found_or e none = err e
found_or e (some token_id) = ok token_id

-- The end of GetTokenId: what DoesCoinBelongToKeySet leaves of the coin is looked up.
abbrev pub looked_up :
    (Key → Option (List ℕ)) → CoinV2 × Result Error (Bool × Option Key) → Result Error (List ℕ)
looked_up table (s, err e) = err e
looked_up table (s, ok (false, secret)) = err not_owned
looked_up table (s, ok (true, secret)) = elim s.raw_asset_tag [
  | none ↦ err no_raw_asset_tag
  | some raw ↦ found_or unknown_token (table raw)
]

-- GetTokenId without a raw asset tag that the table knows: PRV, a tag that is not blinded, or one
-- whose blinder the keys of the owner take off.
unfoldable pub token_of_tag :
    Curve → PedersenCommitment → OtaKey → (Key → Option (List ℕ)) → CoinV2 → Result Error (List ℕ)
token_of_tag c pcm k table s = elim s.asset_tag [
  | none ↦ ok prv_coin_id
  | some tag ↦ elim (table tag) [
    | some token_id ↦ ok token_id
    | none ↦ looked_up table (does_coin_belong_to_key_set c pcm k s)
  ]
]

-- GetTokenId; the table maps raw asset tags to tokens.
unfoldable pub get_token_id :
    Curve → PedersenCommitment → OtaKey → (Key → Option (List ℕ)) → CoinV2 → Result Error (List ℕ)
get_token_id c pcm k table s = elim s.raw_asset_tag [
  | none ↦ token_of_tag c pcm k table s
  | some raw ↦ elim (table raw) [
    | some token_id ↦ ok token_id
    | none ↦ token_of_tag c pcm k table s
  ]
]
