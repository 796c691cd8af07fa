-- ===== src/Coin/V2/Make.antt =====
-- coin/utils.go: new coins for a payment. The random scalars and
-- wallet.IsPublicKeyBurningAddress are arguments.
pub mod Search
pub mod Paid
use go_incognito_sdk_v.Base.{
  ℕ, zero, suc, ◌+◌, ◌%◌, ◌^◌, ◌≤◌, ◌<◌, Bool, true, false, List, [], ◌∷◌, ◌++◌, Option, none, some,
  if◌then◌else◌, ◌==◌, ◌>>◌, fail_if, replicate, Result, ok, err, ◌>>=◌,
}
use go_incognito_sdk_v.Common.{get_shard_id_from_last_byte}
use go_incognito_sdk_v.Common.Hash.{same_bytes}
use go_incognito_sdk_v.Crypto.{
  Key, Curve, PedersenCommitment, point_from_bytes, from_uint64, is_point_equal,
  commit_at_value_index, scalar_from_bytes,
}
use go_incognito_sdk_v.Keys.{
  PaymentAddress, get_ota_public_key, get_public_spend, generate_private_ota_key,
}
use go_incognito_sdk_v.Coin.{
  Error, panic, key_result, no_public_ota, too_many_tries, no_token_id, missing_asset_tag,
  unexpected_asset_tag,
}
use go_incognito_sdk_v.Coin.Shard.{
  ShardInfo, last_byte, derive_shard_info_from_coin, privacy_type_mint,
}
use go_incognito_sdk_v.Coin.Receiver.{wanted, max_tries_ota}
use go_incognito_sdk_v.Coin.V2.{
  CoinV2, TxRandom, new_tx_random, set_tx_random_detail, get_tx_ota_random_point,
}
use go_incognito_sdk_v.Coin.V2.Conceal.{compute_commitment_ca, or_panic}
use go_incognito_sdk_v.Coin.V2.Owner.{one_time_key, asset_tag_string}

-- CoinParams, with the fields of key.PaymentInfo
pub record CoinParams : Type 0 where
  pub payment_address : PaymentAddress
  pub amount : ℕ
  pub message : List ℕ
  pub sender_shard_id : ℕ
  pub coin_privacy_type : ℕ

-- The shard of an address; an empty key panics, and so do no shards.
unfoldable pub address_shard : ℕ → PaymentAddress → Result Error ℕ
address_shard num_shards addr = do
  b ← or_panic (last_byte addr.pk)
  fail_if (num_shards == 0) panic
  ok (get_shard_id_from_last_byte num_shards b)

-- NewTransferCoinParams: the sender's shard may be given.
unfoldable pub new_transfer_coin_params :
    ℕ → PaymentAddress → ℕ → List ℕ → List ℕ → Result Error CoinParams
new_transfer_coin_params num_shards addr amount message (shard ∷ rest) = ok (record {
  payment_address = addr;
  amount = amount;
  message = message;
  sender_shard_id = shard;
  coin_privacy_type = 0;
})
new_transfer_coin_params num_shards addr amount message [] = do
  shard ← address_shard num_shards addr
  ok (record {
    payment_address = addr;
    amount = amount;
    message = message;
    sender_shard_id = shard;
    coin_privacy_type = 0;
  })

-- NewMintCoinParams
unfoldable pub new_mint_coin_params : ℕ → PaymentAddress → ℕ → List ℕ → Result Error CoinParams
new_mint_coin_params num_shards addr amount message = do
  shard ← address_shard num_shards addr
  ok (record {
    payment_address = addr;
    amount = amount;
    message = message;
    sender_shard_id = shard;
    coin_privacy_type = privacy_type_mint;
  })

-- The three random scalars of a new coin.
pub record Randoms : Type 0 where
  pub mask : Key
  pub shared_random : Key
  pub shared_conceal_random : Key

-- CoinV2.Init; `new(crypto.Scalar)` has a zero key.
unfoldable pub init : Curve → CoinV2
init c = record {
  version = 2;
  info = [];
  public_key = some c.identity;
  commitment = some c.identity;
  key_image = some c.identity;
  shared_conceal_random = none;
  shared_random = some (replicate 32 0);
  tx_random = some (new_tx_random c);
  mask = some (replicate 32 0);
  amount = some (replicate 32 0);
  asset_tag = none;
  raw_asset_tag = none;
}

-- The setters at the start of both functions.
unfoldable pub prepared : Curve → CoinParams → Randoms → CoinV2
unfolding init
prepared c p rnd = record (init c) {
  amount = from_uint64 c p.amount;
  mask = some rnd.mask;
  shared_random = some rnd.shared_random;
  shared_conceal_random = some rnd.shared_conceal_random;
  info = p.message;
}

-- The loop over the indices: `tries` rounds are left, and a uint32 wraps.
unfoldable pub find_index : Curve → ℕ → Key → Key → ShardInfo → ℕ → ℕ → Option ℕ
find_index c num_shards rk spend w zero index = none
find_index c num_shards rk spend w (suc tries) index =
    let next = (index + 1) % 2 ^ 32 in
    let rest = find_index c num_shards rk spend w tries next in
    if wanted w (derive_shard_info_from_coin num_shards (one_time_key c rk next spend))
    then some next
    else rest

-- The public key and the TxRandom that the loop ends with.
unfoldable pub with_one_time_key : Curve → Key → Key → Randoms → ℕ → CoinV2 → CoinV2
with_one_time_key c rk spend rnd index s = record s {
  public_key = some (one_time_key c rk index spend);
  tx_random = some (
      set_tx_random_detail (c.scalarmult_base rnd.shared_conceal_random)
        (c.scalarmult_base rnd.shared_random) index);
}

abbrev pub target : ℕ → CoinParams → ℕ → ShardInfo
target num_shards p b = record {
  sender_shard_id = p.sender_shard_id;
  receiver_shard_id = get_shard_id_from_last_byte num_shards b;
  coin_privacy_type = p.coin_privacy_type;
}

-- The address of the payment: the parsed key, the shard that is aimed at and the commitment, whose
-- nil amount would panic.
unfoldable pub committed : Curve → PedersenCommitment → CoinParams → Randoms → Result Error CoinV2
committed c pcm p rnd = do
  amount ← or_panic (from_uint64 c p.amount)
  ok (record (prepared c p rnd) { commitment = some (commit_at_value_index c pcm amount rnd.mask) })

abbrev pub found_coin :
    Curve → Key → Key → Randoms → CoinV2 → Option ℕ → Option (Result Error CoinV2)
found_coin c rk spend rnd s none = none
found_coin c rk spend rnd s (some index) = some (ok (with_one_time_key c rk spend rnd index s))

abbrev pub search_coin :
    Curve
    → ℕ
    → CoinParams
    → Randoms
    → ℕ
    → ℕ
    → CoinV2
    → Option Key
    → Option Key
    → Option (Result Error CoinV2)
search_coin c num_shards p rnd tries b s none spend = some (err no_public_ota)
search_coin c num_shards p rnd tries b s (some ota) none = some (err panic)
search_coin c num_shards p rnd tries b s (some ota) (some spend) =
    let rk = c.scalarmult_key ota rnd.shared_random in
    found_coin c rk spend rnd s (find_index c num_shards rk spend (target num_shards p b) tries 0)

abbrev pub head_of_payment :
    Curve → PedersenCommitment → ℕ → CoinParams → Randoms → Result Error (Key × ℕ × CoinV2)
head_of_payment c pcm num_shards p rnd = do
  pk ← key_result (point_from_bytes c p.payment_address.pk)
  b ← or_panic (last_byte pk)
  fail_if (num_shards == 0) panic
  s ← committed c pcm p rnd
  ok (pk, b, s)

-- NewCoinFromPaymentInfo. Its loop has no bound: `none` says that it is still searching after `tries`
-- rounds.
unfoldable pub new_coin_from_payment_info :
    Curve
    → PedersenCommitment
    → (List ℕ → Bool)
    → ℕ
    → CoinParams
    → Randoms
    → ℕ
    → Option (Result Error CoinV2)
new_coin_from_payment_info c pcm is_burning num_shards p rnd tries =
    elim (head_of_payment c pcm num_shards p rnd) [
      | err e ↦ some (err e)
      | ok (pk, b, s) ↦
          if is_burning p.payment_address.pk
          then some (ok (record s { public_key = some pk }))
          else search_coin c num_shards p rnd tries b s (get_ota_public_key c p.payment_address)
              (get_public_spend c p.payment_address)
    ]
