-- ===== src/Examples/Payments.antt =====
-- Runs of the theorems on new coins, over the small curve.
use go_incognito_sdk_v.Base.{ℕ, ◌+◌, ◌≡◌, refl, Bool, true, false, List, [], ◌∷◌, some, ok, arith}
use go_incognito_sdk_v.Common.{get_shard_id_from_last_byte}
use go_incognito_sdk_v.Common.Hash.{same_bytes}
use go_incognito_sdk_v.Crypto.{Key, d2h, d2h_loop}
use go_incognito_sdk_v.Coin.Shard.{last_byte, split_byte, derive_shard_info_from_coin}
use go_incognito_sdk_v.Coin.Receiver.{wanted}
use go_incognito_sdk_v.Coin.V2.{CoinV2, TxRandom}
use go_incognito_sdk_v.Coin.V2.Conceal.Decrypt.{IsFresh}
use go_incognito_sdk_v.Coin.V2.Owner.{one_time_key, does_coin_belong_to_key_set}
use go_incognito_sdk_v.Coin.V2.Make.{CoinParams, Randoms, target, new_coin_from_payment_info}
use go_incognito_sdk_v.Coin.V2.Make.Search.{IsHit}
use go_incognito_sdk_v.Coin.V2.Make.Paid.{
  IsPayable, shared_point, new_coin_from_payment_info-belongs,
}
use go_incognito_sdk_v.Coin.V2.Tags.{validate_asset_tag, recompute_shared_secret, new_coin_ca}
use go_incognito_sdk_v.Coin.V2.Tags.Found.{new_coin_ca-valid}
use go_incognito_sdk_v.Examples.Toy.{key, value, is_small, toy, key-IsScalar, toy-CurveLaws}
use go_incognito_sdk_v.Examples.Accounts.{account, account-KeysFit, generators}

abbrev never : List ℕ → Bool
never pk = false

abbrev payment : CoinParams
payment = record {
  payment_address = account.payment_address;
  amount = 5;
  message = 1 ∷ [];
  sender_shard_id = 0;
  coin_privacy_type = 0;
}

abbrev randoms : Randoms
randoms = record { mask = key 2; shared_random = key 6; shared_conceal_random = key 4 }

payment-IsPayable : IsPayable toy toy-CurveLaws never (key 3) account 0 payment randoms
unfolding last_byte value is_small d2h d2h_loop same_bytes
payment-IsPayable = record {
  key_scalar = key-IsScalar 3 (omega arith);
  keys = account-KeysFit;
  address = refl;
  shard_byte = refl;
  not_burning = refl;
  amount_scalar = refl;
  mask_scalar = key-IsScalar 2 (omega arith);
  random_scalar = key-IsScalar 6 (omega arith);
  conceal_scalar = key-IsScalar 4 (omega arith);
}

first-IsHit :
    IsHit toy 8
      (shared_point toy (key 3) randoms)
      (toy.scalarmult_base (key 3))
      (target 8 payment 0)
      (1 + 0)
unfolding one_time_key last_byte split_byte derive_shard_info_from_coin get_shard_id_from_last_byte
first-IsHit = refl

new_coin_from_payment_info-belongs_example :
    (s : CoinV2) × (t : TxRandom) × (pk : Key) × (new_coin_from_payment_info toy generators never 8
        payment randoms 1
      ≡ some (ok s))
    × IsFresh toy generators s (key 2) (d2h 5) (key 4) t
    × ((does_coin_belong_to_key_set toy generators account.ota_key s).1
        ≡ ok (true, some (shared_point toy (key 3) randoms)))
    × (s.public_key ≡ some pk)
    × (wanted (target 8 payment 0) (derive_shard_info_from_coin 8 pk) ≡ true)
new_coin_from_payment_info-belongs_example =
    new_coin_from_payment_info-belongs toy toy-CurveLaws generators never 8 (key 3) account 0
      payment randoms 1 0 payment-IsPayable (omega arith) (omega arith) first-IsHit

new_coin_ca-valid_example :
    (s : CoinV2) × (t : TxRandom) × (secret : Key) × (new_coin_ca toy generators never 8 payment
        randoms
        (some (7 ∷ []))
      ≡ ok (s, some secret))
    × IsFresh toy generators s (key 2) (d2h 5) (key 4) t
    × ((does_coin_belong_to_key_set toy generators account.ota_key s).1 ≡ ok (true, some secret))
    × (recompute_shared_secret toy s.tx_random (key 3) ≡ ok secret)
    × (validate_asset_tag toy generators s.asset_tag (some secret) (some (7 ∷ [])) ≡ ok true)
unfolding same_bytes
new_coin_ca-valid_example =
    new_coin_ca-valid toy toy-CurveLaws generators never 8 (key 3) account 0 payment randoms
      (7 ∷ []) 0 payment-IsPayable (omega arith) refl first-IsHit
