-- ===== src/Examples/Accounts.antt =====
-- Runs of the theorems on keys and receivers, over the small curve.
use mathlib.Core.Path.{subst}
use go_incognito_sdk_v.Base.{
  ◌%◌, ◌+◌, ◌*◌, ◌≤◌, ◌<◌, ◌≡◌, refl, sym, ◌∙◌, true, [], ◌∷◌, none, some, ok, ok_injective, arith,
}
use go_incognito_sdk_v.Common.{get_shard_id_from_last_byte}
use go_incognito_sdk_v.Crypto.{PedersenCommitment, scalar_from_bytes, point_from_bytes}
use go_incognito_sdk_v.Common.Hash.{same_bytes}
use go_incognito_sdk_v.Keys.{
  KeySet, PaymentAddress, init_from_private_key, generate_payment_address, generate_viewing_key,
  generate_ota_key, generate_public_key, generate_private_ota_key, get_ota_public_key,
  get_public_spend, encryption_key, generate_public_ota_key,
}
use go_incognito_sdk_v.Keys.Laws.{KeysFit, init_from_private_key-KeysFit}
use go_incognito_sdk_v.Coin.Shard.{
  ShardInfo, last_byte, split_byte, derive_shard_info_from_coin, derive_shard_info_of_eight,
}
use go_incognito_sdk_v.Coin.V2.{CoinV2, set_tx_random_detail}
use go_incognito_sdk_v.Coin.V2.Owner.{one_time_key, does_coin_belong_to_key_set}
use go_incognito_sdk_v.Coin.V2.Conceal.{ota_hash}
use go_incognito_sdk_v.Coin.Receiver.{OtaReceiver, wanted, try_indices, from_coin_params}
use go_incognito_sdk_v.Coin.Receiver.Found.{from_coin_params-found}
use go_incognito_sdk_v.Coin.Receiver.Made.{from_coin_params-belongs}
use go_incognito_sdk_v.Examples.Toy.{
  key, value, sum_bytes, is_small, toy, key-IsScalar, toy-CurveLaws,
}

abbrev address : PaymentAddress
address = record { pk = key 3; tk = key 4; ota_public = some (key 5) }

init_from_private_key-KeysFit_example :
    (ks : KeySet) × (init_from_private_key toy (key 3) ≡ ok ks)
    × KeysFit toy toy-CurveLaws (key 3) ks
init_from_private_key-KeysFit_example =
    init_from_private_key-KeysFit toy toy-CurveLaws (key 3) (key-IsScalar 3 (omega arith))

abbrev pub account : KeySet
account = record {
  private_key = key 3;
  payment_address = generate_payment_address toy (key 3);
  readonly_key = generate_viewing_key toy (key 3);
  ota_key = generate_ota_key toy (key 3);
}

account_lem : init_from_private_key toy (key 3) ≡ ok account
unfolding init_from_private_key
account_lem = refl

pub account-KeysFit : KeysFit toy toy-CurveLaws (key 3) account
account-KeysFit =
    let (ks, e, fit) =
      init_from_private_key-KeysFit toy toy-CurveLaws (key 3) (key-IsScalar 3 (omega arith)) in
    subst (λ x. KeysFit toy toy-CurveLaws (key 3) x) (ok_injective _ _ (sym e ∙ account_lem)) fit

derive_shard_info_of_eight_example :
    (i : ShardInfo) × (derive_shard_info_from_coin 8 (1 ∷ 202 ∷ []) ≡ ok i)
    × (i.sender_shard_id < 8)
    × (i.receiver_shard_id < 8)
    × (i.coin_privacy_type ≤ 1)
    × ((i.coin_privacy_type * 8 + i.sender_shard_id) * 8 + i.receiver_shard_id ≡ 202 % 128)
unfolding last_byte
derive_shard_info_of_eight_example = derive_shard_info_of_eight (1 ∷ 202 ∷ []) 202 refl

abbrev made : OtaReceiver
made = record {
  public_key =
      one_time_key toy
        (toy.scalarmult_key (toy.scalarmult_base (generate_private_ota_key toy (key 3))) (key 6)) 1
        (key 3);
  tx_random = set_tx_random_detail (toy.scalarmult_base (key 4)) (toy.scalarmult_base (key 6)) 1;
}

made_lem : from_coin_params toy 8 account.payment_address 0 0 (key 6) (key 4) ≡ ok made
unfolding from_coin_params generate_payment_address generate_public_key generate_private_ota_key
    generate_public_ota_key get_ota_public_key get_public_spend encryption_key scalar_from_bytes
    point_from_bytes is_small value sum_bytes same_bytes last_byte try_indices one_time_key ota_hash
    derive_shard_info_from_coin split_byte get_shard_id_from_last_byte
made_lem = refl

abbrev coin : CoinV2
coin = record {
  version = 2;
  info = [];
  public_key = some made.public_key;
  commitment = none;
  key_image = none;
  shared_conceal_random = none;
  shared_random = none;
  tx_random = some made.tx_random;
  mask = none;
  amount = none;
  asset_tag = none;
  raw_asset_tag = none;
}

abbrev pub generators : PedersenCommitment
generators = record { g0 = key 1; g1 = key 2; g2 = key 4; g3 = key 5; g4 = key 3 }

from_coin_params-belongs_example :
    ((does_coin_belong_to_key_set toy generators account.ota_key coin).1
      ≡ ok (
        true,
        some (
            toy.scalarmult_key
              (toy.scalarmult_base (generate_private_ota_key toy (key 3)))
              (key 6)),
      ))
    × (wanted
          (record {
            sender_shard_id = 0;
            receiver_shard_id = get_shard_id_from_last_byte 8 0;
            coin_privacy_type = 0;
          })
          (derive_shard_info_from_coin 8 made.public_key)
        ≡ true)
unfolding generate_payment_address generate_public_key last_byte scalar_from_bytes
from_coin_params-belongs_example =
    from_coin_params-belongs toy toy-CurveLaws generators 8 (key 3) account 0 0 0 (key 6) (key 4)
      made coin (key-IsScalar 3 (omega arith)) account-KeysFit (key-IsScalar 6 (omega arith))
      (key-IsScalar 4 (omega arith)) refl made_lem refl refl

from_coin_params-found_example :
    (x : OtaReceiver) × (from_coin_params toy 8 account.payment_address 0 0 (key 6) (key 4) ≡ ok x)
unfolding last_byte generate_payment_address generate_public_key split_byte
    derive_shard_info_from_coin one_time_key get_shard_id_from_last_byte scalar_from_bytes
from_coin_params-found_example =
    from_coin_params-found toy toy-CurveLaws 8 (key 3) account 0 0 0 (key 6) (key 4) 0
      account-KeysFit refl (omega arith) refl
