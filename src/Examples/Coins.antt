-- ===== src/Examples/Coins.antt =====
-- Runs of the theorems on coins, over the small curve.
use go_incognito_sdk_v.Base.{
  inl, ◌==◌, if◌then◌else◌, ℕ, List, Option, ◌≡◌, refl, true, [], ◌∷◌, none, some, ok, arith,
}
use go_incognito_sdk_v.Common.Hash.{same_bytes}
use go_incognito_sdk_v.Crypto.{
  Key, PedersenCommitment, point_from_bytes, scalar_from_bytes, is_point_equal, add_pedersen,
  commit_at_value_index,
}
use go_incognito_sdk_v.Keys.{KeySet, OtaKey, get_ota_secret_key, ota_public_spend, get_private_view}
use go_incognito_sdk_v.Coin.V2.{
  CoinV2, TxRandom, bytes, set_bytes, set_tx_random_detail, get_tx_conceal_random_point,
  get_tx_ota_random_point, get_index,
}
use go_incognito_sdk_v.Coin.V2.RoundTrip.{IsTxRandom, restored, set_bytes-bytes_coin}
use go_incognito_sdk_v.Coin.V2.Random.{set_tx_random_detail-IsTxRandom}
use go_incognito_sdk_v.Coin.V2.Conceal.{
  commitment_of, is_encrypted, is_encrypted_fields, mask_blinder, amount_blinder,
  conceal_output_coin, decrypt,
}
use go_incognito_sdk_v.Coin.V2.Conceal.Decrypt.{
  IsFresh, IsViewOnly, concealed, decrypt-conceal_output_coin,
}
use go_incognito_sdk_v.Coin.V2.Owner.{one_time_key, does_coin_belong_to_key_set}
use go_incognito_sdk_v.Coin.V2.Owner.Belongs.{does_coin_belong-one_time_key}
use go_incognito_sdk_v.Coin.V2.Tags.{blinded_tag, compute_asset_tag_blinder, get_token_id}
use go_incognito_sdk_v.Coin.V2.Tags.Token.{get_token_id-blinded_tag}
use go_incognito_sdk_v.Examples.Toy.{
  key, value, sum_bytes, is_small, toy, key-IsScalar, toy-CurveLaws,
}

abbrev generators : PedersenCommitment
generators = record { g0 = key 1; g1 = key 2; g2 = key 4; g3 = key 5; g4 = key 3 }

abbrev random : TxRandom
random = set_tx_random_detail (toy.scalarmult_base (key 4)) (toy.scalarmult_base (key 6)) 258

random_lem :
    (get_tx_conceal_random_point toy random ≡ ok (toy.scalarmult_base (key 4)))
    × (get_tx_ota_random_point toy random ≡ ok (toy.scalarmult_base (key 6)))
    × (get_index random ≡ ok 258)
    × IsTxRandom toy random
random_lem =
    set_tx_random_detail-IsTxRandom toy _ _ 258 (key-IsScalar _ (omega arith))
      (key-IsScalar _ (omega arith)) (omega arith)

-- Secret 3 and spending key 2 of the receiver; 6 and 4 are the sender's random scalars.
abbrev shared : Key
shared = toy.scalarmult_key (toy.scalarmult_base (key 3)) (key 6)

abbrev coin : CoinV2
coin = record {
  version = 2;
  info = 7 ∷ 8 ∷ 9 ∷ [];
  public_key = some (one_time_key toy shared 258 (key 2));
  commitment = some (commitment_of toy generators none (key 2) (key 3));
  key_image = none;
  shared_conceal_random = some (key 4);
  shared_random = some (key 6);
  tx_random = some random;
  mask = some (key 2);
  amount = some (key 3);
  asset_tag = none;
  raw_asset_tag = none;
}

coin-IsFresh : IsFresh toy generators coin (key 2) (key 3) (key 4) random
coin-IsFresh = record {
  mask = refl;
  amount = refl;
  commitment = refl;
  shared_conceal_random = refl;
  tx_random = refl;
  conceal_point = random_lem.0;
  mask_scalar = key-IsScalar 2 (omega arith);
  amount_scalar = key-IsScalar 3 (omega arith);
  random_scalar = key-IsScalar 4 (omega arith);
}

abbrev blank : CoinV2
blank = record {
  version = 0;
  info = [];
  public_key = none;
  commitment = none;
  key_image = none;
  shared_conceal_random = none;
  shared_random = none;
  tx_random = none;
  mask = none;
  amount = none;
  asset_tag = none;
  raw_asset_tag = some (key 1);
}

set_bytes-bytes_coin_example : set_bytes toy blank (bytes coin) ≡ (restored blank coin, none)
unfolding one_time_key commitment_of commit_at_value_index add_pedersen
set_bytes-bytes_coin_example = set_bytes-bytes_coin toy coin blank random (record {
  tx_random = refl;
  tx_random_sound = random_lem.3;
  public_key = key-IsScalar _ (omega arith);
  commitment = key-IsScalar _ (omega arith);
  key_image = tt;
  asset_tag = tt;
  shared_random = refl;
  shared_conceal_random = refl;
  mask = refl;
  amount = refl;
})

abbrev viewer : ℕ → KeySet
viewer v = record {
  private_key = [];
  payment_address = record { pk = key 2; tk = key v; ota_public = some (key 3) };
  readonly_key = record { pk = key 2; rk = key v };
  ota_key = record { pk = key 2; ota_secret = key 3 };
}

viewer-IsViewOnly : (v : ℕ) → IsViewOnly (viewer v) (key v)
unfolding get_private_view scalar_from_bytes
viewer-IsViewOnly v = record { no_private_key = refl; has_view_key = refl; view = refl }

abbrev hidden : CoinV2
hidden = concealed toy (toy.scalarmult_base (key 5)) coin (key 2) (key 3) (key 4)

hidden_lem : is_encrypted toy generators hidden ≡ ok true
unfolding is_encrypted is_encrypted_fields mask_blinder amount_blinder commitment_of
    commit_at_value_index add_pedersen is_point_equal same_bytes value sum_bytes
hidden_lem = refl

decrypt-conceal_output_coin_example :
    decrypt toy generators
      (some (viewer 5))
      (conceal_output_coin toy generators (some (toy.scalarmult_base (key 5))) coin).0
    ≡ (record coin { shared_conceal_random = none; shared_random = none }, none)
decrypt-conceal_output_coin_example =
    decrypt-conceal_output_coin toy toy-CurveLaws generators coin (key 2) (key 3) (key 4) (key 5)
      random (viewer 5) coin-IsFresh (key-IsScalar 5 (omega arith)) (viewer-IsViewOnly 5) hidden_lem

abbrev ota_key : OtaKey
ota_key = record { pk = key 2; ota_secret = key 3 }

ota_key_lem :
    (get_ota_secret_key toy ota_key ≡ some (key 3)) × (ota_public_spend toy ota_key ≡ some (key 2))
unfolding get_ota_secret_key ota_public_spend scalar_from_bytes point_from_bytes is_small value
    same_bytes
ota_key_lem = (refl, refl)

does_coin_belong-one_time_key_example :
    (does_coin_belong_to_key_set toy generators ota_key coin).1 ≡ ok (true, some shared)
does_coin_belong-one_time_key_example =
    does_coin_belong-one_time_key toy toy-CurveLaws generators coin ota_key (key 3) (key 2) (key 6)
      (key 4) 258 (key-IsScalar 3 (omega arith)) (key-IsScalar 6 (omega arith))
      (key-IsScalar 4 (omega arith)) (key-IsScalar 2 (omega arith)) (omega arith) ota_key_lem.0
      ota_key_lem.1 refl refl

-- The token 3 has the point 3; its blinded tag is 5.
abbrev tokens : Key → Option (List ℕ)
tokens tag = if value tag == 3 then some (3 ∷ []) else none

abbrev token_coin : CoinV2
token_coin = record coin { asset_tag = some (blinded_tag toy generators shared (3 ∷ [])) }

get_token_id-blinded_tag_example :
    get_token_id toy generators ota_key tokens token_coin ≡ ok (3 ∷ [])
unfolding value sum_bytes blinded_tag compute_asset_tag_blinder
get_token_id-blinded_tag_example =
    get_token_id-blinded_tag toy toy-CurveLaws generators token_coin ota_key (key 3) (key 2) (key 6)
      (key 4) 258 (3 ∷ []) tokens (key-IsScalar 3 (omega arith)) (key-IsScalar 3 (omega arith))
      (key-IsScalar 6 (omega arith)) (key-IsScalar 4 (omega arith)) (key-IsScalar 2 (omega arith))
      (omega arith) ota_key_lem.0 ota_key_lem.1 refl refl (inl refl) refl refl refl
