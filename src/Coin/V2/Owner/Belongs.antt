-- ===== src/Coin/V2/Owner/Belongs.antt =====
-- DoesCoinBelongToKeySet of coin/coin_v2.go, for coins made for the key set.
use go_incognito_sdk_v.Base.{ℕ, ◌≡◌, ap, true, some, ok}
use go_incognito_sdk_v.Base.Bytes.{IsU32}
use go_incognito_sdk_v.Common.Hash.Order.{same_bytes_refl}
use go_incognito_sdk_v.Crypto.{Key, Curve, PedersenCommitment, is_point_equal}
use go_incognito_sdk_v.Crypto.Laws.{IsPoint, IsScalar, CurveLaws}
use go_incognito_sdk_v.Keys.{OtaKey, get_ota_secret_key, ota_public_spend}
use go_incognito_sdk_v.Coin.V2.{CoinV2, set_tx_random_detail, get_tx_random_detail}
use go_incognito_sdk_v.Coin.V2.Random.{set_tx_random_detail-IsTxRandom}
use go_incognito_sdk_v.Coin.V2.Conceal.{ota_hash}
use go_incognito_sdk_v.Coin.V2.Owner.{
  one_time_key, belongs_with, with_raw_asset_tag, does_coin_belong_to_key_set,
}

module _ (c : Curve) (laws : CurveLaws c) (pcm : PedersenCommitment) where
  -- A detail that was set is got.
  get_tx_random_detail-set :
      (conceal ota : Key) (index : ℕ)
      → IsPoint c conceal
      → IsPoint c ota
      → IsU32 index
      → get_tx_random_detail c (set_tx_random_detail conceal ota index) ≡ ok (conceal, ota, index)
  unfolding get_tx_random_detail
  get_tx_random_detail-set conceal ota index hc ho hi =
      let (pc, po, pi, _) = set_tx_random_detail-IsTxRandom c conceal ota index hc ho hi in
      rw (po, pc, pi)

  check-one_time_key :
      (rk spend : Key) (index : ℕ)
      → IsPoint c spend
      → c.sub_keys (one_time_key c rk index spend) (c.scalarmult_base (ota_hash c rk index)) ≡ spend
  unfolding one_time_key ota_hash
  check-one_time_key rk spend index h =
      laws.sub_keys-add_keys _ spend
        (laws.scalarmult_base-IsPoint _ (laws.hash_to_scalar-IsScalar _)) h

  -- The whole answer: the coin with its raw asset tag, and the shared point.
  pub does_coin_belong-whole :
      (s : CoinV2) (k : OtaKey) (secret spend r cr : Key) (index : ℕ)
      → IsScalar c secret
      → IsScalar c r
      → IsScalar c cr
      → IsPoint c spend
      → IsU32 index
      → get_ota_secret_key c k ≡ some secret
      → ota_public_spend c k ≡ some spend
      → s.public_key
        ≡ some (one_time_key c (c.scalarmult_key (c.scalarmult_base secret) r) index spend)
      → s.tx_random ≡ some (set_tx_random_detail (c.scalarmult_base cr) (c.scalarmult_base r) index)
      → does_coin_belong_to_key_set c pcm k s ≡ (
        with_raw_asset_tag c pcm
            (c.scalarmult_key (c.scalarmult_base secret) r)
            s.asset_tag
            s.raw_asset_tag
            s,
        ok (true, some (c.scalarmult_key (c.scalarmult_base secret) r)),
      )
  unfolding does_coin_belong_to_key_set belongs_with is_point_equal
  does_coin_belong-whole s k secret spend r cr index hs hr hc hp hi es ep epk et =
      let d =
        get_tx_random_detail-set _ _ index (laws.scalarmult_base-IsPoint cr hc)
          (laws.scalarmult_base-IsPoint r hr) hi in
      let shared = laws.shared_secret secret r hs hr in
      rw et (
        rw d (
          rw (es, ep, epk)
            (rw shared (rw (check-one_time_key _ spend index hp) (rw (same_bytes_refl spend))))))

  -- A coin with the one-time key and the TxRandom that a sender made for a one-time public key and a
  -- spending key belongs to the key set that holds the secrets, and gives the sender's shared point.
  pub does_coin_belong-one_time_key :
      (s : CoinV2) (k : OtaKey) (secret spend r cr : Key) (index : ℕ)
      → IsScalar c secret
      → IsScalar c r
      → IsScalar c cr
      → IsPoint c spend
      → IsU32 index
      → get_ota_secret_key c k ≡ some secret
      → ota_public_spend c k ≡ some spend
      → s.public_key
        ≡ some (one_time_key c (c.scalarmult_key (c.scalarmult_base secret) r) index spend)
      → s.tx_random ≡ some (set_tx_random_detail (c.scalarmult_base cr) (c.scalarmult_base r) index)
      → (does_coin_belong_to_key_set c pcm k s).1
        ≡ ok (true, some (c.scalarmult_key (c.scalarmult_base secret) r))
  does_coin_belong-one_time_key s k secret spend r cr index hs hr hc hp hi es ep epk et =
      ap (λ x. x.1) (does_coin_belong-whole s k secret spend r cr index hs hr hc hp hi es ep epk et)
