-- ===== src/Coin/Receiver/Made.antt =====
-- The receivers of OTAReceiver.FromCoinParams of coin/receiver.go, and their bytes.
use mathlib.Core.Path.{subst}
use go_incognito_sdk_v.Base.{
  ℕ, zero, suc, ◌+◌, ◌≤◌, ◌≡◌, refl, ap, ok_injective, ◌∙◌, true, false, List, ◌++◌, some, ok,
  arith, err, ◌==◌, Bool-cases, inl, inr, ltb, length, length-append, take-append, drop-append,
}
use go_incognito_sdk_v.Common.{get_shard_id_from_last_byte}
use go_incognito_sdk_v.Crypto.{Key, Curve, PedersenCommitment}
use go_incognito_sdk_v.Crypto.Laws.{IsPoint, IsScalar, CurveLaws}
use go_incognito_sdk_v.Keys.{KeySet, generate_private_ota_key}
use go_incognito_sdk_v.Keys.Laws.{KeysFit, point_from_bytes-IsPoint}
use go_incognito_sdk_v.Coin.{panic}
use go_incognito_sdk_v.Coin.Shard.{ShardInfo, last_byte, derive_shard_info_from_coin}
use go_incognito_sdk_v.Coin.V2.{CoinV2, set_tx_random_detail}
use go_incognito_sdk_v.Coin.V2.RoundTrip.{IsTxRandom, tx_random_read}
use go_incognito_sdk_v.Coin.V2.Owner.{one_time_key, does_coin_belong_to_key_set}
use go_incognito_sdk_v.Coin.V2.Owner.Belongs.{does_coin_belong-one_time_key}
use go_incognito_sdk_v.Coin.Receiver.{
  OtaReceiver, bytes, set_bytes, wanted, try_indices, from_coin_params, max_tries_ota,
}

-- What a successful search for an index leaves behind.
pub record IsMade (c : Curve) (n : ℕ) (rk spend r cr : Key) (w : ShardInfo) (top : ℕ)
    (x : OtaReceiver) : Type 0 where
  pub index : ℕ
  pub bound : index ≤ top
  pub key : x.public_key ≡ one_time_key c rk index spend
  pub random : x.tx_random ≡ set_tx_random_detail (c.scalarmult_base cr) (c.scalarmult_base r) index
  pub shards : wanted w (derive_shard_info_from_coin n x.public_key) ≡ true

module _ (c : Curve) (n : ℕ) (rk spend r cr : Key) (w : ShardInfo) where
  try_indices-IsMade :
      (tries index : ℕ) (x : OtaReceiver)
      → try_indices c n rk spend r cr w tries index ≡ ok x
      → IsMade c n rk spend r cr w (index + tries) x
  unfolding try_indices
  try_indices-IsMade zero index x h = cc
  try_indices-IsMade (suc tries) index x h =
      elim (Bool-cases
        (wanted w (derive_shard_info_from_coin n (one_time_key c rk (index + 1) spend)))) [
          | inl e ↦
              let found = ok_injective _ _ (rw e at h) in
              subst (λ y. IsMade c n rk spend r cr w (index + suc tries) y) found
                (record {
                  index = index + 1;
                  bound = omega arith;
                  key = refl;
                  random = refl;
                  shards = e;
                })
          | inr e ↦
              let top : index + 1 + tries ≡ index + suc tries = omega arith in
              rw (← top) (try_indices-IsMade tries (index + 1) x (rw e at h))
        ]

module _ (c : Curve) (laws : CurveLaws c) (pcm : PedersenCommitment) where
  -- For any number of shards `n` of the network: a receiver that FromCoinParams makes for the address of a key set falls into the shard of the
  -- address and the sender shard and kind that were asked for, and a coin sent to it is recognised
  -- by that key set.
  pub from_coin_params-belongs :
      (n : ℕ) (k : List ℕ) (ks : KeySet) (b sender kind : ℕ) (r cr : Key) (x : OtaReceiver)
      (s : CoinV2)
      → IsScalar c k
      → KeysFit c laws k ks
      → IsScalar c r
      → IsScalar c cr
      → last_byte ks.payment_address.pk ≡ some b
      → from_coin_params c n ks.payment_address sender kind r cr ≡ ok x
      → s.public_key ≡ some x.public_key
      → s.tx_random ≡ some x.tx_random
      → ((does_coin_belong_to_key_set c pcm ks.ota_key s).1
          ≡ ok (true, some (c.scalarmult_key (c.scalarmult_base (generate_private_ota_key c k)) r)))
        × (wanted
              (record {
                sender_shard_id = sender;
                receiver_shard_id = get_shard_id_from_last_byte n b;
                coin_privacy_type = kind;
              })
              (derive_shard_info_from_coin n x.public_key)
            ≡ true)
  unfolding from_coin_params generate_private_ota_key
  from_coin_params-belongs n k ks b sender kind r cr x s hk fit hr hcr hb made ek et =
      elim (Bool-cases (n == 0)) [
        | inl e ↦
            let bad : err panic ≡ ok x =
              rw (hb, from_coin_params, fit.public_ota, fit.public_spend, e) at made in
            cc
        | inr e ↦
            let secret = generate_private_ota_key c k in
            let found =
              try_indices-IsMade c n _ _ r cr _ max_tries_ota 0 x
                (rw (hb, from_coin_params, fit.public_ota, fit.public_spend, e) at made) in
            (
              does_coin_belong-one_time_key c laws pcm s ks.ota_key secret (c.scalarmult_base k) r
                  cr found.index (laws.hash_to_scalar-IsScalar _) hr hcr
                  (laws.scalarmult_base-IsPoint k hk) (omega (arith, found.bound)) fit.ota_secret
                  fit.ota_public_spend (ek ∙ ap some found.key) (et ∙ ap some found.random),
              found.shards,
            )
      ]

-- A receiver is read back from its bytes.
pub set_bytes-bytes_receiver :
    (c : Curve) (x : OtaReceiver)
    → IsPoint c x.public_key
    → IsTxRandom c x.tx_random
    → set_bytes c (bytes x) ≡ ok x
unfolding set_bytes bytes
set_bytes-bytes_receiver c x hp ht =
    let l : ltb (length (x.public_key ++ x.tx_random)) 32 ≡ false =
      ground (arith, length-append x.public_key x.tx_random, hp.0) in
    rw (l, take-append 32 x.public_key x.tx_random hp.0, point_from_bytes-IsPoint c x.public_key hp)
      (rw (drop-append 32 x.public_key x.tx_random hp.0) (rw (tx_random_read c x.tx_random ht)))
