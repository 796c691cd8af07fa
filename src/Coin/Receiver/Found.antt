-- ===== src/Coin/Receiver/Found.antt =====
-- The loop of OTAReceiver.FromCoinParams of coin/receiver.go, and when it ends.
use go_incognito_sdk_v.Base.{
  ℕ, zero, suc, ◌+◌, ◌<◌, ◌≡◌, true, false, List, some, ok, arith, Bool-cases, inl, inr,
}
use go_incognito_sdk_v.Common.{get_shard_id_from_last_byte}
use go_incognito_sdk_v.Crypto.{Key, Curve}
use go_incognito_sdk_v.Crypto.Laws.{CurveLaws}
use go_incognito_sdk_v.Keys.{KeySet, generate_private_ota_key}
use go_incognito_sdk_v.Keys.Laws.{KeysFit}
use go_incognito_sdk_v.Coin.Shard.{ShardInfo, last_byte, derive_shard_info_from_coin}
use go_incognito_sdk_v.Coin.V2.{set_tx_random_detail}
use go_incognito_sdk_v.Coin.V2.Owner.{one_time_key}
use go_incognito_sdk_v.Coin.Receiver.{
  OtaReceiver, wanted, try_indices, from_coin_params, max_tries_ota, some_shards,
}

module _ (c : Curve) (n : ℕ) (rk spend r cr : Key) (w : ShardInfo) where
  -- The key of the index falls into the wanted shards.
  abbrev pub IsWantedAt : ℕ → Type 0
  IsWantedAt i = wanted w (derive_shard_info_from_coin n (one_time_key c rk i spend)) ≡ true

  try_indices-found :
      (tries index d : ℕ)
      → d < tries
      → IsWantedAt (index + 1 + d)
      → (x : OtaReceiver) × (try_indices c n rk spend r cr w tries index ≡ ok x)
  unfolding try_indices
  try_indices-found zero index d l h = absurd (omega arith)
  try_indices-found (suc tries) index d l h =
      elim (Bool-cases
        (wanted w (derive_shard_info_from_coin n (one_time_key c rk (index + 1) spend)))) [
          | inl e ↦ (
            record {
              public_key = one_time_key c rk (index + 1) spend;
              tx_random =
                  set_tx_random_detail (c.scalarmult_base cr) (c.scalarmult_base r) (index + 1);
            },
            rw e,
          )
          | inr e ↦
              let (d', l', h') = later d l h e in
              let (x, f) = try_indices-found tries (index + 1) d' l' h' in (x, rw e f)
        ]
    where
      later :
          (d : ℕ)
          → d < suc tries
          → IsWantedAt (index + 1 + d)
          → wanted w (derive_shard_info_from_coin n (one_time_key c rk (index + 1) spend)) ≡ false
          → (d' : ℕ) × (d' < tries) × IsWantedAt (index + 1 + 1 + d')
      later zero l h e =
          let z : index + 1 + 0 ≡ index + 1 = omega arith in
          let h' : IsWantedAt (index + 1) = rw z at h in cc
      later (suc d) l h e =
          let z : index + 1 + suc d ≡ index + 1 + 1 + d = omega arith in (d, omega arith, rw z at h)

module _ (c : Curve) (laws : CurveLaws c) where
  -- For any number of shards `n` of the network and the address of the key set of a private key, FromCoinParams makes a receiver whenever one of
  -- the indices from 1 to 50000 gives a key in the wanted shards.
  pub from_coin_params-found :
      (n : ℕ) (k : List ℕ) (ks : KeySet) (b sender kind : ℕ) (r cr : Key) (d : ℕ)
      → KeysFit c laws k ks
      → last_byte ks.payment_address.pk ≡ some b
      → d < max_tries_ota
      → IsWantedAt c n
          (c.scalarmult_key (c.scalarmult_base (generate_private_ota_key c k)) r)
          (c.scalarmult_base k)
          r
          cr
          (record {
            sender_shard_id = sender;
            receiver_shard_id = get_shard_id_from_last_byte n b;
            coin_privacy_type = kind;
          })
          (0 + 1 + d)
      → (x : OtaReceiver) × (from_coin_params c n ks.payment_address sender kind r cr ≡ ok x)
  unfolding from_coin_params
  from_coin_params-found n k ks b sender kind r cr d fit hb l h =
      let (x, f) = try_indices-found c n _ _ r cr _ max_tries_ota 0 d l h in
      (x, rw (hb, from_coin_params, some_shards n _ _ h) (rw (fit.public_ota, fit.public_spend) f))
