-- ===== src/Coin/V2/Tags/Found.antt =====
-- NewCoinCA of coin/coin_v2_ca.go, for the address of a key set.
use go_incognito_sdk_v.Base.{
  ℕ, ◌+◌, ◌^◌, ◌<◌, ◌≡◌, ◌==◌, refl, ap, ◌∙◌, Bool, true, false, List, some, ok, arith, Bool-cases,
  inl, inr,
}
use go_incognito_sdk_v.Common.Hash.{same_bytes}
use go_incognito_sdk_v.Common.Hash.Order.{same_bytes_refl}
use go_incognito_sdk_v.Crypto.{
  Key, Curve, PedersenCommitment, d2h, from_uint64, point_from_bytes, is_point_equal,
}
use go_incognito_sdk_v.Crypto.Laws.{IsScalar, CurveLaws}
use go_incognito_sdk_v.Keys.{KeySet, get_ota_public_key, get_public_spend, generate_private_ota_key}
use go_incognito_sdk_v.Keys.Laws.{scalar_from_bytes-IsScalar}
use go_incognito_sdk_v.Coin.Receiver.{max_tries_ota, some_shards}
use go_incognito_sdk_v.Coin.V2.{CoinV2, TxRandom, set_tx_random_detail}
use go_incognito_sdk_v.Coin.V2.Random.{set_tx_random_detail-IsTxRandom}
use go_incognito_sdk_v.Coin.V2.Conceal.{commitment_of, compute_commitment_ca}
use go_incognito_sdk_v.Coin.V2.Conceal.Decrypt.{IsFresh}
use go_incognito_sdk_v.Coin.V2.Owner.{does_coin_belong_to_key_set}
use go_incognito_sdk_v.Coin.V2.Owner.Belongs.{does_coin_belong-one_time_key}
use go_incognito_sdk_v.Coin.V2.Make.{
  CoinParams, Randoms, init, prepared, with_one_time_key, target, find_index,
}
use go_incognito_sdk_v.Coin.V2.Make.Search.{IsHit, find_index-IsFirst, length-d2h}
use go_incognito_sdk_v.Coin.V2.Make.Paid.{
  IsPayable, shared_point, point_of-some, private_ota-IsScalar,
}
use go_incognito_sdk_v.Coin.V2.Tags.{
  prv_coin_id, blinded_tag, validate_asset_tag, recompute_shared_secret, coin_commitment_ca,
  with_asset_tag, found_coin_ca, new_coin_ca,
}

-- The tag of a token is accepted with the secret that blinds it.
pub validate_asset_tag-blinded_tag :
    (c : Curve) (pcm : PedersenCommitment) (secret : Key) (token_id : List ℕ)
    → same_bytes token_id prv_coin_id ≡ false
    → validate_asset_tag c pcm
        (some (blinded_tag c pcm secret token_id))
        (some secret)
        (some token_id)
      ≡ ok true
unfolding validate_asset_tag is_point_equal
validate_asset_tag-blinded_tag c pcm secret token_id h =
    elim (Bool-cases (same_bytes (c.hash_to_point token_id) (blinded_tag c pcm secret token_id))) [
      | inl e ↦ rw (h, e)
      | inr e ↦ rw (h, e) (rw (same_bytes_refl (blinded_tag c pcm secret token_id)))
    ]

module _ (c : Curve) (laws : CurveLaws c) (pcm : PedersenCommitment) (is_burning : List ℕ → Bool)
    (n : ℕ) where
  -- The coin that the search ends with.
  abbrev tagged_coin : CoinParams → Randoms → Key → Key → List ℕ → ℕ → CoinV2
  tagged_coin p rnd rk spend token_id j =
      record (with_one_time_key c rk spend rnd j (prepared c p rnd)) {
        asset_tag = some (blinded_tag c pcm rk token_id);
        commitment =
            some
              (compute_commitment_ca c pcm (blinded_tag c pcm rk token_id) rnd.mask (d2h p.amount));
      }

  with_asset_tag-prepared :
      (p : CoinParams) (rnd : Randoms) (rk spend tag : Key) (j : ℕ)
      → c.sc_valid (d2h p.amount) ≡ true
      → with_asset_tag c pcm tag (with_one_time_key c rk spend rnd j (prepared c p rnd))
        ≡ ok (record (with_one_time_key c rk spend rnd j (prepared c p rnd)) {
          asset_tag = some tag;
          commitment = some (compute_commitment_ca c pcm tag rnd.mask (d2h p.amount));
        })
  unfolding with_asset_tag coin_commitment_ca with_one_time_key prepared from_uint64
  with_asset_tag-prepared p rnd rk spend tag j h = rw h

  new_coin_ca-found :
      (k : List ℕ) (ks : KeySet) (b : ℕ) (p : CoinParams) (rnd : Randoms) (token_id : List ℕ)
      (j : ℕ)
      → (n == 0) ≡ false
      → IsPayable c laws is_burning k ks b p rnd
      → point_from_bytes c ks.payment_address.pk ≡ ok (c.scalarmult_base k)
      → find_index c n (shared_point c k rnd) (c.scalarmult_base k) (target n p b) max_tries_ota 0
        ≡ some j
      → new_coin_ca c pcm is_burning n p rnd (some token_id)
        ≡ ok (
          tagged_coin p rnd (shared_point c k rnd) (c.scalarmult_base k) token_id j,
          some (shared_point c k rnd),
        )
  unfolding new_coin_ca
  new_coin_ca-found k ks b p rnd token_id j n0 h e f =
      let e' : point_from_bytes c p.payment_address.pk ≡ ok (c.scalarmult_base k) =
        rw h.address e in
      let q : is_burning p.payment_address.pk ≡ false = rw h.address h.not_burning in
      let o : get_ota_public_key c p.payment_address
          ≡ some (c.scalarmult_base (generate_private_ota_key c k)) =
        rw h.address h.keys.public_ota in
      let g : get_public_spend c p.payment_address ≡ some (c.scalarmult_base k) =
        rw h.address h.keys.public_spend in
      let tagged =
        with_asset_tag-prepared p rnd (shared_point c k rnd) (c.scalarmult_base k)
          (blinded_tag c pcm (shared_point c k rnd) token_id) j h.amount_scalar in
      rw e' (
        rw (h.shard_byte, n0)
          (rw (q, o, g)
            (ap
                (found_coin_ca c pcm (shared_point c k rnd) (c.scalarmult_base k) rnd
                  (some token_id) (prepared c p rnd))
                f
              ∙ (rw (tagged, found_coin_ca)))))

  tagged_coin-IsFresh :
      (p : CoinParams) (rnd : Randoms) (rk spend : Key) (token_id : List ℕ) (j : ℕ)
      → c.sc_valid (d2h p.amount) ≡ true
      → IsScalar c rnd.mask
      → IsScalar c rnd.shared_random
      → IsScalar c rnd.shared_conceal_random
      → j < 2 ^ 32
      → IsFresh c pcm
          (tagged_coin p rnd rk spend token_id j)
          rnd.mask
          (d2h p.amount)
          rnd.shared_conceal_random
          (set_tx_random_detail
            (c.scalarmult_base rnd.shared_conceal_random)
            (c.scalarmult_base rnd.shared_random)
            j)
  unfolding with_one_time_key prepared from_uint64 init commitment_of
  tagged_coin-IsFresh p rnd rk spend token_id j ha hm hr hc hj = record {
    mask = refl;
    amount = rw ha;
    commitment = refl;
    shared_conceal_random = refl;
    tx_random = refl;
    conceal_point =
        (set_tx_random_detail-IsTxRandom c _ _ j (laws.scalarmult_base-IsPoint _ hc)
          (laws.scalarmult_base-IsPoint _ hr) hj).0;
    mask_scalar = hm;
    amount_scalar = (length-d2h p.amount, ha);
    random_scalar = hc;
  }

  recompute-set :
      (k : List ℕ) (rnd : Randoms) (j : ℕ)
      → IsScalar c rnd.shared_random
      → IsScalar c rnd.shared_conceal_random
      → j < 2 ^ 32
      → recompute_shared_secret c
          (some (
            set_tx_random_detail
              (c.scalarmult_base rnd.shared_conceal_random)
              (c.scalarmult_base rnd.shared_random)
              j))
          k
        ≡ ok (shared_point c k rnd)
  unfolding recompute_shared_secret
  recompute-set k rnd j hr hc hj =
      let (_, ota, _, _) =
        set_tx_random_detail-IsTxRandom c _ _ j (laws.scalarmult_base-IsPoint _ hc)
          (laws.scalarmult_base-IsPoint _ hr) hj in
      let secret = private_ota-IsScalar c laws k in
      rw (ota, scalar_from_bytes-IsScalar c _ secret)
        (ap ok (laws.shared_secret (generate_private_ota_key c k) rnd.shared_random secret hr))

  -- For any number of shards `n` of the network, and a payment to the address of a key set in a token
  -- that is not PRV, with an address that is not a burning one and reduced scalars, one of whose first
  -- 50000 indices falls into the wanted shards: NewCoinCA makes a fresh coin that belongs to the key set.
  -- The shared secret that it returns is the one that the receiver's private key recomputes, and with
  -- it the tag of the coin is valid for the token.
  pub new_coin_ca-valid :
      (k : List ℕ) (ks : KeySet) (b : ℕ) (p : CoinParams) (rnd : Randoms) (token_id : List ℕ)
      (d : ℕ)
      → IsPayable c laws is_burning k ks b p rnd
      → d < max_tries_ota
      → same_bytes token_id prv_coin_id ≡ false
      → IsHit c n (shared_point c k rnd) (c.scalarmult_base k) (target n p b) (1 + d)
      → (s : CoinV2) × (t : TxRandom) × (secret : Key) × (new_coin_ca c pcm is_burning n p rnd
            (some token_id)
          ≡ ok (s, some secret))
        × IsFresh c pcm s rnd.mask (d2h p.amount) rnd.shared_conceal_random t
        × ((does_coin_belong_to_key_set c pcm ks.ota_key s).1 ≡ ok (true, some secret))
        × (recompute_shared_secret c s.tx_random k ≡ ok secret)
        × (validate_asset_tag c pcm s.asset_tag (some secret) (some token_id) ≡ ok true)
  new_coin_ca-valid k ks b p rnd token_id d h l not_prv hit =
      let rk = shared_point c k rnd in
      let spend = c.scalarmult_base k in
      let (j, f, first) =
        find_index-IsFirst c n rk spend (target n p b) max_tries_ota 0 d l (omega arith) hit in
      let pk_read : point_from_bytes c ks.payment_address.pk ≡ ok spend =
        point_of-some c _ _ (unfold get_public_spend in h.keys.public_spend) in
      let small : j < 2 ^ 32 = omega (arith, first.below) in
      (
        tagged_coin p rnd rk spend token_id j,
        _,
        rk,
        new_coin_ca-found k ks b p rnd token_id j (some_shards n _ _ hit) h pk_read f,
        tagged_coin-IsFresh p rnd rk spend token_id j h.amount_scalar h.mask_scalar h.random_scalar
            h.conceal_scalar small,
        does_coin_belong-one_time_key c laws pcm _ ks.ota_key (generate_private_ota_key c k) spend
            rnd.shared_random rnd.shared_conceal_random j (private_ota-IsScalar c laws k)
            h.random_scalar h.conceal_scalar (laws.scalarmult_base-IsPoint k h.key_scalar) small
            h.keys.ota_secret h.keys.ota_public_spend (unfold with_one_time_key in refl)
            (unfold with_one_time_key in refl),
        (unfold with_one_time_key in recompute-set k rnd j h.random_scalar h.conceal_scalar small),
        validate_asset_tag-blinded_tag c pcm rk token_id not_prv,
      )
