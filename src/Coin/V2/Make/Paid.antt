-- ===== src/Coin/V2/Make/Paid.antt =====
-- NewCoinFromPaymentInfo of coin/utils.go, for the address of a key set.
use go_incognito_sdk_v.Base.{
  ℕ, ◌+◌, ◌^◌, ◌<◌, ◌≡◌, ◌==◌, refl, ap, ◌∙◌, Bool, true, false, List, none, some, some_injective,
  Result-cases, ok, arith, inl, inr,
}
use go_incognito_sdk_v.Crypto.{
  Key, Curve, PedersenCommitment, d2h, from_uint64, point_from_bytes, commit_at_value_index,
}
use go_incognito_sdk_v.Crypto.Laws.{IsScalar, CurveLaws}
use go_incognito_sdk_v.Keys.{
  KeySet, get_ota_public_key, get_public_spend, point_or_nil, generate_private_ota_key,
}
use go_incognito_sdk_v.Keys.Laws.{KeysFit}
use go_incognito_sdk_v.Coin.Shard.{last_byte, derive_shard_info_from_coin}
use go_incognito_sdk_v.Coin.Receiver.{wanted, some_shards}
use go_incognito_sdk_v.Coin.V2.{CoinV2, TxRandom, set_tx_random_detail}
use go_incognito_sdk_v.Coin.V2.Random.{set_tx_random_detail-IsTxRandom}
use go_incognito_sdk_v.Coin.V2.Conceal.{commitment_of}
use go_incognito_sdk_v.Coin.V2.Conceal.Decrypt.{IsFresh}
use go_incognito_sdk_v.Coin.V2.Owner.{one_time_key, does_coin_belong_to_key_set}
use go_incognito_sdk_v.Coin.V2.Owner.Belongs.{does_coin_belong-one_time_key}
use go_incognito_sdk_v.Coin.V2.Make.{
  CoinParams, Randoms, init, prepared, with_one_time_key, committed, target, head_of_payment,
  found_coin, find_index, new_coin_from_payment_info,
}
use go_incognito_sdk_v.Coin.V2.Make.Search.{IsHit, find_index-IsFirst, length-d2h}

pub point_of-some :
    (c : Curve) (b : List ℕ) (p : Key) → point_or_nil c b ≡ some p → point_from_bytes c b ≡ ok p
point_of-some c b p h = elim (Result-cases (point_from_bytes c b)) [
  | inl (q, e) ↦
      let s : some q ≡ some p = rw (e, point_or_nil) at h in e ∙ ap ok (some_injective q p s)
  | inr (x, e) ↦ let s : none ≡ some p = rw (e, point_or_nil) at h in cc
]

-- A payment to the address of a key set: reduced random scalars, an amount whose scalar is reduced,
-- and an address that is not a burning one.
pub record IsPayable (c : Curve) (laws : CurveLaws c) (is_burning : List ℕ → Bool) (k : List ℕ)
    (ks : KeySet) (b : ℕ) (p : CoinParams) (rnd : Randoms) : Type 0 where
  pub key_scalar : IsScalar c k
  pub keys : KeysFit c laws k ks
  pub address : p.payment_address ≡ ks.payment_address
  pub shard_byte : last_byte (c.scalarmult_base k) ≡ some b
  pub not_burning : is_burning ks.payment_address.pk ≡ false
  pub amount_scalar : c.sc_valid (d2h p.amount) ≡ true
  pub mask_scalar : IsScalar c rnd.mask
  pub random_scalar : IsScalar c rnd.shared_random
  pub conceal_scalar : IsScalar c rnd.shared_conceal_random

-- The point that the sender and the receiver share.
abbrev pub shared_point : Curve → List ℕ → Randoms → Key
shared_point c k rnd =
    c.scalarmult_key (c.scalarmult_base (generate_private_ota_key c k)) rnd.shared_random

pub private_ota-IsScalar :
    (c : Curve) → CurveLaws c → (k : List ℕ) → IsScalar c (generate_private_ota_key c k)
unfolding generate_private_ota_key
private_ota-IsScalar c laws k = laws.hash_to_scalar-IsScalar _

module _ (c : Curve) (laws : CurveLaws c) (pcm : PedersenCommitment) (is_burning : List ℕ → Bool)
    (n : ℕ) where
  -- The coin that the search ends with.
  abbrev pub coin_at : CoinParams → Randoms → Key → Key → ℕ → CoinV2
  coin_at p rnd rk spend j = with_one_time_key c rk spend rnd j (record (prepared c p rnd) {
    commitment = some (commit_at_value_index c pcm (d2h p.amount) rnd.mask);
  })

  committed-amount :
      (p : CoinParams) (rnd : Randoms)
      → c.sc_valid (d2h p.amount) ≡ true
      → committed c pcm p rnd
        ≡ ok (record (prepared c p rnd) {
          commitment = some (commit_at_value_index c pcm (d2h p.amount) rnd.mask);
        })
  unfolding committed from_uint64
  committed-amount p rnd h = rw h

  coin_at-IsFresh :
      (p : CoinParams) (rnd : Randoms) (rk spend : Key) (j : ℕ)
      → c.sc_valid (d2h p.amount) ≡ true
      → IsScalar c rnd.mask
      → IsScalar c rnd.shared_random
      → IsScalar c rnd.shared_conceal_random
      → j < 2 ^ 32
      → IsFresh c pcm (coin_at p rnd rk spend j) rnd.mask (d2h p.amount) rnd.shared_conceal_random (
          set_tx_random_detail
            (c.scalarmult_base rnd.shared_conceal_random)
            (c.scalarmult_base rnd.shared_random)
            j)
  unfolding with_one_time_key prepared from_uint64 init commitment_of
  coin_at-IsFresh p rnd rk spend j ha hm hr hc hj = record {
    mask = refl;
    amount = rw ha;
    commitment = refl;
    shared_conceal_random = refl;
    tx_random = refl;
    conceal_point =
        (set_tx_random_detail-IsTxRandom c _ _ j (laws.scalarmult_base-IsPoint _ hc)
          (laws.scalarmult_base-IsPoint _ hr) hj).0;
    mask_scalar = hm;
    amount_scalar = (length-d2h p.amount, ha);
    random_scalar = hc;
  }

  head_of_payment-parsed :
      (k : List ℕ) (ks : KeySet) (b : ℕ) (p : CoinParams) (rnd : Randoms)
      → (n == 0) ≡ false
      → IsPayable c laws is_burning k ks b p rnd
      → point_from_bytes c ks.payment_address.pk ≡ ok (c.scalarmult_base k)
      → head_of_payment c pcm n p rnd
        ≡ ok (
          c.scalarmult_base k,
          b,
          record (prepared c p rnd) {
            commitment = some (commit_at_value_index c pcm (d2h p.amount) rnd.mask);
          },
        )
  head_of_payment-parsed k ks b p rnd n0 h e =
      let e' : point_from_bytes c p.payment_address.pk ≡ ok (c.scalarmult_base k) =
        rw h.address e in
      rw (e', head_of_payment) (rw (h.shard_byte, n0) (rw (committed-amount p rnd h.amount_scalar)))

  new_coin_from_payment_info-found :
      (k : List ℕ) (ks : KeySet) (b : ℕ) (p : CoinParams) (rnd : Randoms) (tries j : ℕ)
      → (n == 0) ≡ false
      → IsPayable c laws is_burning k ks b p rnd
      → point_from_bytes c ks.payment_address.pk ≡ ok (c.scalarmult_base k)
      → find_index c n (shared_point c k rnd) (c.scalarmult_base k) (target n p b) tries 0 ≡ some j
      → new_coin_from_payment_info c pcm is_burning n p rnd tries
        ≡ some (ok (coin_at p rnd (shared_point c k rnd) (c.scalarmult_base k) j))
  unfolding new_coin_from_payment_info
  new_coin_from_payment_info-found k ks b p rnd tries j n0 h e f =
      let q : is_burning p.payment_address.pk ≡ false = rw h.address h.not_burning in
      let o : get_ota_public_key c p.payment_address
          ≡ some (c.scalarmult_base (generate_private_ota_key c k)) =
        rw h.address h.keys.public_ota in
      let g : get_public_spend c p.payment_address ≡ some (c.scalarmult_base k) =
        rw h.address h.keys.public_spend in
      rw (head_of_payment-parsed k ks b p rnd n0 h e, new_coin_from_payment_info)
        (rw (q, o, g)
          (ap
            (found_coin c (shared_point c k rnd) (c.scalarmult_base k) rnd
              (record (prepared c p rnd) {
                commitment = some (commit_at_value_index c pcm (d2h p.amount) rnd.mask);
              }))
            f))

  -- For any number of shards `n` of the network: a payment to the address of a key set, with an address
  -- that is not a burning one and reduced scalars, one of whose first `tries` indices falls into the
  -- wanted shards, makes a coin in those shards that is fresh, so that it can be concealed and decrypted,
  -- and that belongs to the key set.
  pub new_coin_from_payment_info-belongs :
      (k : List ℕ) (ks : KeySet) (b : ℕ) (p : CoinParams) (rnd : Randoms) (tries d : ℕ)
      → IsPayable c laws is_burning k ks b p rnd
      → d < tries
      → 1 + d < 2 ^ 32
      → IsHit c n (shared_point c k rnd) (c.scalarmult_base k) (target n p b) (1 + d)
      → (s : CoinV2) × (t : TxRandom) × (pk : Key) × (new_coin_from_payment_info c pcm is_burning n
            p rnd tries
          ≡ some (ok s))
        × IsFresh c pcm s rnd.mask (d2h p.amount) rnd.shared_conceal_random t
        × ((does_coin_belong_to_key_set c pcm ks.ota_key s).1
            ≡ ok (true, some (shared_point c k rnd)))
        × (s.public_key ≡ some pk)
        × (wanted (target n p b) (derive_shard_info_from_coin n pk) ≡ true)
  new_coin_from_payment_info-belongs k ks b p rnd tries d h l s hit =
      let rk = shared_point c k rnd in
      let spend = c.scalarmult_base k in
      let (j, f, first) = find_index-IsFirst c n rk spend (target n p b) tries 0 d l s hit in
      let pk_read : point_from_bytes c ks.payment_address.pk ≡ ok spend =
        point_of-some c _ _ (unfold get_public_spend in h.keys.public_spend) in
      let small : j < 2 ^ 32 = omega (arith, first.below) in
      (
        coin_at p rnd rk spend j,
        _,
        one_time_key c rk j spend,
        new_coin_from_payment_info-found k ks b p rnd tries j (some_shards n _ _ hit) h pk_read f,
        coin_at-IsFresh p rnd rk spend j h.amount_scalar h.mask_scalar h.random_scalar
            h.conceal_scalar small,
        does_coin_belong-one_time_key c laws pcm _ ks.ota_key (generate_private_ota_key c k) spend
            rnd.shared_random rnd.shared_conceal_random j (private_ota-IsScalar c laws k)
            h.random_scalar h.conceal_scalar (laws.scalarmult_base-IsPoint k h.key_scalar) small
            h.keys.ota_secret h.keys.ota_public_spend (unfold with_one_time_key in refl)
            (unfold with_one_time_key in refl),
        unfold with_one_time_key in refl,
        first.hit,
      )
