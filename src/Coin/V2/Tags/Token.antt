-- ===== src/Coin/V2/Tags/Token.antt =====
-- GetTokenId of coin/coin_v2.go, for the coins of NewCoinCA.
use go_incognito_sdk_v.Base.{
  ◌⊎◌, inl, inr, refl, ℕ, ◌≡◌, ap, ◌∙◌, true, List, ◌++◌, Option, none, some, ok,
}
use go_incognito_sdk_v.Base.Bytes.{IsU32}
use go_incognito_sdk_v.Crypto.{Key, Curve, PedersenCommitment}
use go_incognito_sdk_v.Crypto.Laws.{IsPoint, IsScalar, CurveLaws}
use go_incognito_sdk_v.Keys.{OtaKey, get_ota_secret_key, ota_public_spend}
use go_incognito_sdk_v.Coin.V2.{CoinV2, set_tx_random_detail}
use go_incognito_sdk_v.Coin.V2.Owner.{
  one_time_key, with_raw_asset_tag, asset_tag_string, does_coin_belong_to_key_set,
}
use go_incognito_sdk_v.Coin.V2.Owner.Belongs.{does_coin_belong-whole}
use go_incognito_sdk_v.Coin.V2.Tags.{
  blinded_tag, compute_asset_tag_blinder, looked_up, token_of_tag, get_token_id,
}

module _ (c : Curve) (laws : CurveLaws c) (pcm : PedersenCommitment) where
  with_raw_asset_tag-blinded_tag :
      (secret : Key) (token_id : List ℕ) (s : CoinV2)
      → IsPoint c pcm.g4
      → with_raw_asset_tag c pcm secret (some (blinded_tag c pcm secret token_id)) none s
        ≡ record s { raw_asset_tag = some (c.hash_to_point token_id) }
  unfolding with_raw_asset_tag blinded_tag compute_asset_tag_blinder
  with_raw_asset_tag-blinded_tag secret token_id s h =
      let blinder = laws.hash_to_scalar-IsScalar (secret ++ asset_tag_string) in
      rw (
        laws.sub_keys-add_keys_right _ _ (laws.hash_to_point-IsPoint token_id)
          (laws.scalarmult_key-IsPoint pcm.g4 _ h blinder))

  -- Over a curve with the laws, whose base G[4] for randomness is a point: GetTokenId of a coin with a
  -- one-time key of the owner, whose tag was blinded with the secret that the owner shares and is not
  -- in the table, gives the token that the table holds for the point of the token. The raw asset tag
  -- of the coin is not set yet, or is that point, as the test whether the coin belongs leaves it.
  pub get_token_id-blinded_tag :
      (s : CoinV2) (k : OtaKey) (secret spend r cr : Key) (index : ℕ) (token_id : List ℕ)
      (table : Key → Option (List ℕ))
      → IsPoint c pcm.g4
      → IsScalar c secret
      → IsScalar c r
      → IsScalar c cr
      → IsPoint c spend
      → IsU32 index
      → get_ota_secret_key c k ≡ some secret
      → ota_public_spend c k ≡ some spend
      → s.public_key
        ≡ some (one_time_key c (c.scalarmult_key (c.scalarmult_base secret) r) index spend)
      → s.tx_random ≡ some (set_tx_random_detail (c.scalarmult_base cr) (c.scalarmult_base r) index)
      → (s.raw_asset_tag ≡ none) ⊎ (s.raw_asset_tag ≡ some (c.hash_to_point token_id))
      → s.asset_tag
        ≡ some (blinded_tag c pcm (c.scalarmult_key (c.scalarmult_base secret) r) token_id)
      → table (blinded_tag c pcm (c.scalarmult_key (c.scalarmult_base secret) r) token_id) ≡ none
      → table (c.hash_to_point token_id) ≡ some token_id
      → get_token_id c pcm k table s ≡ ok token_id
  unfolding get_token_id token_of_tag
  get_token_id-blinded_tag s k secret spend r cr index token_id table hg hs hr hc hp hi es ep epk et
        (inr set) tag hidden known =
      rw (set, get_token_id) (rw known refl)
  get_token_id-blinded_tag s k secret spend r cr index token_id table hg hs hr hc hp hi es ep epk et
        (inl raw) tag hidden known =
      let shared = c.scalarmult_key (c.scalarmult_base secret) r in
      let whole =
        does_coin_belong-whole c laws pcm s k secret spend r cr index hs hr hc hp hi es ep epk et in
      let after : does_coin_belong_to_key_set c pcm k s
          ≡ (record s { raw_asset_tag = some (c.hash_to_point token_id) }, ok (true, some shared)) =
        whole
        ∙ ap (λ x. (x, ok (true, some shared)))
            (ap (λ t. with_raw_asset_tag c pcm shared t s.raw_asset_tag s) tag
              ∙ ap
                  (λ t.
                    with_raw_asset_tag c pcm shared (some (blinded_tag c pcm shared token_id)) t s)
                  raw
              ∙ with_raw_asset_tag-blinded_tag shared token_id s hg) in
      rw (raw, get_token_id)
        (rw (tag, token_of_tag) (rw hidden (ap (looked_up table) after ∙ rw (known, looked_up))))
