-- ===== src/Client/Cache.antt =====
-- The accounts of incclient/coin_cache_utils.go and how they take in new output coins. A coin is
-- anything, `K` is the type of the token identifiers as strings, `S` that of key sets.
pub mod Sync
pub mod Update
pub mod Whole
use go_incognito_sdk_v.Base.{
  ℕ, ◌-◌, ◌≡◌, Bool, true, false, List, [], ◌∷◌, Option, none, some, if◌then◌else◌, Result, ok, err,
}
use go_incognito_sdk_v.Base.Maps.{lookup, put}

pub data Error : Type 0 where
  fetch_failed invalid_ota_key not_coin_v2 no_asset_tags : Error

-- tokenCache, with the data of its cachedOutCoins
pub record TokenCache (A : Type 0) : Type 0 where
  pub latest_index : ℕ
  pub data_map : List (ℕ × A)

abbrev pub new_token_cache : {A : Type 0} → TokenCache A
new_token_cache = record { latest_index = 0; data_map = [] }

-- CachedTokens
abbrev pub Tokens : Type 0 → Type 0 → Type 0
Tokens K A = K → Option (TokenCache A)

abbrev pub new_account_cache : {K A : Type 0} → Tokens K A
new_account_cache = λ k. none

module _ {A : Type 0} where
  -- The loop of update over the new coins: the cached map, and updatedRecords.
  unfoldable pub add_missing : List (ℕ × A) → List (ℕ × A) → List (ℕ × A) × List (ℕ × A)
  unfolding lookup put
  add_missing cached [] = (cached, [])
  add_missing cached ((i, c) ∷ new) = elim (lookup i cached) [
    | some d ↦ add_missing cached new
    | none ↦ let rest = add_missing (put i c cached) new in (rest.0, (i, c) ∷ rest.1)
  ]

  -- The cache of a token to which updateAllTokens adds a coin.
  unfoldable pub token_or_new : ℕ → Option (TokenCache A) → TokenCache A
  token_or_new latest none = record { latest_index = latest; data_map = [] }
  token_or_new latest (some t) = t

  unfoldable pub with_coin : ℕ → ℕ → A → TokenCache A → TokenCache A
  unfolding lookup put
  with_coin latest i c t = elim (lookup i t.data_map) [
    | none ↦ record { latest_index = latest; data_map = put i c t.data_map }
    | some d ↦ t
  ]

module _ {K A : Type 0} (same : K → K → Bool) where
  -- ac.CachedTokens[k] = t
  abbrev pub set_token : K → TokenCache A → Tokens K A → Tokens K A
  set_token k t ac = λ j. if same j k then some t else ac j

  unfoldable pub update : K → ℕ → List (ℕ × A) → Tokens K A → Tokens K A × List (ℕ × A)
  unfolding add_missing
  update k latest out_coins ac = elim (ac k) [
    | none ↦ (set_token k (record { latest_index = latest; data_map = out_coins }) ac, out_coins)
    | some t ↦
        let added = add_missing t.data_map out_coins in
        (set_token k (record { latest_index = latest; data_map = added.0 }) ac, added.1)
  ]

  -- What updateAllTokens does with a coin whose token is known.
  unfoldable pub add_to_token : ℕ → K → ℕ → A → Tokens K A → Tokens K A
  unfolding token_or_new with_coin
  add_to_token latest k i c ac = set_token k (with_coin latest i c (token_or_new latest (ac k))) ac

module _ {K A S : Type 0} (same : K → K → Bool) (is_coin_v2 : A → Bool)
    (get_token_id : S → A → Option K) where
  -- The loop of updateAllTokens over updateRecords. The account is changed in place: what was done
  -- before an error stays.
  unfoldable pub distribute :
      S → ℕ → List (ℕ × A) → Tokens K A → Tokens K A × Result Error (Unit {0})
  unfolding add_to_token
  distribute key_set latest [] ac = (ac, ok tt)
  distribute key_set latest ((i, c) ∷ records) ac = elim (is_coin_v2 c) [
    | false ↦ (ac, err not_coin_v2)
    | true ↦ elim (get_token_id key_set c) [
      | none ↦ distribute key_set latest records ac
      | some k ↦ distribute key_set latest records (add_to_token same latest k i c ac)
    ]
  ]

  -- `key_set` is what Base58CheckDeserialize makes of the account's key.
  unfoldable pub update_all_tokens :
      K → Result Error S → ℕ → List (ℕ × A) → Tokens K A → Tokens K A × Result Error (Unit {0})
  unfolding update distribute
  update_all_tokens confidential_asset_id key_set latest out_coins ac =
      let updated = update same confidential_asset_id latest out_coins ac in
      elim key_set [ err e ↦ (updated.0, err e) | ok s ↦ distribute s latest updated.1 updated.0 ]

-- rawAssetTags: `all` is what GetAllAssetTags answers, which is asked only if there are new coins.
unfoldable pub tags_for : {A T : Type 0} → List (ℕ × A) → Result Error T → Result Error (Option T)
tags_for [] all = ok none
tags_for (c ∷ res) (err e) = err e
tags_for (c ∷ res) (ok tags) = ok (some tags)

-- The account that the client has cached, or a new one.
abbrev pub account_of : {K A : Type 0} → Option (Tokens K A) → Tokens K A
account_of none = new_account_cache
account_of (some ac) = ac

-- The cached account after updateAllTokens: a new account is added only if there was no error, and
-- one that was there has been changed in place.
unfoldable pub stored :
    {K A : Type 0}
    → Option (Tokens K A)
    → Tokens K A
    → Result Error (Unit {0})
    → Option (Tokens K A)
stored cached ac (ok u) = some ac
stored none ac (err e) = none
stored (some old) ac (err e) = some ac

module _ {K A S T : Type 0} (same : K → K → Bool) (is_coin_v2 : A → Bool)
    (get_token_id : Option T → S → A → Option K) (prv_id confidential_asset_id : K) where
  -- What follows the loop of syncOutCoinV2, for the indices below `coin_length`: the account that is
  -- cached afterwards, and the error. That addAccount saves it to a file is left out.
  unfoldable pub finish_sync :
      K
      → Result Error S
      → Result Error T
      → ℕ
      → List (ℕ × A)
      → Option (Tokens K A)
      → Option (Tokens K A) × Result Error (Unit {0})
  unfolding update update_all_tokens tags_for stored
  finish_sync token key_set all_asset_tags coin_length res cached = elim (same token prv_id) [
    | true ↦ (some (update same prv_id (coin_length - 1) res (account_of cached)).0, ok tt)
    | false ↦ elim (tags_for res all_asset_tags) [
      | err e ↦ (cached, err e)
      | ok tags ↦
          let r =
            update_all_tokens same is_coin_v2 (get_token_id tags) confidential_asset_id key_set
              (coin_length - 1) res (account_of cached) in
          (stored cached r.0 r.1, r.1)
    ]
  ]
