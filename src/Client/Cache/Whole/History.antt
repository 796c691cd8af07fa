-- ===== src/Client/Cache/Whole/History.antt =====
-- syncOutCoinV2 of incclient/coin_cache.go, one synchronisation of an account after another.
use go_incognito_sdk_v.Base.{
  ℕ, ◌+◌, ◌^◌, ◌≤◌, ◌<◌, ◌≡◌, ◌⊎◌, Bool, true, false, List, Option, none, some, if◌then◌else◌,
  Result, ok, err,
}
use go_incognito_sdk_v.Base.Maps.{lookup}
use go_incognito_sdk_v.Client.Cache.{Error, TokenCache, Tokens, account_of, finish_sync}
use go_incognito_sdk_v.Client.Cache.Sync.{first_index}
use go_incognito_sdk_v.Client.Cache.Sync.Safe.{wanted}
use go_incognito_sdk_v.Client.Cache.Whole.{IsCurrent, latest_of}

-- The coin that the cache of a token holds at an index.
abbrev pub coin_in : {A : Type 0} → ℕ → Option (TokenCache A) → Option A
coin_in i none = none
coin_in i (some t) = lookup i t.data_map

-- What is cached of a token whose chain was synchronised below `n`: the account's coin at every
-- index below `n`, and no other coin.
pub record UpToDate {A : Type 0} (own : ℕ → Option A) (n : ℕ) (o : Option (TokenCache A))
    : Type 0 where
  pub whole : (i : ℕ) → i < n → coin_in i o ≡ own i
  pub no_other : (i : ℕ) → (coin_in i o ≡ none) ⊎ (coin_in i o ≡ own i)

-- What every synchronisation keeps.
record Kept {A : Type 0} (own : ℕ → Option A) (n : ℕ) (o : Option (TokenCache A)) : Type 0 where
  current : IsCurrent own o
  small : latest_of o + 1 < 2 ^ 64
  bound : n ≤ latest_of o + 1
  whole : (i : ℕ) → i < n → coin_in i o ≡ own i

-- What the loop brings: the account's coins from the first index that was not synchronised on.
abbrev pub Fetched :
    {A : Type 0} → (ℕ → Option A) → Option (TokenCache A) → ℕ → List (ℕ × A) → Type 0
Fetched own o coin_length res =
    (first_index (latest_of o) < coin_length)
    × ((i : ℕ) → lookup i res ≡ wanted own (first_index (latest_of o)) coin_length i)

-- The length below which a chain is synchronised: it does not change with an error.
abbrev pub advanced : Result Error (Unit {0}) → ℕ → ℕ → ℕ
advanced (ok u) n old = n
advanced (err e) n old = old

module _ {K A S T : Type 0} (same : K → K → Bool) (is_coin_v2 : A → Bool)
    (get_token_id : Option T → S → A → Option K) (prv_id confidential_asset_id : K)
    (own : K → ℕ → Option A) where
  -- The token whose coins the node is asked for.
  abbrev pub chain_of : K → K
  chain_of token = if same token prv_id then prv_id else confidential_asset_id

  -- The cached account after any number of synchronisations, with whatever errors after the loop, and
  -- the lengths below which the chains of PRV and of the confidential assets were synchronised. Each
  -- synchronisation took the account's coins from its first index on to its `coin_length`.
  pub data History : Option (Tokens K A) → ℕ → ℕ → Type 0 where
    fresh : History none 0 0
    synced :
        (cached : Option (Tokens K A)) (p c : ℕ) (token : K) (key_set : Result Error S)
        (all_asset_tags : Result Error T) (coin_length : ℕ) (res : List (ℕ × A))
        → History cached p c
        → coin_length < 2 ^ 64
        → Fetched (own (chain_of token)) (account_of cached (chain_of token)) coin_length res
        → History
            (finish_sync same is_coin_v2 get_token_id prv_id confidential_asset_id token key_set
              all_asset_tags coin_length res cached).0
            (if same token prv_id
              then advanced
                  (finish_sync same is_coin_v2 get_token_id prv_id confidential_asset_id token
                    key_set all_asset_tags coin_length res cached).1
                  coin_length
                  p
              else p)
            (if same token prv_id
              then c
              else advanced
                  (finish_sync same is_coin_v2 get_token_id prv_id confidential_asset_id token
                    key_set all_asset_tags coin_length res cached).1
                  coin_length
                  c)

module _ {K A S T : Type 0} (same : K → K → Bool) (same_refl : (k : K) → same k k ≡ true)
    (is_coin_v2 : A → Bool) (get_token_id : Option T → S → A → Option K)
    (prv_id confidential_asset_id : K) (own : K → ℕ → Option A)
    (prv_other : same prv_id confidential_asset_id ≡ false)
    (confidential_other : same confidential_asset_id prv_id ≡ false)
    (prv_apart : (tags : Option T) (s : S) (c : A) (k : K)
      → get_token_id tags s c ≡ some k
      → same prv_id k ≡ false)
    (confidential_apart : (tags : Option T) (s : S) (c : A) (k : K)
      → get_token_id tags s c ≡ some k
      → same confidential_asset_id k ≡ false) where
  abbrev ChainFetched : Bool → Option (Tokens K A) → ℕ → List (ℕ × A) → Type 0
  ChainFetched b cached n res =
      let k = if b then prv_id else confidential_asset_id in
      Fetched (own k) (account_of cached k) n res
