-- ===== src/Examples/Spending.antt =====
-- The theorems on spent and unspent coins at a concrete wallet of three coins.
use go_incognito_sdk_v.Base.{
  ℕ, ◌+◌, ◌≡◌, refl, Bool, true, false, List, [], ◌∷◌, ◌++◌, none, some, map, ◌==◌, take, Result,
  ok,
}
use go_incognito_sdk_v.Crypto.{Key, PedersenCommitment}
use go_incognito_sdk_v.Hybrid.{Ctr}
use go_incognito_sdk_v.Keys.{KeySet}
use go_incognito_sdk_v.Coin.PlainV1
use go_incognito_sdk_v.Coin.PlainV1.{PlainCoinV1}
use go_incognito_sdk_v.Coin.V2.{CoinV2}
use go_incognito_sdk_v.Coin.V2.Conceal
use go_incognito_sdk_v.Client.Unspent
use go_incognito_sdk_v.Client.Unspent.{
  Error, OutCoin, plain_v1, PlainCoin, plain_1, skipped, get_value, with_image, decrypt_coin,
  get_unspent_output_coins, get_spent_output_coins,
}
use go_incognito_sdk_v.Client.Unspent.Refines.{
  Entry, coins, kept_entries, Worth, total_value, get_unspent_output_coins-refines,
  spent_and_unspent-total, get_unspent_output_coins-skipped,
}
use go_incognito_sdk_v.Examples.Toy.{key, toy}

-- The key image of a coin is its derivator.
abbrev derive : Key → Key → Key → Key
derive g a b = b

abbrev generators : PedersenCommitment
generators = record { g0 = key 1; g1 = key 2; g2 = key 3; g3 = key 4; g4 = key 5 }

abbrev no_cipher : Ctr
no_cipher = record { is_aes_key = λ k. true; xor_key_stream = λ k iv m. m }

abbrev owner : KeySet
owner = record {
  private_key = [];
  payment_address = record { pk = key 3; tk = []; ota_public = none };
  readonly_key = record { pk = key 3; rk = [] };
  ota_key = record { pk = []; ota_secret = [] };
}

abbrev text : Key → List ℕ
text k = take 1 k

-- Whether a key image is spent: the odd ones are.
abbrev is_spent : List ℕ → Bool
is_spent [] = false
is_spent (b ∷ bs) = b == 3

abbrev node : List (List ℕ) → Result Error (List Bool)
node images = ok (map is_spent images)

abbrev coin_of : ℕ → ℕ → PlainCoinV1
coin_of n v = record {
  public_key = some (key 3);
  commitment = none;
  sn_derivator = some (key n);
  serial_number = none;
  randomness = none;
  value = v;
  info = [];
}

abbrev entry : ℕ → ℕ → ℕ → Entry ℕ
entry n v i = record {
  coin = plain_1 (record (coin_of n v) { serial_number = some (key n) });
  image = key n;
  amount = v;
  index = i;
}

abbrev entries : List (Entry ℕ)
entries = entry 2 50 11 ∷ entry 3 70 12 ∷ entry 4 0 13 ∷ []

abbrev places : List ℕ
places = 11 ∷ 12 ∷ 13 ∷ []

abbrev out_coins : List OutCoin
out_coins = plain_v1 (coin_of 2 50) ∷ plain_v1 (coin_of 3 70) ∷ plain_v1 (coin_of 4 0) ∷ []

all_kept :
    Unspent.outcomes derive 8 toy generators no_cipher text node owner out_coins
    ≡ kept_entries entries
unfolding decrypt_coin with_image PlainV1.parse_key_image
all_kept = refl

entries-Worth :
    (Worth text is_spent (get_value toy generators) (entry 2 50 11))
    × (Worth text is_spent (get_value toy generators) (entry 3 70 12))
    × (Worth text is_spent (get_value toy generators) (entry 4 0 13))
unfolding get_value
entries-Worth = (refl, refl, refl)

get_unspent_output_coins-refines_example :
    get_unspent_output_coins derive 8 toy generators no_cipher text node owner out_coins places
    ≡ ok (coins (entry 2 50 11 ∷ []), 11 ∷ [])
get_unspent_output_coins-refines_example =
    get_unspent_output_coins-refines derive 8 toy generators no_cipher text node owner is_spent
      out_coins entries all_kept (entries-Worth.0, (entries-Worth.1, (entries-Worth.2, tt)))
      (λ images h. refl)

spent_and_unspent-total_example :
    (us : List PlainCoin × List ℕ) × (ss : List PlainCoin × List ℕ) × (u : ℕ) × (s : ℕ)
    × (get_unspent_output_coins derive 8 toy generators no_cipher text node owner out_coins places
        ≡ ok us)
    × (get_spent_output_coins derive 8 toy generators no_cipher text node owner out_coins places
        ≡ ok ss)
    × (total_value toy generators us.0 ≡ ok u)
    × (total_value toy generators ss.0 ≡ ok s)
    × (u + s ≡ 120)
spent_and_unspent-total_example =
    spent_and_unspent-total derive 8 toy generators no_cipher text node owner is_spent out_coins
      entries all_kept (entries-Worth.0, (entries-Worth.1, (entries-Worth.2, tt)))
      (λ images h. refl) refl

-- Nothing of this coin is known, and the keys do not help.
abbrev closed : CoinV2
closed = record {
  version = 2;
  raw_asset_tag = none;
  public_key = some (key 3);
  commitment = some (key 4);
  key_image = none;
  shared_random = none;
  shared_conceal_random = none;
  tx_random = none;
  mask = none;
  amount = none;
  asset_tag = none;
  info = [];
}

abbrev with_closed : List OutCoin
with_closed = plain_v1 (coin_of 2 50) ∷ Unspent.v2 closed ∷ plain_v1 (coin_of 5 90) ∷ []

abbrev closed_places : List ℕ
closed_places = 11 ∷ 20 ∷ 12 ∷ []

closed_skipped :
    Unspent.outcomes derive 8 toy generators no_cipher text node owner with_closed
    ≡ kept_entries (entry 2 50 11 ∷ []) ++ (skipped ∷ kept_entries (entry 5 90 12 ∷ []))
unfolding decrypt_coin with_image PlainV1.parse_key_image Conceal.decrypt Conceal.decrypt_body
    Conceal.is_encrypted Conceal.is_encrypted_fields
closed_skipped = refl

last-Worth : Worth text is_spent (get_value toy generators) (entry 5 90 12)
unfolding get_value
last-Worth = refl

-- The coin at index 12 is returned with index 20, that of the coin that is left out.
get_unspent_output_coins-skipped_example :
    get_unspent_output_coins derive 8 toy generators no_cipher text node owner with_closed
      closed_places
    ≡ ok (coins (entry 2 50 11 ∷ entry 5 90 12 ∷ []), 11 ∷ 20 ∷ [])
get_unspent_output_coins-skipped_example =
    get_unspent_output_coins-skipped derive 8 toy generators no_cipher text node owner is_spent
      with_closed (entry 2 50 11 ∷ []) (entry 5 90 12 ∷ []) 20 closed_skipped (entries-Worth.0, tt)
      (last-Worth, tt) (λ images h. refl)
