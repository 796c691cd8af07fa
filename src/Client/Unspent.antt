-- ===== src/Client/Unspent.antt =====
-- incclient/coin.go: GetListDecryptedCoins, CheckCoinsSpent, GetUnspentOutputCoins and
-- GetSpentOutputCoins, from the output coins of the node on. The node's answer to HasSerialNumber and
-- the base58 text of a key image are arguments; `I` are the indices.
pub mod Batches
pub mod Refines
use go_incognito_sdk_v.Base.{
  ℕ, zero, suc, ◌+◌, ◌-◌, ◌*◌, ◌/◌, ◌%◌, Bool, true, false, not, ◌&&◌, List, [], ◌∷◌, ◌++◌, Option,
  none, some, ltb, ◌==◌, if◌then◌else◌, length, take, drop, Result, ok, err, ◌>>=◌, ◌>>◌, fail_if,
}
use go_incognito_sdk_v.Crypto.{Key, Curve, PedersenCommitment, to_uint64_little}
use go_incognito_sdk_v.Hybrid.{Ctr, HybridCipherText}
use go_incognito_sdk_v.Keys.{KeySet}
use go_incognito_sdk_v.Coin
use go_incognito_sdk_v.Coin.PlainV1
use go_incognito_sdk_v.Coin.PlainV1.{PlainCoinV1}
use go_incognito_sdk_v.Coin.V1.{CoinV1}
use go_incognito_sdk_v.Coin.V1.Secret
use go_incognito_sdk_v.Coin.V2.{CoinV2}
use go_incognito_sdk_v.Coin.V2.Conceal

pub data Error : Type 0 where
  coin_error : Coin.Error → Error
  invalid_plain_coin wrong_number_of_answers node_error panic : Error

-- ICoinInfo: an output coin of the node.
pub data OutCoin : Type 0 where
  v1 : CoinV1 HybridCipherText → OutCoin
  plain_v1 : PlainCoinV1 → OutCoin
  v2 : CoinV2 → OutCoin

pub data PlainCoin : Type 0 where
  plain_1 : PlainCoinV1 → PlainCoin
  plain_2 : CoinV2 → PlainCoin

-- What becomes of one output coin.
pub data Outcome : Type 0 where
  kept : PlainCoin → Key → Outcome
  skipped : Outcome
  failed : Error → Outcome

abbrev pub coin_result : {A : Type 0} → Result Coin.Error A → Result Error A
coin_result (ok a) = ok a
coin_result (err Coin.panic) = err panic
coin_result (err e) = err (coin_error e)

-- GetValue: a coin of version 2 that counts as encrypted has value 0.
abbrev pub value_of_amount : Option Key → Result Error ℕ
value_of_amount none = err panic
value_of_amount (some a) = ok (to_uint64_little a)

unfoldable pub get_value : Curve → PedersenCommitment → PlainCoin → Result Error ℕ
get_value c pcm (plain_1 d) = ok d.value
get_value c pcm (plain_2 s) = elim (Conceal.is_encrypted c pcm s) [
  | err e ↦ coin_result (err e)
  | ok true ↦ ok 0
  | ok false ↦ value_of_amount s.amount
]

abbrev pub outcome_of : Result Error (PlainCoin × Key) → Outcome
outcome_of (ok (p, k)) = kept p k
outcome_of (err e) = failed e

-- A coin of version 2 that is not decrypted is left out.
abbrev pub outcome_v2 : CoinV2 × Option Coin.Error → Outcome
outcome_v2 (s, some Coin.panic) = failed panic
outcome_v2 (s, some e) = skipped
outcome_v2 (s, none) = elim s.key_image [ none ↦ failed panic | some k ↦ kept (plain_2 s) k ]

module _ (derive : Key → Key → Key → Key) (num_shards : ℕ) (c : Curve) (pcm : PedersenCommitment)
    (ctr : Ctr) (ks : KeySet) where
  unfoldable pub with_image : PlainCoinV1 → Result Error (PlainCoin × Key)
  with_image d = do
    image ← coin_result (PlainV1.parse_key_image derive pcm d ks.private_key)
    ok (plain_1 (record d { serial_number = some image }), image)

  -- The body of the loop of GetListDecryptedCoins.
  unfoldable pub decrypt_coin : OutCoin → Outcome
  unfolding with_image
  decrypt_coin (v1 co) = elim co.coin_details_encrypted [
    | none ↦ failed invalid_plain_coin
    | some t ↦
        outcome_of
          (coin_result (Secret.decrypt derive num_shards c pcm ctr (some ks) co).1 >>= with_image)
  ]
  decrypt_coin (plain_v1 d) = outcome_of (with_image d)
  decrypt_coin (v2 s) = outcome_v2 (Conceal.decrypt c pcm (some ks) s)

-- The lists of the decrypted coins and of the texts of their key images.
abbrev pub Decrypted : Type 0
Decrypted = List PlainCoin × List (List ℕ)

module _ (text : Key → List ℕ) where
  abbrev pub add_outcome : Outcome → Result Error Decrypted → Result Error Decrypted
  add_outcome (failed e) rest = err e
  add_outcome skipped rest = rest
  add_outcome (kept p k) rest = do (ps, texts) ← rest; ok (p ∷ ps, text k ∷ texts)

  -- GetListDecryptedCoins, by what becomes of each coin
  unfoldable pub decrypt_list : List Outcome → Result Error Decrypted
  decrypt_list [] = ok ([], [])
  decrypt_list (o ∷ os) = add_outcome o (decrypt_list os)

-- The number of batches of 100 key images.
unfoldable pub num_batches : ℕ → ℕ
num_batches n = if n % 100 == 0 then n / 100 else n / 100 + 1

module _ (node : List (List ℕ) → Result Error (List Bool)) where
  -- CheckCoinsSpent
  unfoldable pub check_coins_spent : List (List ℕ) → Result Error (List Bool)
  check_coins_spent sn_list = do
    tmp ← node sn_list
    fail_if (not (length tmp == length sn_list)) wrong_number_of_answers
    ok tmp

  -- `for i := 0; i < numBatches; i++`: batch `i` goes from `start` to `end`.
  unfoldable pub check_batches : ℕ → ℕ → List (List ℕ) → Result Error (List Bool)
  unfolding check_coins_spent
  check_batches zero i images = ok []
  check_batches (suc left) i images = do
    let start = i * 100
    let end = if ltb (length images) ((i + 1) * 100) then length images else (i + 1) * 100
    batch ← check_coins_spent (take (end - start) (drop start images))
    rest ← check_batches left (i + 1) images
    ok (batch ++ rest)

abbrev pub same : Bool → Bool → Bool
same true b = b
same false b = not b

module _ {I : Type 0} (value : PlainCoin → Result Error ℕ) (wanted : Bool) where
  abbrev pub keep :
      Bool
      → PlainCoin
      → List I
      → Result Error (List PlainCoin × List I)
      → Result Error (List PlainCoin × List I)
  keep false p indices rest = rest
  keep true p [] rest = err panic
  keep true p (i ∷ indices) rest = do (ps, is) ← rest; ok (p ∷ ps, i ∷ is)

  -- The loop over the decrypted coins: coin, answer and index at the same place. The value is read of
  -- coins with the wanted answer only.
  unfoldable pub select :
      List PlainCoin → List Bool → List I → Result Error (List PlainCoin × List I)
  select [] answers indices = ok ([], [])
  select (p ∷ ps) [] indices = err panic
  select (p ∷ ps) (a ∷ answers) indices =
      let rest = select ps answers (drop 1 indices) in
      if same a wanted then (value p >>= λ v. keep (not (v == 0)) p indices rest) else rest

module _ (derive : Key → Key → Key → Key) (num_shards : ℕ) (c : Curve) (pcm : PedersenCommitment)
    (ctr : Ctr) (text : Key → List ℕ) (node : List (List ℕ) → Result Error (List Bool))
    (ks : KeySet) where
  abbrev pub outcomes : List OutCoin → List Outcome
  outcomes [] = []
  outcomes (x ∷ xs) = decrypt_coin derive num_shards c pcm ctr ks x ∷ outcomes xs

  -- The batches, and the coins without a spent key image.
  unfoldable pub unspent_of :
      {I : Type 0} → List I → Decrypted → Result Error (List PlainCoin × List I)
  unfolding check_batches num_batches select get_value
  unspent_of indices (coins, []) = ok ([], [])
  unspent_of indices (coins, image ∷ images) = do
    answers ← check_batches node (num_batches (length (image ∷ images))) 0 (image ∷ images)
    select (get_value c pcm) false coins answers indices

  -- GetUnspentOutputCoins: with no output coins, or none decrypted, the answer is empty.
  unfoldable pub get_unspent_output_coins :
      {I : Type 0} → List OutCoin → List I → Result Error (List PlainCoin × List I)
  unfolding decrypt_coin decrypt_list unspent_of
  get_unspent_output_coins [] indices = ok ([], [])
  get_unspent_output_coins (x ∷ xs) indices = do
    found ← decrypt_list text (outcomes (x ∷ xs))
    unspent_of indices found

  -- GetSpentOutputCoins asks for all key images at once.
  unfoldable pub get_spent_output_coins :
      {I : Type 0} → List OutCoin → List I → Result Error (List PlainCoin × List I)
  unfolding decrypt_coin decrypt_list check_coins_spent select get_value
  get_spent_output_coins [] indices = ok ([], [])
  get_spent_output_coins (x ∷ xs) indices = do
    (coins, images) ← decrypt_list text (outcomes (x ∷ xs))
    answers ← check_coins_spent node images
    select (get_value c pcm) true coins answers indices
