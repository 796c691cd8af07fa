-- ===== src/Client/Choose.antt =====
-- chooseBestCoinsByAmount of incclient/tx_utils.go. A coin is anything with a value; amounts are
-- uint64 and their sums wrap.
pub mod Sound
pub mod Pays
use go_incognito_sdk_v.Base.{
  ℕ, zero, suc, ◌+◌, ◌-◌, ◌%◌, ◌^◌, ◌≤◌, ◌<◌, ◌≡◌, Bool, true, false, List, [], ◌∷◌, ◌++◌, Option,
  none, some, ltb, leb, ◌==◌, if◌then◌else◌, length, Result, ok, err,
}

pub data Error : Type 0 where
  total_too_small not_enough_coins panic : Error

-- coinsToSpend, chosenIndexList and totalChosenAmount
pub record Choice (A : Type 0) : Type 0 where
  pub coins : List A
  pub indices : List ℕ
  pub total : ℕ

abbrev pub empty : {A : Type 0} → Choice A
empty = record { coins = []; indices = []; total = 0 }

unfoldable pub get_last? : {A : Type 0} → List A → Option A
get_last? [] = none
get_last? (x ∷ []) = some x
get_last? (x ∷ y ∷ xs) = get_last? (y ∷ xs)

unfoldable pub all_indices : {A : Type 0} → ℕ → List A → List ℕ
all_indices i [] = []
all_indices i (x ∷ xs) = i ∷ all_indices (i + 1) xs

module _ {A : Type 0} (value : A → ℕ) where
  unfoldable pub total_from : ℕ → List A → ℕ
  total_from acc [] = acc
  total_from acc (x ∷ xs) = total_from ((acc + value x) % 2 ^ 64) xs

  abbrev pub choose : Choice A → ℕ → A → Choice A
  choose ch i x = record {
    coins = ch.coins ++ (x ∷ []);
    indices = ch.indices ++ (i ∷ []);
    total = (ch.total + value x) % 2 ^ 64;
  }

  -- The loop stops before the last coin. The list is the coins from number `i` on.
  unfoldable pub choose_loop : List A → ℕ → ℕ → Choice A → Choice A
  choose_loop [] i remain ch = ch
  choose_loop (x ∷ []) i remain ch = ch
  choose_loop (x ∷ y ∷ xs) i remain ch =
      let skipped = choose_loop (y ∷ xs) (i + 1) remain ch in
      let taken = choose_loop (y ∷ xs) (i + 1) (remain - value x) (choose ch i x) in
      if ltb remain (value x)
      then (if leb remain (value y) then skipped else choose ch i x)
      else taken

  -- What follows the loop: the last coin is added if the amount is not reached.
  unfoldable pub complete : List A → ℕ → Choice A → Result Error (List A × List ℕ)
  unfolding get_last?
  complete coin_list required ch =
      if ltb ch.total required
      then elim (get_last? coin_list) [
        | none ↦ err panic
        | some last ↦
            let done = choose ch (length coin_list - 1) last in
            if ltb done.total required then err not_enough_coins else ok (done.coins, done.indices)
      ]
      else ok (ch.coins, ch.indices)

  unfoldable pub choose_best_coins_by_amount : List A → ℕ → Result Error (List A × List ℕ)
  unfolding total_from choose_loop complete all_indices
  choose_best_coins_by_amount coin_list required =
      let total = total_from 0 coin_list in
      if ltb total required
      then err total_too_small
      else if total == required
      then ok (coin_list, all_indices 0 coin_list)
      else complete coin_list required (choose_loop coin_list 0 required empty)
