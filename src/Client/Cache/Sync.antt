-- ===== src/Client/Cache/Sync.antt =====
-- syncOutCoinV2 and getCoinsByIndices of incclient/coin_cache.go. The loop that starts goroutines and
-- takes in their results is a step relation: any goroutine that runs may be the next to answer.
pub mod Batch
pub mod Safe
pub mod Ends
use go_incognito_sdk_v.Base.{
  ℕ, zero, suc, ◌+◌, ◌-◌, ◌/◌, ◌%◌, ◌^◌, ◌≤◌, ◌<◌, ◌≡◌, ◌≢◌, Bool, true, false, List, [], ◌∷◌, ◌++◌,
  Option, none, some, ltb, ◌==◌, if◌then◌else◌, Result, ok, err,
}
use go_incognito_sdk_v.Base.Maps.{lookup, put}
use go_incognito_sdk_v.Client.Cache.{Error, TokenCache, new_token_cache}

abbrev pub batch_size : ℕ
batch_size = 5000

-- `count` numbers from `i` on
unfoldable pub count_up : ℕ → ℕ → List ℕ
count_up zero i = []
count_up (suc count) i = i ∷ count_up count (i + 1)

-- currentIndex before the loop, from the LatestIndex that is cached
abbrev pub first_index : ℕ → ℕ
first_index latest = let current = (latest + 1) % 2 ^ 64 in if current == 1 then 0 else current

-- math.Ceil of the quotient of two floats, which is the exact one below 2 ^ 50
abbrev pub num_threads : ℕ → ℕ → ℕ
num_threads coin_length current = (coin_length - current + (batch_size - 1)) / batch_size

module _ {A : Type 0} (is_burning : A → Bool) (belongs : A → A × Bool) where
  -- The loop of getCoinsByIndices over the coins of a batch. DoesCoinBelongToKeySet changes the coin,
  -- and an error of it counts as `false`.
  unfoldable pub select : List (ℕ × A) → List (ℕ × A)
  select [] = []
  select ((i, c) ∷ m) = elim (is_burning c) [
    | true ↦ select m
    | false ↦ elim (belongs c).1 [ true ↦ (i, (belongs c).0) ∷ select m | false ↦ select m ]
  ]

  unfoldable pub get_coins_by_indices :
      (List ℕ → Result Error (List (ℕ × A))) → ℕ → ℕ → Result Error (List (ℕ × A))
  unfolding count_up select
  get_coins_by_indices fetch from_index to_index =
      elim (fetch (count_up (to_index + 1 - from_index) from_index)) [
        | err e ↦ err e
        | ok m ↦ ok (select m)
      ]

-- The variables of the loop; `in_flight` are the ranges of the goroutines that have not answered.
pub record Loop (A : Type 0) : Type 0 where
  pub current : ℕ
  pub done : ℕ
  pub working : ℕ
  pub in_flight : List (ℕ × ℕ)
  pub res : List (ℕ × A)

-- currentIndex and nextIndex are uint64.
abbrev pub next_index : ℕ → ℕ → ℕ
next_index coin_length current =
    let next = (current + batch_size) % 2 ^ 64 in if ltb coin_length next then coin_length else next

module _ {A : Type 0} where
  -- `for idx, tmpCoin := range status.data { res.Data[idx] = tmpCoin }`
  unfoldable pub merge : List (ℕ × A) → List (ℕ × A) → List (ℕ × A)
  unfolding put
  merge res [] = res
  merge res ((i, c) ∷ m) = merge (put i c res) m

  abbrev pub begin : ℕ → Loop A
  begin start = record { current = start; done = 0; working = 0; in_flight = []; res = [] }

  abbrev pub spawned : ℕ → Loop A → Loop A
  spawned coin_length s = record {
    current = next_index coin_length s.current;
    done = s.done;
    working = s.working + 1;
    in_flight = s.in_flight ++ ((s.current, next_index coin_length s.current - 1) ∷ []);
    res = s.res;
  }

  abbrev pub received : List (ℕ × ℕ) → List (ℕ × A) → Loop A → Loop A
  received others status_data s = record {
    current = s.current;
    done = s.done + 1;
    working = s.working - 1;
    in_flight = others;
    res = merge s.res status_data;
  }

-- `answer` is getCoinsByIndices for the account and the node.
module _ {A : Type 0} (answer : ℕ → ℕ → Result Error (List (ℕ × A)))
    (max_threads start coin_length : ℕ) where
  -- A turn of the loop that does not leave it; the one that only sleeps changes nothing.
  pub data Step : Loop A → Loop A → Type 0 where
    spawn :
        (s : Loop A)
        → s.done ≢ num_threads coin_length start
        → s.working < max_threads
        → s.current < coin_length
        → Step s (spawned coin_length s)
    receive :
        (s : Loop A) (pre post : List (ℕ × ℕ)) (from_index to_index : ℕ) (m : List (ℕ × A))
        → s.in_flight ≡ pre ++ ((from_index, to_index) ∷ post)
        → answer from_index to_index ≡ ok m
        → Step s (received (pre ++ post) m s)

  pub data Reach : Loop A → Type 0 where
    at_start : Reach (begin start)
    after : {s t : Loop A} → Reach s → Step s t → Reach t
