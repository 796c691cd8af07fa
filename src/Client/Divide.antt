-- ===== src/Client/Divide.antt =====
-- incclient/tx_utils.go: coins divided by their version, and the indices of the chosen ones. A coin
-- is of version 2 exactly if it is a *CoinV2, so the casts of divideCoins succeed. An index is a
-- *big.Int that may be nil, and sort.Slice by falling values is an argument.
pub mod Indices
pub mod Sorted
use go_incognito_sdk_v.Base.{
  ℕ, zero, suc, ◌+◌, ◌-◌, ◌%◌, ◌^◌, ◌≤◌, ◌<◌, Bool, true, false, not, ◌&&◌, List, [], ◌∷◌, ◌++◌,
  Option, none, some, ltb, ◌==◌, if◌then◌else◌, length, Result, ok, err, ◌>>=◌,
}
use go_incognito_sdk_v.Common.Hash.{same_bytes}

pub data Error : Type 0 where
  lengths_differ nil_index coin_not_found no_coin versions_differ panic : Error

-- What the functions ask of a PlainCoin: its version, its value and the text of its public key.
pub record CoinView (A : Type 0) : Type 0 where
  pub version : A → ℕ
  pub value : A → ℕ
  pub public_key : A → List ℕ

pub record Divided (A : Type 0) : Type 0 where
  pub v1_list : List A
  pub v2_list : List A
  pub idx_v2_list : List ℕ

module _ {A : Type 0} (view : CoinView A) where
  -- Uint64 of an index: nil panics.
  abbrev pub uint64_of : Option ℕ → Result Error ℕ
  uint64_of none = err panic
  uint64_of (some i) = ok (i % 2 ^ 64)

  -- The inner loop of getListIdx: the index of the first coin of version 2 with the key.
  unfoldable pub find_idx : List ℕ → List A → List (Option ℕ) → Result Error (Option ℕ)
  find_idx key [] idx = ok none
  find_idx key (c ∷ coins) [] =
      let rest = find_idx key coins [] in
      if (view.version c == 2) && same_bytes (view.public_key c) key then err panic else rest
  find_idx key (c ∷ coins) (i ∷ idx) =
      let rest = find_idx key coins idx in
      if (view.version c == 2) && same_bytes (view.public_key c) key
      then (uint64_of i >>= λ n. ok (some n))
      else rest

  abbrev append_found : Option ℕ → List ℕ → List ℕ
  append_found none res = res
  append_found (some i) res = i ∷ res

  -- The outer loop: coins that are not found are left out.
  unfoldable pub collect_idx : List A → List A → List (Option ℕ) → Result Error (List ℕ)
  collect_idx [] coins idx = ok []
  collect_idx (c ∷ in_coins) coins idx = do
    found ← find_idx (view.public_key c) coins idx
    res ← collect_idx in_coins coins idx
    ok (append_found found res)

  unfoldable pub get_list_idx : List A → List A → List (Option ℕ) → Result Error (List ℕ)
  get_list_idx in_coins coins [] = ok []
  get_list_idx in_coins coins (i ∷ idx) = elim (collect_idx in_coins coins (i ∷ idx)) [
    | err e ↦ err e
    | ok res ↦ if length res == length in_coins then ok res else err coin_not_found
  ]

  -- `idxV2List = append(idxV2List, idxList[i].Uint64())` for a list of indices that is not nil
  abbrev add_v2 : A → Option ℕ → Divided A → Result Error (Divided A)
  add_v2 c none d = err nil_index
  add_v2 c (some i) d =
      ok (record d { v2_list = c ∷ d.v2_list; idx_v2_list = (i % 2 ^ 64) ∷ d.idx_v2_list })

  abbrev add_v1 : A → Divided A → Divided A
  add_v1 c d = record d { v1_list = c ∷ d.v1_list }

  abbrev no_coins : Divided A
  no_coins = record { v1_list = []; v2_list = []; idx_v2_list = [] }

  -- The loop of divideCoins with indices, which are as many as the coins. A nil index of a coin of
  -- version 2 is its only error.
  unfoldable pub divide_loop : List A → List (Option ℕ) → Result Error (Divided A)
  divide_loop (c ∷ coins) (i ∷ idx) =
      let rest = divide_loop coins idx in
      if view.version c == 2 then (rest >>= add_v2 c i) else (rest >>= λ d. ok (add_v1 c d))
  divide_loop _ _ = ok no_coins

  -- The loop for a nil list of indices.
  unfoldable pub divide_plain : List A → Divided A
  divide_plain [] = no_coins
  divide_plain (c ∷ coins) =
      let rest = divide_plain coins in
      if view.version c == 2 then record rest { v2_list = c ∷ rest.v2_list } else add_v1 c rest

  abbrev idx_or_nil : Option (List (Option ℕ)) → List (Option ℕ)
  idx_or_nil none = []
  idx_or_nil (some idx) = idx

  unfoldable pub divide : List A → Option (List (Option ℕ)) → Result Error (Divided A)
  divide coins none = ok (divide_plain coins)
  divide coins (some idx) =
      if length coins == length idx then divide_loop coins idx else err lengths_differ

  unfoldable pub sort_divided :
      ((A → ℕ) → List A → List A)
      → List A
      → Option (List (Option ℕ))
      → Divided A
      → Result Error (Divided A)
  sort_divided sort coins idx d = do
    chosen ← get_list_idx (sort view.value d.v2_list) coins (idx_or_nil idx)
    ok (record {
      v1_list = sort view.value d.v1_list;
      v2_list = sort view.value d.v2_list;
      idx_v2_list = chosen;
    })

  -- divideCoins
  unfoldable pub divide_coins :
      ((A → ℕ) → List A → List A)
      → List A
      → Option (List (Option ℕ))
      → Bool
      → Result Error (Divided A)
  divide_coins sort coins idx need_sorted = elim (divide coins idx) [
    | err e ↦ err e
    | ok d ↦ if need_sorted then sort_divided sort coins idx d else ok d
  ]

  same_version : ℕ → List A → Bool
  same_version v [] = true
  same_version v (c ∷ coins) = (view.version c == v) && same_version v coins

  unfoldable pub get_version_from_input_coins : List A → Result Error ℕ
  unfolding same_version
  get_version_from_input_coins [] = err no_coin
  get_version_from_input_coins (c ∷ coins) =
      if same_version (view.version c) coins then ok (view.version c) else err versions_differ
