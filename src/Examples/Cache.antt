-- ===== src/Examples/Cache.antt =====
-- A chain of four coins, a node that serves it, and runs of the cache of an account.
use go_incognito_sdk_v.Base.{
  ℕ, ◌+◌, ◌*◌, ◌≤◌, ◌<◌, ◌≡◌, refl, sym, ◌∙◌, ◌⊎◌, inl, inr, Bool, true, false, List, [], ◌∷◌,
  Option, none, some, if◌then◌else◌, ◌==◌, leb, Result, ok, get_elem?, arith, Bool-cases,
  Option-cases, ok_injective,
}
use go_incognito_sdk_v.Base.Maps.{lookup, put, IsMap, lookup-put, put-IsMap}
use go_incognito_sdk_v.Client.Cache.{
  Error, Tokens, update_all_tokens, new_account_cache, finish_sync,
}
use go_incognito_sdk_v.Client.Cache.Update.{cached_coin}
use go_incognito_sdk_v.Client.Cache.Sync.{
  Loop, at_start, after, spawn, receive, begin, spawned, received, get_coins_by_indices,
  num_threads, select, count_up,
}
use go_incognito_sdk_v.Client.Cache.Sync.Batch.{Serves, owned, contains}
use go_incognito_sdk_v.Client.Cache.Sync.Safe.{in_batch}
use go_incognito_sdk_v.Client.Cache.Sync.Ends.{
  coins_of_account, Synced, Turn, measure, sync-wanted, sync-covered, sync-decreases, sync-finishes,
}
use go_incognito_sdk_v.Client.Cache.Whole.{update_all_tokens-cached_coin}
use go_incognito_sdk_v.Client.Cache.Whole.History.{History}
use go_incognito_sdk_v.Client.Consolidate.{
  estimate_num_txs, estimate_num_txs-ends, estimate_num_txs-stuck,
}

abbrev chain : ℕ → Option ℕ
chain i = get_elem? (3 ∷ 7 ∷ 9 ∷ 4 ∷ []) i

-- Coin 9 is burnt, and those up to 5 are the account's.
abbrev burning : ℕ → Bool
burning c = c == 9

abbrev belongs : ℕ → ℕ × Bool
belongs c = (c, leb c 5)

unfoldable collect : List ℕ → List (ℕ × ℕ)
unfolding put
collect [] = []
collect (i ∷ is) = elim (chain i) [ none ↦ collect is | some c ↦ put i c (collect is) ]

unfoldable fetch : List ℕ → Result Error (List (ℕ × ℕ))
unfolding collect
fetch is = ok (collect is)

collect-IsMap : (is : List ℕ) → IsMap (collect is)
unfolding collect
collect-IsMap [] = unfold IsMap in tt
collect-IsMap (i ∷ is) = elim (Option-cases (chain i)) [
  | inl e ↦ rw (e, collect) (collect-IsMap is)
  | inr (c, e) ↦ rw (e, collect) (put-IsMap i c (collect is) (collect-IsMap is))
]

if_none : (b : Bool) → ◌≡◌ {A = Option ℕ} (if b then none else none) none
if_none true = refl
if_none false = refl

lookup-collect :
    (is : List ℕ) (i : ℕ) → lookup i (collect is) ≡ (if contains i is then chain i else none)
unfolding collect contains
lookup-collect [] i = unfold lookup in refl
lookup-collect (j ∷ is) i = elim (Option-cases (chain j)) [
  | inl e ↦
      rw (e, collect)
        (lookup-collect is i ∙ elim (Bool-cases (i == j)) [
          | inl q ↦
              let r : i ≡ j = ground arith in rw (r, e) (if_none (contains j is) ∙ sym (if_none _))
          | inr q ↦ rw q refl
        ])
  | inr (c, e) ↦
      rw (e, collect)
        (lookup-put i j c (collect is) ∙ elim (Bool-cases (i == j)) [
          | inl q ↦ let r : i ≡ j = ground arith in rw (q, r, e) refl
          | inr q ↦ rw q (lookup-collect is i)
        ])
]

fetch-Serves : Serves fetch chain
unfolding fetch
fetch-Serves = record {
  keys = λ is m e. rw (← ok_injective {E = Error} _ _ e) (collect-IsMap is);
  coins = λ is m i e. rw (← ok_injective {E = Error} _ _ e) (lookup-collect is i);
}

abbrev found : List (ℕ × ℕ)
found = (3, 4) ∷ (0, 3) ∷ []

abbrev one_running : Loop ℕ
one_running = spawned 4 (begin 0)

abbrev all_done : Loop ℕ
all_done = received [] found one_running

first_move : Turn burning belongs fetch 4 0 4 (begin 0) one_running
first_move = spawn (begin 0) (λ e. omega arith) (omega arith) (omega arith)

answered : get_coins_by_indices burning belongs fetch 0 3 ≡ ok found
unfolding get_coins_by_indices fetch select count_up collect
answered = refl

second_move : Turn burning belongs fetch 4 0 4 one_running all_done
second_move = receive one_running [] [] 0 3 found refl answered

running : Synced burning belongs fetch 4 0 4 one_running
running = after at_start first_move

finished : Synced burning belongs fetch 4 0 4 all_done
finished = after running second_move

sync-wanted_example : lookup 3 all_done.res ≡ some 4
sync-wanted_example =
    sync-wanted burning belongs fetch chain fetch-Serves 4 0 4 (omega arith) (omega arith) all_done
      finished refl 3

sync-covered_example :
    ((4 ≤ 3) ⊎ ((in_batch 3 one_running.in_flight ≡ true) ⊎ (lookup 3 one_running.res ≡ some 4)))
    × ((lookup 3 one_running.res ≡ none) ⊎ (lookup 3 one_running.res ≡ some 4))
sync-covered_example =
    sync-covered burning belongs fetch chain fetch-Serves 4 0 4 (omega arith) (omega arith)
      one_running running 3

sync-decreases_example : measure 4 all_done < measure 4 one_running
sync-decreases_example =
    sync-decreases burning belongs fetch chain fetch-Serves 4 0 4 (omega arith) (omega arith)
      one_running all_done running second_move

always_answered :
    (from to : ℕ) → (m : List (ℕ × ℕ)) × (get_coins_by_indices burning belongs fetch from to ≡ ok m)
unfolding get_coins_by_indices fetch
always_answered from to = (_, refl)

sync-finishes_example :
    (t : Loop ℕ) × Synced burning belongs fetch 4 0 4 t
    × (t.done ≡ num_threads 4 0)
    × ((i : ℕ) → lookup i t.res ≡ coins_of_account burning belongs chain 0 4 i)
sync-finishes_example =
    sync-finishes burning belongs fetch chain fetch-Serves 4 0 4 (omega arith) (omega arith)
      (omega arith) always_answered

-- PRV is token 0, the confidential assets are 1, and every coin is one of token 2.
abbrev same : ℕ → ℕ → Bool
same j k = j == k

abbrev token_two : Unit {0} → ℕ → Option ℕ
token_two s c = some 2

-- There is one table of asset tags.
abbrev tagged : Option (Unit {0}) → Unit {0} → ℕ → Option ℕ
tagged tags = token_two

abbrev account_coins : ℕ → ℕ → Option ℕ
account_coins k i = owned burning belongs (chain i)

abbrev synced_once : Option (Tokens ℕ ℕ) × Result Error (Unit {0})
synced_once = finish_sync same (λ c. true) tagged 0 1 1 (ok tt) (ok tt) 4 all_done.res none

update_all_tokens-cached_coin_example :
    (cached_coin 2 3
        (update_all_tokens same (λ c. true) token_two 1 (ok tt) 3 found new_account_cache).0
      ≡ some 4)
    × ((update_all_tokens same (λ c. true) token_two 1 (ok tt) 3 found new_account_cache).1 ≡ ok tt)
unfolding lookup
update_all_tokens-cached_coin_example =
    update_all_tokens-cached_coin same (λ k. ground arith) (λ j k e. ground arith) (λ c. true)
      token_two 1 2 tt 3 3 found new_account_cache (unfold IsMap in (refl, (refl, tt)))
      (refl, (refl, tt))

estimate_num_txs-ends_example :
    ((31 ≤ 1) × (estimate_num_txs 40 31 1 ≡ some 0))
    ⊎ ((1 < 31) × (n : ℕ) × (estimate_num_txs 40 31 1 ≡ some n) × (0 < n) × (29 * n ≤ 31 + 29))
estimate_num_txs-ends_example = estimate_num_txs-ends 40 31 1 (omega arith) (omega arith)

estimate_num_txs-stuck_example : estimate_num_txs 100 31 0 ≡ none
estimate_num_txs-stuck_example = estimate_num_txs-stuck 100 31 (omega arith)
