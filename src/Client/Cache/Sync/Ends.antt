-- ===== src/Client/Cache/Sync/Ends.antt =====
-- The loop of syncOutCoinV2 of incclient/coin_cache.go with the batches of getCoinsByIndices.
use go_incognito_sdk_v.Base.{
  ℕ, zero, suc, ◌+◌, ◌*◌, ◌^◌, ◌≤◌, ◌<◌, ◌≡◌, ◌≢◌, refl, ◌⊎◌, inl, inr, Bool, true, List, [], ◌∷◌,
  ◌++◌, Option, none, length, length-append, Result, ok, err, arith, nat_cases, Result-cases,
}
use go_incognito_sdk_v.Base.Maps.{lookup}
use go_incognito_sdk_v.Client.Cache.{Error}
use go_incognito_sdk_v.Client.Cache.Sync.{
  batch_size, begin, num_threads, Loop, Step, Reach, spawn, receive, get_coins_by_indices, spawned,
  received, at_start, after,
}
use go_incognito_sdk_v.Client.Cache.Sync.Batch.{Serves, owned, get_coins_by_indices-lookup}
use go_incognito_sdk_v.Client.Cache.Sync.Safe.{Sound, Reach-Sound, Sound-done, wanted, in_batch}

-- Twice the batches that are to start, and one for each that runs.
abbrev pub measure : {A : Type 0} → ℕ → Loop A → ℕ
measure coin_length s = 2 * num_threads coin_length s.current + s.working

module _ {A : Type 0} (is_burning : A → Bool) (belongs : A → A × Bool) where
  -- What the account owns of the chain at the indices of a synchronisation.
  abbrev pub coins_of_account : (ℕ → Option A) → ℕ → ℕ → ℕ → Option A
  coins_of_account chain = wanted (λ i. owned is_burning belongs (chain i))

  -- The states that the loop may be in.
  abbrev pub Synced : (List ℕ → Result Error (List (ℕ × A))) → ℕ → ℕ → ℕ → Loop A → Type 0
  Synced fetch = Reach (get_coins_by_indices is_burning belongs fetch)

  abbrev pub Turn : (List ℕ → Result Error (List (ℕ × A))) → ℕ → ℕ → ℕ → Loop A → Loop A → Type 0
  Turn fetch = Step (get_coins_by_indices is_burning belongs fetch)

module _ {A : Type 0} (is_burning : A → Bool) (belongs : A → A × Bool)
    (fetch : List ℕ → Result Error (List (ℕ × A))) (chain : ℕ → Option A)
    (serves : Serves fetch chain) (max_threads start coin_length : ℕ) (le : start ≤ coin_length)
    (fits : coin_length + batch_size ≤ 2 ^ 64) where
  reached :
      {s : Loop A}
      → Synced is_burning belongs fetch max_threads start coin_length s
      → Sound (λ i. owned is_burning belongs (chain i)) start coin_length s
  reached r =
      Reach-Sound (λ i. owned is_burning belongs (chain i)) start coin_length
        (get_coins_by_indices is_burning belongs fetch) max_threads
        (get_coins_by_indices-lookup is_burning belongs fetch chain serves) le fits r

  -- The node serves the chain, the first index is at most the length of the chain, and the length is
  -- at most 2^64 - 5000. Whatever the order in which the goroutines answer, once all have
  -- answered the result holds the account's coins from the first index on, each at its index, and
  -- nothing else.
  pub sync-wanted :
      (s : Loop A)
      → Synced is_burning belongs fetch max_threads start coin_length s
      → s.done ≡ num_threads coin_length start
      → (i : ℕ) → lookup i s.res ≡ coins_of_account is_burning belongs chain start coin_length i
  sync-wanted s r fin i =
      Sound-done (λ j. owned is_burning belongs (chain j)) start coin_length s (reached r) fin i

  -- The node serves the chain, the first index is at most the length of the chain, and the length is
  -- at most 2^64 - 5000. In every state of the loop, a coin of the account below the
  -- current index is in the result or in a range that a goroutine is working on, and the result holds
  -- no other coin.
  pub sync-covered :
      (s : Loop A)
      → Synced is_burning belongs fetch max_threads start coin_length s
      → (i : ℕ)
      → ((s.current ≤ i)
          ⊎ ((in_batch i s.in_flight ≡ true)
              ⊎ (lookup i s.res ≡ coins_of_account is_burning belongs chain start coin_length i)))
        × ((lookup i s.res ≡ none)
            ⊎ (lookup i s.res ≡ coins_of_account is_burning belongs chain start coin_length i))
  sync-covered s r i = let h = reached r in (h.covered i, h.right i)

  Turn-decreases :
      (s t : Loop A)
      → Sound (λ i. owned is_burning belongs (chain i)) start coin_length s
      → Turn is_burning belongs fetch max_threads start coin_length s t
      → measure coin_length t < measure coin_length s
  Turn-decreases s _ h (spawn _ more free lt) = ground arith
  Turn-decreases s _ h (receive _ pre post from to m e got) =
      let n : length s.in_flight ≡ suc (length pre + length post) =
        rw e (omega (arith, length-append pre ((from, to) ∷ post))) in
      omega (arith, h.counted, n)

  -- The node serves the chain, the first index is at most the length of the chain, and the length is
  -- at most 2^64 - 5000. In a state that the loop reaches, a turn that starts a
  -- goroutine or takes in an answer lowers twice the number of batches that are to start plus the
  -- number of goroutines.
  pub sync-decreases :
      (s t : Loop A)
      → Synced is_burning belongs fetch max_threads start coin_length s
      → Turn is_burning belongs fetch max_threads start coin_length s t
      → measure coin_length t < measure coin_length s
  sync-decreases s t r st = Turn-decreases s t (reached r) st

  -- The loop is never stuck: it starts a goroutine, or one is running whose answer it can take in or
  -- whose error ends it.
  pub sync-progress :
      (s : Loop A)
      → 0 < max_threads
      → Synced is_burning belongs fetch max_threads start coin_length s
      → s.done ≢ num_threads coin_length start
      → ((t : Loop A) × Turn is_burning belongs fetch max_threads start coin_length s t)
        ⊎ ((b : ℕ × ℕ) × (others : List (ℕ × ℕ)) × (e : Error) × (s.in_flight ≡ b ∷ others)
            × (get_coins_by_indices is_burning belongs fetch b.0 b.1 ≡ err e))
  sync-progress s pos r more = go s.in_flight refl
    where
      go :
          (bs : List (ℕ × ℕ))
          → s.in_flight ≡ bs
          → ((t : Loop A) × Turn is_burning belongs fetch max_threads start coin_length s t)
            ⊎ ((b : ℕ × ℕ) × (others : List (ℕ × ℕ)) × (e : Error) × (s.in_flight ≡ b ∷ others)
                × (get_coins_by_indices is_burning belongs fetch b.0 b.1 ≡ err e))
      go [] e =
          let h = reached r in
          let none_running : length s.in_flight ≡ 0 = rw e refl in
          inl (
            spawned coin_length s,
            spawn s more (omega (arith, h.counted))
                (ground (arith, h.counted, h.shared, h.bounded)),
          )
      go ((from, to) ∷ bs) e =
          elim (Result-cases (get_coins_by_indices is_burning belongs fetch from to)) [
            | inl (m, got) ↦ inl (received ([] ++ bs) m s, receive s [] bs from to m e got)
            | inr (x, got) ↦ inr ((from, to), bs, x, e, got)
          ]

  finishes_from :
      (fuel : ℕ) (s : Loop A)
      → 0 < max_threads
      → ((from to : ℕ)
          → (m : List (ℕ × A)) × (get_coins_by_indices is_burning belongs fetch from to ≡ ok m))
      → Synced is_burning belongs fetch max_threads start coin_length s
      → measure coin_length s < fuel
      → (t : Loop A) × Synced is_burning belongs fetch max_threads start coin_length t
        × (t.done ≡ num_threads coin_length start)
  finishes_from zero s pos up r lt = absurd (omega arith)
  finishes_from (suc fuel) s pos up r lt = elim (nat_cases s.done (num_threads coin_length start)) [
    | inl fin ↦ (s, r, fin)
    | inr more ↦ elim (sync-progress s pos r more) [
      | inl (t, st) ↦
          finishes_from fuel t pos up (after r st) (omega (arith, sync-decreases s t r st))
      | inr (b, others, x, e, failed) ↦ let (m, got) = up b.0 b.1 in absurd (grind arith)
    ]
  ]

  -- The node serves the chain, the first index is at most the length of the chain, and the length is
  -- at most 2^64 - 5000. If there is a goroutine at least and the node answers for every
  -- range, the loop can reach its end, with the account's coins from the first index on in the result.
  pub sync-finishes :
      0 < max_threads
      → ((from to : ℕ)
          → (m : List (ℕ × A)) × (get_coins_by_indices is_burning belongs fetch from to ≡ ok m))
      → (t : Loop A) × Synced is_burning belongs fetch max_threads start coin_length t
        × (t.done ≡ num_threads coin_length start)
        × ((i : ℕ) → lookup i t.res ≡ coins_of_account is_burning belongs chain start coin_length i)
  sync-finishes pos up =
      let (t, r, fin) =
        finishes_from (suc (measure coin_length (begin {A = A} start))) (begin start) pos up
          at_start (omega arith) in
      (t, r, fin, sync-wanted t r fin)
