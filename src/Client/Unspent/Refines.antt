-- ===== src/Client/Unspent/Refines.antt =====
-- GetUnspentOutputCoins and GetSpentOutputCoins against a wallet as the owner sees it: a list of coins
-- with their key images, amounts and indices, and the set of the spent key images.
use mathlib.Core.List.{map-append}
use go_incognito_sdk_v.Base.{
  ℕ, ◌+◌, ◌≤◌, ◌≡◌, refl, ap, sym, ◌∙◌, ◌++◌, append-nil, append_assoc, All-append, Bool, true,
  false, not, ◌&&◌, List, [], ◌∷◌, map, filter, ◌==◌, length, Result, ok, ◌>>=◌, arith, All,
  Bool-cases, inl, inr,
}
use go_incognito_sdk_v.Crypto.{Key, Curve, PedersenCommitment}
use go_incognito_sdk_v.Hybrid.{Ctr}
use go_incognito_sdk_v.Keys.{KeySet}
use go_incognito_sdk_v.Client.Unspent.{
  Error, OutCoin, PlainCoin, Outcome, kept, skipped, get_value, Decrypted, decrypt_list,
  check_coins_spent, num_batches, same, select, outcomes, unspent_of, get_unspent_output_coins,
  get_spent_output_coins,
}
use go_incognito_sdk_v.Client.Unspent.Batches.{
  check_batches-map, num_batches_lem, check_coins_spent_lem,
}

pub record Entry (I : Type 0) : Type 0 where
  pub coin : PlainCoin
  pub image : Key
  pub amount : ℕ
  pub index : I

module _ {I : Type 0} where
  abbrev pub coins : List (Entry I) → List PlainCoin
  coins es = map (λ (e : Entry I). e.coin) es

  abbrev pub indices : List (Entry I) → List I
  indices es = map (λ (e : Entry I). e.index) es

  abbrev pub kept_entries : List (Entry I) → List Outcome
  kept_entries es = map (λ (e : Entry I). kept e.coin e.image) es

  abbrev pub total : List (Entry I) → ℕ
  total [] = 0
  total (e ∷ es) = e.amount + total es

module _ {I : Type 0} (text : Key → List ℕ) (spent : List ℕ → Bool) where
  abbrev pub texts : List (Entry I) → List (List ℕ)
  texts es = map (λ (e : Entry I). text e.image) es

  -- A coin that is worth something, and whose key image is spent or not.
  abbrev pub is_wanted : Bool → Entry I → Bool
  is_wanted wanted e = same (spent (text e.image)) wanted && not (e.amount == 0)

  decrypt_list-kept :
      (es : List (Entry I)) → decrypt_list text (kept_entries es) ≡ ok (coins es, texts es)
  unfolding decrypt_list
  decrypt_list-kept [] = refl
  decrypt_list-kept (e ∷ es) = rw (decrypt_list-kept es) refl

  module _ (value : PlainCoin → Result Error ℕ) where
    abbrev pub Worth : Entry I → Type 0
    Worth e = value e.coin ≡ ok e.amount

    -- Indices behind those of the entries are not looked at.
    select-filter :
        (wanted : Bool) (es : List (Entry I)) (more : List I)
        → All Worth es
        → select value wanted (coins es) (map spent (texts es)) (indices es ++ more)
          ≡ ok (coins (filter (is_wanted wanted) es), indices (filter (is_wanted wanted) es))
    unfolding select
    select-filter wanted [] more h = refl
    select-filter wanted (e ∷ es) more h = elim (Bool-cases (same (spent (text e.image)) wanted)) [
      | inr s ↦ rw s (select-filter wanted es more h.1)
      | inl s ↦ elim (Bool-cases (e.amount == 0)) [
        | inl z ↦ rw (s, h.0, z) (select-filter wanted es more h.1)
        | inr z ↦ rw (s, h.0, z) (rw (select-filter wanted es more h.1) refl)
      ]
    ]

  -- The amounts of the spent and of the unspent coins add up.
  total-filter :
      (es : List (Entry I))
      → total (filter (is_wanted false) es) + total (filter (is_wanted true) es) ≡ total es
  total-filter [] = omega arith
  total-filter (e ∷ es) = ground (arith, total-filter es)

-- What GetValue gives for the coins of a list, added up.
unfoldable pub total_value : Curve → PedersenCommitment → List PlainCoin → Result Error ℕ
unfolding get_value
total_value c pcm [] = ok 0
total_value c pcm (p ∷ ps) = do v ← get_value c pcm p; rest ← total_value c pcm ps; ok (v + rest)

module _ {I : Type 0} (derive : Key → Key → Key → Key) (num_shards : ℕ) (c : Curve)
    (pcm : PedersenCommitment) (ctr : Ctr) (text : Key → List ℕ)
    (node : List (List ℕ) → Result Error (List Bool)) (ks : KeySet) (spent : List ℕ → Bool) where
  abbrev pub wallet_entries : Bool → List (Entry I) → List (Entry I)
  wallet_entries wanted es = filter (is_wanted text spent wanted) es

  unspent_of-entries :
      (es : List (Entry I)) (more : List I)
      → ((images : List (List ℕ)) → length images ≤ 100 → node images ≡ ok (map spent images))
      → All (Worth text spent (get_value c pcm)) es
      → unspent_of derive num_shards c pcm ctr text node ks
          (indices es ++ more)
          (coins es, texts text spent es)
        ≡ ok (coins (wallet_entries false es), indices (wallet_entries false es))
  unfolding unspent_of
  unspent_of-entries [] more answers h = refl
  unspent_of-entries (e ∷ es) more answers h =
      let images = texts text spent (e ∷ es) in
      rw
        (check_batches-map node spent answers (num_batches (length images)) 0 images
          (num_batches_lem (length images)))
        (select-filter text spent (get_value c pcm) false (e ∷ es) more h)

  -- The indices may be more than the coins that are decrypted.
  decrypted_lem :
      (xs : List OutCoin) (es : List (Entry I)) (more : List I)
      → decrypt_list text (outcomes derive num_shards c pcm ctr text node ks xs)
        ≡ ok (coins es, texts text spent es)
      → All (Worth text spent (get_value c pcm)) es
      → ((images : List (List ℕ)) → length images ≤ 100 → node images ≡ ok (map spent images))
      → get_unspent_output_coins derive num_shards c pcm ctr text node ks xs (indices es ++ more)
        ≡ ok (coins (wallet_entries false es), indices (wallet_entries false es))
  unfolding get_unspent_output_coins decrypt_list
  decrypted_lem [] [] more e h answers = refl
  decrypted_lem [] (x ∷ es) more e h answers = cc
  decrypted_lem (x ∷ xs) es more e h answers =
      ap
        (λ (r : Result Error Decrypted). r >>= λ found.
          unspent_of derive num_shards c pcm ctr text node ks (indices es ++ more) found)
        e
      ∙ unspent_of-entries es more answers h

  -- If every output coin is decrypted, as the entries say, and the node answers truly to lists of up
  -- to 100 key images, then GetUnspentOutputCoins returns the coins that are worth something and whose
  -- key images are not spent, in order and each with its own index.
  pub get_unspent_output_coins-refines :
      (xs : List OutCoin) (es : List (Entry I))
      → outcomes derive num_shards c pcm ctr text node ks xs ≡ kept_entries es
      → All (Worth text spent (get_value c pcm)) es
      → ((images : List (List ℕ)) → length images ≤ 100 → node images ≡ ok (map spent images))
      → get_unspent_output_coins derive num_shards c pcm ctr text node ks xs (indices es)
        ≡ ok (coins (wallet_entries false es), indices (wallet_entries false es))
  get_unspent_output_coins-refines xs es e h answers =
      ap (get_unspent_output_coins derive num_shards c pcm ctr text node ks xs)
        (sym (append-nil (indices es)))
      ∙ decrypted_lem xs es [] (ap (decrypt_list text) e ∙ decrypt_list-kept text spent es) h
          answers

  get_spent_output_coins-entries :
      (xs : List OutCoin) (es : List (Entry I))
      → outcomes derive num_shards c pcm ctr text node ks xs ≡ kept_entries es
      → All (Worth text spent (get_value c pcm)) es
      → node (texts text spent es) ≡ ok (map spent (texts text spent es))
      → get_spent_output_coins derive num_shards c pcm ctr text node ks xs (indices es)
        ≡ ok (coins (wallet_entries true es), indices (wallet_entries true es))
  unfolding get_spent_output_coins
  get_spent_output_coins-entries [] [] e h answers = refl
  get_spent_output_coins-entries [] (x ∷ es) e h answers = cc
  get_spent_output_coins-entries (x ∷ xs) es e h answers =
      let ask = λ (r : Result Error Decrypted). r >>= λ found.
      (check_coins_spent node found.1 >>= λ told.
      select (get_value c pcm) true found.0 told (indices es)) in
      ap (λ os. ask (decrypt_list text os)) e
      ∙ ap ask (decrypt_list-kept text spent es)
      ∙ ap (λ r. r >>= λ told. select (get_value c pcm) true (coins es) told (indices es))
          (check_coins_spent_lem node spent (texts text spent es) answers)
      ∙ (rw (← append-nil (indices es)) (select-filter text spent (get_value c pcm) true es [] h))

  total_value-coins :
      (es : List (Entry I))
      → All (Worth text spent (get_value c pcm)) es
      → total_value c pcm (coins es) ≡ ok (total es)
  unfolding total_value
  total_value-coins [] h = refl
  total_value-coins (e ∷ es) h = rw h.0 (rw (total_value-coins es h.1) refl)

  filter-Worth :
      (wanted : Bool) (es : List (Entry I))
      → All (Worth text spent (get_value c pcm)) es
      → All (Worth text spent (get_value c pcm)) (wallet_entries wanted es)
  filter-Worth wanted [] h = tt
  filter-Worth wanted (e ∷ es) h = elim (Bool-cases (is_wanted text spent wanted e)) [
    | inl w ↦ rw w (h.0, filter-Worth wanted es h.1)
    | inr w ↦ rw w (filter-Worth wanted es h.1)
  ]

  -- Under the same conditions, and if the node also answers truly to the list of all key images, both
  -- GetUnspentOutputCoins and GetSpentOutputCoins return coins, and the sums of what GetValue gives for
  -- the coins of either add up to the total of the wallet.
  pub spent_and_unspent-total :
      (xs : List OutCoin) (es : List (Entry I))
      → outcomes derive num_shards c pcm ctr text node ks xs ≡ kept_entries es
      → All (Worth text spent (get_value c pcm)) es
      → ((images : List (List ℕ)) → length images ≤ 100 → node images ≡ ok (map spent images))
      → node (texts text spent es) ≡ ok (map spent (texts text spent es))
      → (us : List PlainCoin × List I) × (ss : List PlainCoin × List I) × (u : ℕ) × (s : ℕ)
        × (get_unspent_output_coins derive num_shards c pcm ctr text node ks xs (indices es)
            ≡ ok us)
        × (get_spent_output_coins derive num_shards c pcm ctr text node ks xs (indices es) ≡ ok ss)
        × (total_value c pcm us.0 ≡ ok u)
        × (total_value c pcm ss.0 ≡ ok s)
        × (u + s ≡ total es)
  spent_and_unspent-total xs es e h answers whole =
      let us = wallet_entries false es in
      let ss = wallet_entries true es in
      (
        (coins us, indices us),
        (coins ss, indices ss),
        total us,
        total ss,
        get_unspent_output_coins-refines xs es e h answers,
        get_spent_output_coins-entries xs es e h whole,
        total_value-coins us (filter-Worth false es h),
        total_value-coins ss (filter-Worth true es h),
        total-filter text spent es,
      )

  -- The entries with `i` and the indices of the entries before them.
  abbrev pub shifted : I → List (Entry I) → List (Entry I)
  shifted i [] = []
  shifted i (e ∷ es) = record e { index = i } ∷ shifted e.index es

  -- The last of `i` and the indices
  abbrev last_index : I → List (Entry I) → I
  last_index i [] = i
  last_index i (e ∷ es) = last_index e.index es

  indices-shifted :
      (i : I) (es : List (Entry I))
      → i ∷ indices es ≡ indices (shifted i es) ++ (last_index i es ∷ [])
  indices-shifted i [] = refl
  indices-shifted i (e ∷ es) = ap (λ k. i ∷ k) (indices-shifted e.index es)

  coins-shifted : (i : I) (es : List (Entry I)) → coins (shifted i es) ≡ coins es
  coins-shifted i [] = refl
  coins-shifted i (e ∷ es) = ap (λ k. e.coin ∷ k) (coins-shifted e.index es)

  texts-shifted :
      (i : I) (es : List (Entry I)) → texts text spent (shifted i es) ≡ texts text spent es
  texts-shifted i [] = refl
  texts-shifted i (e ∷ es) = ap (λ k. text e.image ∷ k) (texts-shifted e.index es)

  shifted-Worth :
      (i : I) (es : List (Entry I))
      → All (Worth text spent (get_value c pcm)) es
      → All (Worth text spent (get_value c pcm)) (shifted i es)
  shifted-Worth i [] h = tt
  shifted-Worth i (e ∷ es) h = (h.0, shifted-Worth e.index es h.1)

  decrypt_list-skipped :
      (i : I) (before after : List (Entry I))
      → decrypt_list text (kept_entries before ++ (skipped ∷ kept_entries after))
        ≡ ok (coins (before ++ shifted i after), texts text spent (before ++ shifted i after))
  unfolding decrypt_list
  decrypt_list-skipped i [] after =
      decrypt_list-kept text spent after
      ∙ ap (λ k. ok (k, texts text spent after)) (sym (coins-shifted i after))
      ∙ ap (λ k. ok (coins (shifted i after), k)) (sym (texts-shifted i after))
  decrypt_list-skipped i (e ∷ before) after = rw (decrypt_list-skipped i before after) refl

  wallet_entries-append :
      {B : Type 0} (f : Entry I → B) (before after : List (Entry I))
      → map f (wallet_entries false (before ++ after))
        ≡ map f (wallet_entries false before) ++ map f (wallet_entries false after)
  wallet_entries-append f [] after = refl
  wallet_entries-append f (e ∷ before) after = elim (Bool-cases (is_wanted text spent false e)) [
    | inl w ↦ rw w (ap (λ k. f e ∷ k) (wallet_entries-append f before after))
    | inr w ↦ rw w (wallet_entries-append f before after)
  ]

  -- If every output coin but one is decrypted, as the entries say, and the other is left out, then
  -- GetUnspentOutputCoins, given the index of each output coin, returns the unspent coins that are
  -- worth something; those before the coin that was left out have their own indices, and those behind
  -- it have the index of the output coin before theirs. The node answers truly to up to 100 key images.
  pub get_unspent_output_coins-skipped :
      (xs : List OutCoin) (before after : List (Entry I)) (i : I)
      → outcomes derive num_shards c pcm ctr text node ks xs
        ≡ kept_entries before ++ (skipped ∷ kept_entries after)
      → All (Worth text spent (get_value c pcm)) before
      → All (Worth text spent (get_value c pcm)) after
      → ((images : List (List ℕ)) → length images ≤ 100 → node images ≡ ok (map spent images))
      → get_unspent_output_coins derive num_shards c pcm ctr text node ks xs
          (indices before ++ (i ∷ indices after))
        ≡ ok (
          coins (wallet_entries false before) ++ coins (wallet_entries false (shifted i after)),
          indices (wallet_entries false before) ++ indices (wallet_entries false (shifted i after)),
        )
  get_unspent_output_coins-skipped xs before after i e hb ha answers =
      let es = before ++ shifted i after in
      let wanted = wallet_entries false in
      ap (get_unspent_output_coins derive num_shards c pcm ctr text node ks xs) (
        ap (λ k. indices before ++ k) (indices-shifted i after)
        ∙ sym (append_assoc (indices before) (indices (shifted i after)) (last_index i after ∷ []))
        ∙ ap (λ k. k ++ (last_index i after ∷ []))
            (sym (map-append (λ (e : Entry I). e.index) before (shifted i after))))
      ∙ decrypted_lem xs es (last_index i after ∷ [])
          (ap (decrypt_list text) e ∙ decrypt_list-skipped i before after)
          (All-append (Worth text spent (get_value c pcm)) before (shifted i after) hb
            (shifted-Worth i after ha))
          answers
      ∙ ap (λ k. ok (k, indices (wanted es)))
          (wallet_entries-append (λ (e : Entry I). e.coin) before (shifted i after))
      ∙ ap (λ k. ok (coins (wanted before) ++ coins (wanted (shifted i after)), k))
          (wallet_entries-append (λ (e : Entry I). e.index) before (shifted i after))
