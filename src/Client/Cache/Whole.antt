-- ===== src/Client/Cache/Whole.antt =====
-- What follows the loop of syncOutCoinV2 of incclient/coin_cache.go.
pub mod History
use mathlib.Core.Path.{subst}
use go_incognito_sdk_v.Base.{
  ℕ, zero, suc, ◌+◌, ◌-◌, ◌%◌, ◌^◌, ◌≤◌, ◌<◌, ◌≡◌, ◌≢◌, refl, sym, ◌∙◌, ap, ◌⊎◌, inl, inr, Bool,
  true, false, ◌&&◌, List, [], ◌∷◌, Option, none, some, ltb, leb, ◌==◌, if◌then◌else◌, Result, ok,
  err, arith, Bool-cases, Option-cases, le_or_lt, All,
}
use go_incognito_sdk_v.Base.Maps.{lookup, put, IsMap, lookup-put, or_else}
use go_incognito_sdk_v.Client.Cache.{
  Error, TokenCache, Tokens, new_account_cache, set_token, update, add_missing, add_to_token,
  distribute, update_all_tokens, finish_sync,
}
use go_incognito_sdk_v.Client.Cache.Update.{
  cached_coin, unless, lookup-add_missing, lookup-records, update-cached_coin, of_token,
  distribute-cached_coin,
}
use go_incognito_sdk_v.Client.Cache.Sync.{first_index}
use go_incognito_sdk_v.Client.Cache.Sync.Safe.{wanted}

-- An index that was synchronised holds the account's coin, if there is one. Any other is empty, or
-- holds it too.
unfoldable pub IsCurrent : {A : Type 0} → (ℕ → Option A) → Option (TokenCache A) → Type 0
IsCurrent own none = Unit {0}
IsCurrent own (some t) =
    (i : ℕ)
    → ((lookup i t.data_map ≡ none) × ((t.latest_index ≡ 0) ⊎ (t.latest_index < i)))
      ⊎ (lookup i t.data_map ≡ own i)

-- LatestIndex of the cache of a token, or of a new one
abbrev pub latest_of : {A : Type 0} → Option (TokenCache A) → ℕ
latest_of none = 0
latest_of (some t) = t.latest_index

caught_up :
    {A : Type 0} (own : ℕ → Option A) (latest n i : ℕ) (o r : Option A)
    → latest + 1 < 2 ^ 64
    → ((o ≡ none) × ((latest ≡ 0) ⊎ (latest < i))) ⊎ (o ≡ own i)
    → r ≡ wanted own (first_index latest) n i
    → ((or_else o r ≡ none) × (n ≤ i)) ⊎ (or_else o r ≡ own i)
caught_up own latest n i none r small (inl (e, s)) w = elim (le_or_lt n i) [
  | inl past ↦ inl (w ∙ ground arith, past)
  | inr under ↦ inr (w ∙ ground arith)
]
caught_up own latest n i none r small (inr e) w = inr (grind arith)
caught_up own latest n i (some a) r small (inl (e, s)) w = absurd (grind arith)
caught_up own latest n i (some a) r small (inr e) w = inr e

module _ {K A : Type 0} (same : K → K → Bool) (same_refl : (k : K) → same k k ≡ true) where
  -- After the update with all that is wanted below `coin_length`, every index below it holds the
  -- account's coin.
  pub update-whole :
      (own : ℕ → Option A) (k : K) (coin_length : ℕ) (res : List (ℕ × A)) (ac : Tokens K A)
      → IsCurrent own (ac k)
      → latest_of (ac k) + 1 < 2 ^ 64
      → first_index (latest_of (ac k)) < coin_length
      → ((i : ℕ) → lookup i res ≡ wanted own (first_index (latest_of (ac k))) coin_length i)
      → (t : TokenCache A) × ((update same k (coin_length - 1) res ac).0 k ≡ some t)
        × (t.latest_index ≡ coin_length - 1)
        × ((i : ℕ)
            → ((lookup i t.data_map ≡ none) × (coin_length ≤ i)) ⊎ (lookup i t.data_map ≡ own i))
  unfolding IsCurrent update
  update-whole own k n res ac cur small lt all = elim (Option-cases (ac k)) [
    | inl e ↦ (
      record { latest_index = n - 1; data_map = res },
      rw (e, update) (ground (arith, same_refl k)),
      refl,
      λ i.
          caught_up own 0 n i none (lookup i res) (omega arith) (inl (refl, inl refl))
            (all i ∙ rw e refl),
    )
    | inr (t, e) ↦ (
      record { latest_index = n - 1; data_map = (add_missing t.data_map res).0 },
      rw (e, update) (ground (arith, same_refl k)),
      refl,
      λ i. rw (lookup-add_missing i t.data_map res) (
          caught_up own t.latest_index n i (lookup i t.data_map) (lookup i res)
            (subst (λ o. latest_of o + 1 < 2 ^ 64) e small) (subst (IsCurrent own) e cur i)
            (all i ∙ rw e refl)),
    )
  ]

module _ {A : Type 0} where
  records-IsMap : (cached new : List (ℕ × A)) → IsMap (add_missing cached new).1
  unfolding IsMap add_missing
  records-IsMap cached [] = tt
  records-IsMap cached ((i, c) ∷ new) = elim (Option-cases (lookup i cached)) [
    | inr (d, e) ↦ rw (e, add_missing) (records-IsMap cached new)
    | inl e ↦
        let r = lookup-records i (put i c cached) new in
        let l = lookup-put i i c cached in
        rw (e, add_missing) (ground (arith, r, l), records-IsMap (put i c cached) new)
  ]

  records-All :
      (P : ℕ × A → Type 0) (cached new : List (ℕ × A))
      → All P new
      → All P (add_missing cached new).1
  unfolding add_missing
  records-All P cached [] h = tt
  records-All P cached ((i, c) ∷ new) h = elim (Option-cases (lookup i cached)) [
    | inr (d, e) ↦ rw (e, add_missing) (records-All P cached new h.1)
    | inl e ↦ rw (e, add_missing) (h.0, records-All P (put i c cached) new h.1)
  ]

  -- What update hands on for the tokens.
  pub record Records {K : Type 0} (same : K → K → Bool) (P : ℕ × A → Type 0) (conf : K) (latest : ℕ)
      (out_coins : List (ℕ × A)) (ac : Tokens K A) : Type 0 where
    pub keys : IsMap (update same conf latest out_coins ac).1
    pub each : All P (update same conf latest out_coins ac).1
    pub at :
        (i : ℕ)
        → lookup i (update same conf latest out_coins ac).1
          ≡ unless (cached_coin conf i ac) (lookup i out_coins)

  update-Records :
      {K : Type 0} (same : K → K → Bool) (P : ℕ × A → Type 0) (conf : K) (latest : ℕ)
      (out : List (ℕ × A)) (ac : Tokens K A)
      → IsMap out
      → All P out
      → Records same P conf latest out ac
  unfolding update
  update-Records same P conf latest out ac h a = elim (Option-cases (ac conf)) [
    | inl e ↦ record {
      keys = rw (e, update) h;
      each = rw (e, update) a;
      at = λ i.
          rw (e, update)
            (ap (λ o. unless (elim o [ none ↦ none | some t ↦ lookup i t.data_map ]) (lookup i out))
              (sym e));
    }
    | inr (t, e) ↦ record {
      keys = rw (e, update) (records-IsMap t.data_map out);
      each = rw (e, update) (records-All P t.data_map out a);
      at = λ i.
          rw (e, update)
            (lookup-records i t.data_map out
              ∙ ap
                  (λ o.
                    unless (elim o [ none ↦ none | some t ↦ lookup i t.data_map ]) (lookup i out))
                  (sym e));
    }
  ]

module _ {K A S : Type 0} (same : K → K → Bool) (same_refl : (k : K) → same k k ≡ true)
    (same_eq : (j k : K) → same j k ≡ true → j ≡ k) (is_coin_v2 : A → Bool)
    (get_token_id : S → A → Option K) where
  -- Identifiers are equal exactly if they compare so, the key set is known, and the new coins have
  -- distinct indices and are all of version 2. Each cache of a token keeps its coins. That of the
  -- confidential assets takes the new coins at the indices at which it has none, and of these coins
  -- each token takes its own, at the indices at which it has none. There is no error.
  pub update_all_tokens-cached_coin :
      (conf j : K) (s : S) (latest i : ℕ) (out_coins : List (ℕ × A)) (ac : Tokens K A)
      → IsMap out_coins
      → All (λ r. is_coin_v2 r.1 ≡ true) out_coins
      → (cached_coin j i
            (update_all_tokens same is_coin_v2 get_token_id conf (ok s) latest out_coins ac).0
          ≡ or_else
              (if same j conf
                then or_else (cached_coin conf i ac) (lookup i out_coins)
                else cached_coin j i ac)
              (of_token same get_token_id s j
                (unless (cached_coin conf i ac) (lookup i out_coins))))
        × ((update_all_tokens same is_coin_v2 get_token_id conf (ok s) latest out_coins ac).1
            ≡ ok tt)
  unfolding update_all_tokens
  update_all_tokens-cached_coin conf j s latest i out ac h v2 =
      let upd = update same conf latest out ac in
      let r = update-Records same (λ r. is_coin_v2 r.1 ≡ true) conf latest out ac h v2 in
      let (x, done) =
        distribute-cached_coin same same_refl same_eq is_coin_v2 get_token_id s latest i j upd.1
          upd.0 r.each r.keys in
      (
        x
            ∙ ap (λ o. or_else o (of_token same get_token_id s j (lookup i upd.1)))
                (update-cached_coin same same_refl same_eq conf j latest i out ac)
            ∙ ap
                (λ o.
                  or_else
                    (if same j conf
                      then or_else (cached_coin conf i ac) (lookup i out)
                      else cached_coin j i ac)
                    (of_token same get_token_id s j o))
                (r.at i),
        done,
      )
