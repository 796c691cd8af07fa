-- ===== src/Client/Cache/Update.antt =====
-- update and updateAllTokens of incclient/coin_cache_utils.go.
use go_incognito_sdk_v.Base.{
  ℕ, ◌≡◌, refl, sym, ◌∙◌, ap, inl, inr, Bool, true, ◌&&◌, List, [], ◌∷◌, Option, none, some, ◌==◌,
  if◌then◌else◌, ok, arith, Bool-cases, Option-cases, All,
}
use go_incognito_sdk_v.Base.Maps.{lookup, put, IsMap, lookup-put, or_else, or_else-none}
use go_incognito_sdk_v.Client.Cache.{
  TokenCache, Tokens, add_missing, set_token, token_or_new, with_coin, update, add_to_token,
  distribute,
}

module _ {A : Type 0} where
  abbrev pub unless : Option A → Option A → Option A
  unless none o = o
  unless (some a) o = none

  unless-none : (o : Option A) → unless o none ≡ none
  unless-none none = refl
  unless-none (some a) = refl

  -- A coin that is cached stays, and the other new ones are added.
  pub lookup-add_missing :
      (i : ℕ) (cached new : List (ℕ × A))
      → lookup i (add_missing cached new).0 ≡ or_else (lookup i cached) (lookup i new)
  unfolding add_missing lookup
  lookup-add_missing i cached [] = sym (or_else-none (lookup i cached))
  lookup-add_missing i cached ((j, c) ∷ new) = elim (Option-cases (lookup j cached)) [
    | inr (d, e) ↦
        rw (e, add_missing)
          (lookup-add_missing i cached new ∙ elim (Bool-cases (i == j)) [
            | inl q ↦ let r : i ≡ j = ground arith in rw (r, e) refl
            | inr q ↦ rw q refl
          ])
    | inl e ↦
        rw (e, add_missing)
          (lookup-add_missing i (put j c cached) new
            ∙ rw (lookup-put i j c cached) (elim (Bool-cases (i == j)) [
              | inl q ↦ let r : i ≡ j = ground arith in rw (q, r, e) (ground arith)
              | inr q ↦ rw q refl
            ]))
  ]

  -- updatedRecords are the new coins that were not cached.
  pub lookup-records :
      (i : ℕ) (cached new : List (ℕ × A))
      → lookup i (add_missing cached new).1 ≡ unless (lookup i cached) (lookup i new)
  unfolding add_missing lookup
  lookup-records i cached [] = sym (unless-none (lookup i cached))
  lookup-records i cached ((j, c) ∷ new) = elim (Option-cases (lookup j cached)) [
    | inr (d, e) ↦
        rw (e, add_missing)
          (lookup-records i cached new ∙ elim (Bool-cases (i == j)) [
            | inl q ↦ let r : i ≡ j = ground arith in rw (r, e) refl
            | inr q ↦ rw q refl
          ])
    | inl e ↦
        rw (e, add_missing)
          (elim (Bool-cases (i == j)) [
            | inl q ↦ let r : i ≡ j = ground arith in rw (q, r, e) refl
            | inr q ↦
                rw q (lookup-records i (put j c cached) new ∙ rw (lookup-put i j c cached, q) refl)
          ])
  ]

module _ {A : Type 0} where
  lookup-with_coin :
      (latest i j : ℕ) (c : A) (t : TokenCache A)
      → lookup i (with_coin latest j c t).data_map
        ≡ or_else (lookup i t.data_map) (if i == j then some c else none)
  unfolding with_coin
  lookup-with_coin latest i j c t = elim (Option-cases (lookup j t.data_map)) [
    | inl e ↦
        rw (e, with_coin)
          (lookup-put i j c t.data_map ∙ elim (Bool-cases (i == j)) [
            | inl q ↦ let r : i ≡ j = ground arith in rw (q, r, e) refl
            | inr q ↦ rw (q, or_else-none (lookup i t.data_map)) refl
          ])
    | inr (d, e) ↦
        rw (e, with_coin)
          (elim (Bool-cases (i == j)) [
            | inl q ↦ let r : i ≡ j = ground arith in rw (q, r, e) refl
            | inr q ↦ rw (q, or_else-none (lookup i t.data_map)) refl
          ])
  ]

  lookup-token_or_new :
      (latest i : ℕ) (o : Option (TokenCache A))
      → lookup i (token_or_new latest o).data_map
        ≡ elim o [ none ↦ none | some t ↦ lookup i t.data_map ]
  unfolding token_or_new lookup
  lookup-token_or_new latest i none = refl
  lookup-token_or_new latest i (some t) = refl

module _ {K A : Type 0} where
  -- The coin that the cache of a token holds at an index.
  abbrev pub cached_coin : K → ℕ → Tokens K A → Option A
  cached_coin k i ac = elim (ac k) [ none ↦ none | some t ↦ lookup i t.data_map ]

module _ {K A : Type 0} (same : K → K → Bool) (same_refl : (k : K) → same k k ≡ true)
    (same_eq : (j k : K) → same j k ≡ true → j ≡ k) where
  cached_coin-set_token :
      (k j : K) (i : ℕ) (t : TokenCache A) (ac : Tokens K A)
      → cached_coin j i (set_token same k t ac)
        ≡ (if same j k then lookup i t.data_map else cached_coin j i ac)
  cached_coin-set_token k j i t ac = ground arith

  pub update-cached_coin :
      (k j : K) (latest i : ℕ) (out_coins : List (ℕ × A)) (ac : Tokens K A)
      → cached_coin j i (update same k latest out_coins ac).0 ≡ (
          if same j k
          then or_else (cached_coin k i ac) (lookup i out_coins)
          else cached_coin j i ac)
  unfolding update
  update-cached_coin k j latest i out_coins ac = elim (Option-cases (ac k)) [
    | inl e ↦ rw (e, update) (ground arith)
    | inr (t, e) ↦
        let l = lookup-add_missing i t.data_map out_coins in rw (e, update) (ground (arith, l))
  ]

  add_to_token-cached_coin :
      (latest : ℕ) (k j : K) (i i' : ℕ) (c : A) (ac : Tokens K A)
      → cached_coin j i (add_to_token same latest k i' c ac)
        ≡ or_else (cached_coin j i ac) (if same j k && (i == i') then some c else none)
  unfolding add_to_token
  add_to_token-cached_coin latest k j i i' c ac =
      let set =
        cached_coin-set_token k j i (with_coin latest i' c (token_or_new latest (ac k))) ac in
      let l = lookup-with_coin latest i i' c (token_or_new latest (ac k)) in
      let n = lookup-token_or_new latest i (ac k) in
      elim (Bool-cases (same j k)) [
        | inl q ↦
            let r : j ≡ k = same_eq j k q in
            set
            ∙ rw q (
                l
                ∙ ap (λ x. or_else x (if i == i' then some c else none)) n
                ∙ ap (λ x. or_else (cached_coin x i ac) (if i == i' then some c else none)) (sym r))
        | inr q ↦ set ∙ rw q (sym (or_else-none (cached_coin j i ac)))
      ]

module _ {K A S : Type 0} (same : K → K → Bool) (get_token_id : S → A → Option K) where
  -- The coin, if it is one of the token.
  abbrev pub of_token : S → K → Option A → Option A
  of_token s j none = none
  of_token s j (some c) = elim (get_token_id s c) [
    | none ↦ none
    | some k ↦ if same j k then some c else none
  ]

module _ {K A S : Type 0} (same : K → K → Bool) (same_refl : (k : K) → same k k ≡ true)
    (same_eq : (j k : K) → same j k ≡ true → j ≡ k) (is_coin_v2 : A → Bool)
    (get_token_id : S → A → Option K) where
  of_token-skipped :
      (s : S) (i i' : ℕ) (j : K) (c : A) (records : List (ℕ × A))
      → get_token_id s c ≡ none
      → lookup i' records ≡ none
      → of_token same get_token_id s j (lookup i records)
        ≡ of_token same get_token_id s j (if i == i' then some c else lookup i records)
  of_token-skipped s i i' j c records e h = elim (Bool-cases (i == i')) [
    | inl q ↦ let r : i ≡ i' = ground arith in rw (q, r, h, e) refl
    | inr q ↦ rw q refl
  ]

  of_token-added :
      (s : S) (i i' : ℕ) (j k : K) (c : A) (o : Option A) (records : List (ℕ × A))
      → get_token_id s c ≡ some k
      → lookup i' records ≡ none
      → or_else
          (or_else o (if same j k && (i == i') then some c else none))
          (of_token same get_token_id s j (lookup i records))
        ≡ or_else o (of_token same get_token_id s j (if i == i' then some c else lookup i records))
  of_token-added s i i' j k c none records e h = elim (Bool-cases (i == i')) [
    | inl q ↦
        let r : i ≡ i' = ground arith in
        rw (q, e) (elim (Bool-cases (same j k)) [ inl p ↦ rw p refl | inr p ↦ rw (p, r, h) refl ])
    | inr q ↦ rw q (elim (Bool-cases (same j k)) [ inl p ↦ rw p refl | inr p ↦ rw p refl ])
  ]
  of_token-added s i i' j k c (some d) records e h = refl

  pub distribute-cached_coin :
      (s : S) (latest i : ℕ) (j : K) (records : List (ℕ × A)) (ac : Tokens K A)
      → All (λ r. is_coin_v2 r.1 ≡ true) records
      → IsMap records
      → (cached_coin j i (distribute same is_coin_v2 get_token_id s latest records ac).0
          ≡ or_else (cached_coin j i ac) (of_token same get_token_id s j (lookup i records)))
        × ((distribute same is_coin_v2 get_token_id s latest records ac).1 ≡ ok tt)
  unfolding distribute lookup IsMap
  distribute-cached_coin s latest i j [] ac v2 h = (sym (or_else-none (cached_coin j i ac)), refl)
  distribute-cached_coin s latest i j ((i', c) ∷ records) ac v2 h =
      elim (Option-cases (get_token_id s c)) [
        | inl e ↦
            let (ih, done) = distribute-cached_coin s latest i j records ac v2.1 h.1 in
            rw (v2.0, e, distribute)
              (
                ih
                    ∙ ap (λ x. or_else (cached_coin j i ac) x)
                        (of_token-skipped s i i' j c records e h.0),
                done,
              )
        | inr (k, e) ↦
            let (ih, done) =
              distribute-cached_coin s latest i j records (add_to_token same latest k i' c ac) v2.1
                h.1 in
            rw (v2.0, e, distribute)
              (
                ih
                    ∙ ap (λ x. or_else x (of_token same get_token_id s j (lookup i records)))
                        (add_to_token-cached_coin same same_refl same_eq latest k j i i' c ac)
                    ∙ of_token-added s i i' j k c (cached_coin j i ac) records e h.0,
                done,
              )
      ]
