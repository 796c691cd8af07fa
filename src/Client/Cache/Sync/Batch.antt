-- ===== src/Client/Cache/Sync/Batch.antt =====
-- getCoinsByIndices of incclient/coin_cache.go: what a batch holds.
use go_incognito_sdk_v.Base.{
  ℕ, zero, suc, ◌+◌, ◌-◌, ◌≡◌, refl, ◌∙◌, inl, inr, Bool, true, false, ◌&&◌, ◌||◌, List, [], ◌∷◌,
  Option, none, some, ltb, leb, ◌==◌, if◌then◌else◌, Result, ok, arith, Bool-cases, Result-cases,
  ok_injective,
}
use go_incognito_sdk_v.Base.Maps.{lookup, put, IsMap, lookup-put, or_else}
use go_incognito_sdk_v.Client.Cache.{Error}
use go_incognito_sdk_v.Client.Cache.Sync.{count_up, select, get_coins_by_indices, merge}

unfoldable pub contains : ℕ → List ℕ → Bool
contains i [] = false
contains i (j ∷ js) = i == j || contains i js

contains-count_up :
    (i count from : ℕ) → contains i (count_up count from) ≡ (leb from i && ltb i (from + count))
unfolding contains count_up
contains-count_up i zero from = ground arith
contains-count_up i (suc count) from = ground (arith, contains-count_up i count (from + 1))

module _ {A : Type 0} where
  -- What the program relies on of the node: the answer to a request holds the coins of the chain at
  -- the indices asked for, and nothing else.
  pub record Serves (fetch : List ℕ → Result Error (List (ℕ × A))) (chain : ℕ → Option A)
      : Type 0 where
    pub keys : (is : List ℕ) (m : List (ℕ × A)) → fetch is ≡ ok m → IsMap m
    pub coins :
        (is : List ℕ) (m : List (ℕ × A)) (i : ℕ)
        → fetch is ≡ ok m
        → lookup i m ≡ (if contains i is then chain i else none)

module _ {A : Type 0} (is_burning : A → Bool) (belongs : A → A × Bool) where
  -- A coin of the chain, if it is the account's.
  abbrev pub owned : Option A → Option A
  owned none = none
  owned (some c) = if is_burning c then none else if (belongs c).1 then some (belongs c).0 else none

  select-absent :
      (i : ℕ) (m : List (ℕ × A)) → lookup i m ≡ none → lookup i (select is_burning belongs m) ≡ none
  unfolding lookup select
  select-absent i [] h = refl
  select-absent i ((j, c) ∷ m) h = elim (Bool-cases (i == j)) [
    | inl e ↦ ground arith
    | inr e ↦ let ih = select-absent i m (ground arith) in ground (arith, ih)
  ]

  lookup-select :
      (i : ℕ) (m : List (ℕ × A))
      → IsMap m
      → lookup i (select is_burning belongs m) ≡ owned (lookup i m)
  unfolding lookup select IsMap
  lookup-select i [] h = refl
  lookup-select i ((j, c) ∷ m) h =
      let ih = lookup-select i m h.1 in
      elim (Bool-cases (i == j)) [
        | inl e ↦
            let q : i ≡ j = ground arith in
            let a : lookup i (select is_burning belongs m) ≡ none = select-absent i m (rw q h.0) in
            ground (arith, a)
        | inr e ↦ ground (arith, ih)
      ]

  select-IsMap : (m : List (ℕ × A)) → IsMap m → IsMap (select is_burning belongs m)
  unfolding select IsMap
  select-IsMap [] h = tt
  select-IsMap ((j, c) ∷ m) h = elim (Bool-cases (is_burning c)) [
    | inl e ↦ rw (e, select) (select-IsMap m h.1)
    | inr e ↦ elim (Bool-cases (belongs c).1) [
      | inl b ↦ rw (e, b, select) (select-absent j m h.0, select-IsMap m h.1)
      | inr b ↦ rw (e, b, select) (select-IsMap m h.1)
    ]
  ]

  Bool_owned :
      (b : Bool) (o : Option A) → owned (if b then o else none) ≡ (if b then owned o else none)
  Bool_owned true o = refl
  Bool_owned false o = refl

  -- getCoinsByIndices answers with the account's coins of the range, each as it stands on the chain
  -- with what the check of ownership has written into it.
  pub get_coins_by_indices-lookup :
      (fetch : List ℕ → Result Error (List (ℕ × A))) (chain : ℕ → Option A)
      → Serves fetch chain
      → (from to : ℕ) (m : List (ℕ × A))
      → get_coins_by_indices is_burning belongs fetch from to ≡ ok m
      → IsMap m
        × ((i : ℕ) → lookup i m ≡ (if leb from i && leb i to then owned (chain i) else none))
  unfolding get_coins_by_indices
  get_coins_by_indices-lookup fetch chain sv from to m e =
      let is = count_up (to + 1 - from) from in
      elim (Result-cases (fetch is)) [
        | inr (x, f) ↦ absurd (grind arith)
        | inl (a, f) ↦
            let k : select is_burning belongs a ≡ m = ok_injective {E = Error} _ _ (grind arith) in
            let d = sv.keys is a f in
            let r : (i : ℕ) → contains i is ≡ (leb from i && leb i to) =
              λ i. contains-count_up i (to + 1 - from) from ∙ ground arith in
            (
              rw (← k) (select-IsMap a d),
              λ i.
                  rw (← k, lookup-select i a d, sv.coins is a i f, r i)
                    (Bool_owned (leb from i && leb i to) (chain i)),
            )
      ]

module _ {A : Type 0} where
  pub lookup-merge :
      (i : ℕ) (res m : List (ℕ × A))
      → IsMap m
      → lookup i (merge res m) ≡ or_else (lookup i m) (lookup i res)
  unfolding lookup merge IsMap
  lookup-merge i res [] h = refl
  lookup-merge i res ((j, c) ∷ m) h =
      lookup-merge i (put j c res) m h.1 ∙ elim (Bool-cases (i == j)) [
        | inl e ↦ let q : i ≡ j = ground arith in rw (q, h.0, lookup-put j j c res) (ground arith)
        | inr e ↦ rw (lookup-put i j c res, e) refl
      ]
