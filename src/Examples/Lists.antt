-- ===== src/Examples/Lists.antt =====
-- Runs of the theorems on packed and on divided coins. A coin is a pair of its version and its value,
-- and its key is the value.
use go_incognito_sdk_v.Base.{
  ℕ, ◌+◌, ◌^◌, ◌<◌, ◌≡◌, inl, inr, refl, sym, ap, ◌∙◌, true, List, [], ◌∷◌, some, ltb,
  if◌then◌else◌, map, Bool-cases, Result, ok, err, All, arith,
}
use go_incognito_sdk_v.Client.Pack
use go_incognito_sdk_v.Client.Pack.{CoinParams}
use go_incognito_sdk_v.Client.Pack.Unpack.{IsWritten, kept_idx, set_bytes-bytes_params}
use go_incognito_sdk_v.Client.Divide.{CoinView, Divided, divide_coins}
use go_incognito_sdk_v.Client.Divide.Indices.{Indexed, IsIn, IsChosen, coin_of, idx_of, index_of}
use go_incognito_sdk_v.Client.Divide.Sorted.{divided, IsIndexing, divide_coins-sorted}

-- A coin of one byte.
abbrev coin_bytes : ℕ → List ℕ
coin_bytes n = n ∷ []

abbrev coin_of_bytes : List ℕ → Result Pack.Error ℕ
coin_of_bytes [] = err Pack.Error.bad_coin
coin_of_bytes (n ∷ b) = ok n

abbrev same : ℕ → ℕ
same n = n

coin-IsWritten : (n : ℕ) → IsWritten coin_bytes coin_of_bytes same n
coin-IsWritten n = record { short = omega arith; parses = refl }

abbrev params : CoinParams ℕ
params = record { coin_list = 7 ∷ 9 ∷ []; idx_list = 515 ∷ 70000 ∷ [] }

abbrev nothing : CoinParams ℕ
nothing = record { coin_list = []; idx_list = [] }

set_bytes-bytes_params_example :
    Pack.set_bytes coin_of_bytes nothing (Pack.bytes coin_bytes params)
    ≡ ok (record { coin_list = map same (7 ∷ 9 ∷ []); idx_list = map kept_idx (515 ∷ 70000 ∷ []) })
set_bytes-bytes_params_example =
    set_bytes-bytes_params coin_bytes coin_of_bytes same nothing params (record {
      some_coins = omega arith;
      few = omega arith;
      coins = (coin-IsWritten 7, (coin-IsWritten 9, tt));
      indices = (omega arith, (omega arith, tt));
      matching = refl;
    })

abbrev view : CoinView (ℕ × ℕ)
view = record { version = λ c. c.0; value = λ c. c.1; public_key = λ c. c.1 ∷ [] }

abbrev all : List (Indexed view)
all = ((1, 5), 100) ∷ ((2, 6), 101) ∷ ((2, 7), 102) ∷ []

abbrev chosen : List (Indexed view)
chosen = ((2, 7), 102) ∷ ((2, 6), 101) ∷ []

-- The index of a coin of version 2 is 95 more than its value.
all_unique : (p : Indexed view) → IsIn view p all → p.1 ≡ p.0.1 + 95
all_unique p (inl e) =
    ap (λ (x : Indexed view). x.1) e ∙ sym (ap (λ (x : Indexed view). x.0.1 + 95) e)
all_unique p (inr (inl e)) =
    ap (λ (x : Indexed view). x.1) e ∙ sym (ap (λ (x : Indexed view). x.0.1 + 95) e)
all_unique p (inr (inr (inl e))) =
    ap (λ (x : Indexed view). x.1) e ∙ sym (ap (λ (x : Indexed view). x.0.1 + 95) e)
all_unique p (inr (inr (inr e))) = absurd e

head_of : List ℕ → ℕ
head_of [] = 0
head_of (x ∷ xs) = x

unique_index :
    (p q : Indexed view) → IsIn view p all → IsIn view q all → p.0.1 ∷ [] ≡ q.0.1 ∷ [] → p.1 ≡ q.1
unfolding head_of
unique_index p q hp hq k =
    let e : p.0.1 ≡ q.0.1 = ap head_of k in
    all_unique p hp ∙ ap (λ n. n + 95) e ∙ sym (all_unique q hq)

-- Insertion by falling values.
insert : (ℕ × ℕ → ℕ) → ℕ × ℕ → List (ℕ × ℕ) → List (ℕ × ℕ)
insert f x [] = x ∷ []
insert f x (y ∷ ys) = let rest = insert f x ys in if ltb (f y) (f x) then x ∷ (y ∷ ys) else y ∷ rest

unfoldable sort : (ℕ × ℕ → ℕ) → List (ℕ × ℕ) → List (ℕ × ℕ)
sort f [] = []
sort f (x ∷ xs) = insert f x (sort f xs)

All-insert :
    (f : ℕ × ℕ → ℕ) (P : ℕ × ℕ → Type 0) (x : ℕ × ℕ) (xs : List (ℕ × ℕ))
    → P x
    → All P xs
    → All P (insert f x xs)
unfolding insert
All-insert f P x [] p h = (p, tt)
All-insert f P x (y ∷ ys) p h =
    let rest = All-insert f P x ys p h.1 in
    elim (Bool-cases (ltb (f y) (f x))) [ inl e ↦ rw e (p, h) | inr e ↦ rw e (h.0, rest) ]

All-sort : (f : ℕ × ℕ → ℕ) (P : ℕ × ℕ → Type 0) (xs : List (ℕ × ℕ)) → All P xs → All P (sort f xs)
unfolding sort
All-sort f P [] h = tt
All-sort f P (x ∷ xs) h = All-insert f P x (sort f xs) h.0 (All-sort f P xs h.1)

all-IsIndexing : IsIndexing view all
all-IsIndexing = record { is_u64 = small; unique = λ p q hp hq _ k. unique_index p q hp hq k }
  where
    small : (p : Indexed view) → IsIn view p all → p.1 < 2 ^ 64
    small p (inl e) = omega (arith, ap (λ (x : Indexed view). x.1) e)
    small p (inr (inl e)) = omega (arith, ap (λ (x : Indexed view). x.1) e)
    small p (inr (inr (inl e))) = omega (arith, ap (λ (x : Indexed view). x.1) e)
    small p (inr (inr (inr e))) = absurd e

divide_coins-sorted_example :
    (d : Divided (ℕ × ℕ)) × (divide_coins view sort
        (map (coin_of view) all)
        (some (map (index_of view) all))
        true
      ≡ ok d)
    × (d.v1_list ≡ sort view.value (divided view all).v1_list)
    × (d.v2_list ≡ sort view.value (divided view all).v2_list)
    × (qs : List (Indexed view)) × All (IsChosen view all) qs
    × (d.v2_list ≡ map (coin_of view) qs)
    × (d.idx_v2_list ≡ map (idx_of view) qs)
divide_coins-sorted_example = divide_coins-sorted view sort All-sort all all-IsIndexing
