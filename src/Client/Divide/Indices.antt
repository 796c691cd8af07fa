-- ===== src/Client/Divide/Indices.antt =====
-- getListIdx of incclient/tx_utils.go, for coins given with their indices.
use go_incognito_sdk_v.Base.{
  ℕ, ◌%◌, ◌^◌, ◌<◌, ◌≡◌, ◌⊎◌, refl, ap, sym, ◌∙◌, Bool, true, ◌&&◌, List, [], ◌∷◌, Option, some,
  map, ◌==◌, length, length-map, ok, All, arith, Bool-cases, inl, inr,
}
use go_incognito_sdk_v.Common.Hash.{same_bytes}
use go_incognito_sdk_v.Common.Hash.Order.{same_bytes_refl, same_bytes→eq}
use go_incognito_sdk_v.Client.Divide.{CoinView, find_idx, collect_idx, get_list_idx}

module _ {A : Type 0} (view : CoinView A) where
  -- A coin with its index.
  abbrev pub Indexed : Type 0
  Indexed = A × ℕ

  abbrev pub IsIn : Indexed → List Indexed → Type 0
  IsIn q [] = ⊥
  IsIn q (p ∷ ps) = (q ≡ p) ⊎ IsIn q ps

  abbrev pub index_of : Indexed → Option ℕ
  index_of q = some q.1

  abbrev pub coin_of : Indexed → A
  coin_of q = q.0

  abbrev pub idx_of : Indexed → ℕ
  idx_of q = q.1

  -- A coin of version 2 of the list, whose key no coin of version 2 with another index has.
  pub record IsChosen (ps : List Indexed) (q : Indexed) : Type 0 where
    pub is_in : IsIn q ps
    pub version_2 : view.version q.0 ≡ 2
    pub is_u64 : q.1 < 2 ^ 64
    pub unique :
        (p : Indexed)
        → IsIn p ps
        → view.version p.0 ≡ 2
        → view.public_key p.0 ≡ view.public_key q.0
        → p.1 ≡ q.1

  matches : A → A → Bool
  matches c q = (view.version c == 2) && same_bytes (view.public_key c) (view.public_key q)

  find_idx-chosen :
      (ps : List Indexed) (q : Indexed)
      → IsChosen ps q
      → find_idx view (view.public_key q.0) (map coin_of ps) (map index_of ps) ≡ ok (some q.1)
  unfolding find_idx
  find_idx-chosen [] q h = absurd h.is_in
  find_idx-chosen (p ∷ ps) q h =
      elim (Bool-cases
        ((view.version p.0 == 2) && same_bytes (view.public_key p.0) (view.public_key q.0))) [
          | inl e ↦
              let k : view.public_key p.0 ≡ view.public_key q.0 =
                same_bytes→eq _ _ (ground arith) in
              let i : p.1 ≡ q.1 = h.unique p (inl refl) (ground arith) k in
              let m : p.1 % 2 ^ 64 ≡ q.1 = omega (arith, h.is_u64) in rw (e, m)
          | inr e ↦ rw e (elim h.is_in [
            | inl same ↦
                let v : view.version p.0 ≡ 2 =
                  (ap (λ (x : Indexed). view.version x.0) (sym same)) ∙ h.version_2 in
                let k : view.public_key p.0 ≡ view.public_key q.0 =
                  ap (λ (x : Indexed). view.public_key x.0) (sym same) in
                let s = same_bytes_refl (view.public_key q.0) in
                let s' : same_bytes (view.public_key p.0) (view.public_key q.0) ≡ true = rw k s in
                absurd (ground arith)
            | inr there ↦ find_idx-chosen ps q (record {
              is_in = there;
              version_2 = h.version_2;
              is_u64 = h.is_u64;
              unique = λ x m. h.unique x (inr m);
            })
          ])
        ]

  collect_idx-chosen :
      (ps qs : List Indexed)
      → All (IsChosen ps) qs
      → collect_idx view (map coin_of qs) (map coin_of ps) (map index_of ps) ≡ ok (map idx_of qs)
  unfolding collect_idx
  collect_idx-chosen ps [] h = refl
  collect_idx-chosen ps (q ∷ qs) h =
      rw (find_idx-chosen ps q h.0) (rw (collect_idx-chosen ps qs h.1))

  -- For chosen coins of version 2 whose keys tell them apart, getListIdx gives the index of each, in
  -- the order of the chosen coins.
  pub get_list_idx-chosen :
      (ps qs : List Indexed)
      → All (IsChosen ps) qs
      → get_list_idx view (map coin_of qs) (map coin_of ps) (map index_of ps) ≡ ok (map idx_of qs)
  unfolding get_list_idx
  get_list_idx-chosen [] [] h = refl
  get_list_idx-chosen [] (q ∷ qs) h = absurd h.0.is_in
  get_list_idx-chosen (p ∷ ps) qs h =
      let same : (length (map idx_of qs) == length (map coin_of qs)) ≡ true =
        ground (arith, length-map qs idx_of, length-map qs coin_of) in
      rw (collect_idx-chosen (p ∷ ps) qs h, get_list_idx) (rw same)
