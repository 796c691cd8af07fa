-- ===== src/Client/Divide/Sorted.antt =====
-- divideCoins of incclient/tx_utils.go, with sorting and without.
use go_incognito_sdk_v.Base.{
  ℕ, ◌%◌, ◌^◌, ◌<◌, ◌≡◌, refl, Bool, true, false, List, [], ◌∷◌, some, map, ◌==◌, if◌then◌else◌,
  length, length-map, ok, All, arith, Bool-cases, inl, inr,
}
use go_incognito_sdk_v.Client.Divide.{
  CoinView, Divided, divide_loop, divide, sort_divided, divide_coins, get_list_idx,
}
use go_incognito_sdk_v.Client.Divide.Indices.{
  Indexed, IsIn, index_of, coin_of, idx_of, IsChosen, get_list_idx-chosen,
}

module _ {A : Type 0} (view : CoinView A) where
  -- The coins of one kind, in their order.
  unfoldable pub of_version_2 : Bool → List (Indexed view) → List (Indexed view)
  of_version_2 b [] = []
  of_version_2 b (p ∷ ps) =
      let rest = of_version_2 b ps in
      if view.version p.0 == 2 then (if b then p ∷ rest else rest) else if b then rest else p ∷ rest

  abbrev pub low_idx : Indexed view → ℕ
  low_idx q = q.1 % 2 ^ 64

  abbrev pub divided : List (Indexed view) → Divided A
  divided ps = record {
    v1_list = map (coin_of view) (of_version_2 false ps);
    v2_list = map (coin_of view) (of_version_2 true ps);
    idx_v2_list = map low_idx (of_version_2 true ps);
  }

  divide_loop-divided :
      (ps : List (Indexed view))
      → divide_loop view (map (coin_of view) ps) (map (index_of view) ps) ≡ ok (divided ps)
  unfolding divide_loop of_version_2
  divide_loop-divided [] = refl
  divide_loop-divided (p ∷ ps) = elim (Bool-cases (view.version p.0 == 2)) [
    | inl e ↦ rw (divide_loop-divided ps, e)
    | inr e ↦ rw (divide_loop-divided ps, e)
  ]

  divide-divided :
      (ps : List (Indexed view))
      → divide view (map (coin_of view) ps) (some (map (index_of view) ps)) ≡ ok (divided ps)
  unfolding divide
  divide-divided ps =
      let same : (length (map (coin_of view) ps) == length (map (index_of view) ps)) ≡ true =
        ground (arith, length-map ps (coin_of view), length-map ps (index_of view)) in
      rw same (divide_loop-divided ps)

  -- Without sorting, divideCoins of as many indices as coins parts the coins by their version and
  -- keeps the low 64 bits of the indices of the coins of version 2, all in their order.
  pub divide_coins-unsorted :
      (sort : (A → ℕ) → List A → List A) (ps : List (Indexed view))
      → divide_coins view sort (map (coin_of view) ps) (some (map (index_of view) ps)) false
        ≡ ok (divided ps)
  unfolding divide_coins
  divide_coins-unsorted sort ps = rw (divide-divided ps, divide_coins)

  -- The indices are uint64s, and coins of version 2 with the same key have the same index.
  pub record IsIndexing (ps : List (Indexed view)) : Type 0 where
    pub is_u64 : (p : Indexed view) → IsIn view p ps → p.1 < 2 ^ 64
    pub unique :
        (p q : Indexed view)
        → IsIn view p ps
        → IsIn view q ps
        → view.version p.0 ≡ 2
        → view.public_key p.0 ≡ view.public_key q.0
        → p.1 ≡ q.1

  -- The coin stands in the list of version 2.
  abbrev IsFrom : List (Indexed view) → A → Type 0
  IsFrom ps c = (q : Indexed view) × IsIn view q ps × (view.version q.0 ≡ 2) × (q.0 ≡ c)

  of_version_2-IsFrom :
      (all ps : List (Indexed view))
      → ((p : Indexed view) → IsIn view p ps → IsIn view p all)
      → All (IsFrom all) (map (coin_of view) (of_version_2 true ps))
  unfolding of_version_2
  of_version_2-IsFrom all [] h = tt
  of_version_2-IsFrom all (p ∷ ps) h =
      let rest = of_version_2-IsFrom all ps (λ x m. h x (inr m)) in
      elim (Bool-cases (view.version p.0 == 2)) [
        | inl e ↦ rw e ((p, h p (inl refl), ground arith, refl), rest)
        | inr e ↦ rw e rest
      ]

  choose_all :
      (ps : List (Indexed view))
      → IsIndexing ps
      → (cs : List A) → All (IsFrom ps) cs
      → (qs : List (Indexed view)) × (cs ≡ map (coin_of view) qs) × All (IsChosen view ps) qs
  choose_all ps h [] f = ([], refl, tt)
  choose_all ps h (c ∷ cs) f =
      let (q, m, v, e) = f.0 in
      let (qs, es, hs) = choose_all ps h cs f.1 in
      let chosen : IsChosen view ps q = record {
        is_in = m;
        version_2 = v;
        is_u64 = h.is_u64 q m;
        unique = λ p mp vp k. h.unique p q mp m vp k;
      } in
      (q ∷ qs, cc (e, es), (chosen, hs))

  -- With a sort that keeps what holds of all elements, divideCoins of coins whose keys tell their
  -- indices apart gives the sorted coins of version 2 together with the index of each.
  pub divide_coins-sorted :
      (sort : (A → ℕ) → List A → List A)
      → ((f : A → ℕ) (P : A → Type 0) (xs : List A) → All P xs → All P (sort f xs))
      → (ps : List (Indexed view)) → IsIndexing ps
      → (d : Divided A) × (divide_coins view sort
            (map (coin_of view) ps)
            (some (map (index_of view) ps))
            true
          ≡ ok d)
        × (d.v1_list ≡ sort view.value (divided ps).v1_list)
        × (d.v2_list ≡ sort view.value (divided ps).v2_list)
        × (qs : List (Indexed view)) × All (IsChosen view ps) qs
        × (d.v2_list ≡ map (coin_of view) qs)
        × (d.idx_v2_list ≡ map (idx_of view) qs)
  unfolding divide_coins sort_divided
  divide_coins-sorted sort keeps ps h =
      let chosen = sort view.value (divided ps).v2_list in
      let (qs, e, hs) =
        choose_all ps h chosen
          (keeps view.value (IsFrom ps) _ (of_version_2-IsFrom ps ps (λ p m. m))) in
      let r = get_list_idx-chosen view ps qs hs in
      let r' : get_list_idx view chosen (map (coin_of view) ps) (map (index_of view) ps)
          ≡ ok (map (idx_of view) qs) =
        rw e r in
      (
        record {
          v1_list = sort view.value (divided ps).v1_list;
          v2_list = chosen;
          idx_v2_list = map (idx_of view) qs;
        },
        (rw (divide-divided ps, divide_coins) (rw (r', sort_divided))),
        refl,
        refl,
        qs,
        hs,
        e,
        refl,
      )
