-- ===== src/Client/Choose/Pays.antt =====
-- chooseBestCoinsByAmount of incclient/tx_utils.go, for its callers.
use go_incognito_sdk_v.Base.{
  ◌⊎◌, le_or_lt, ℕ, suc, ◌+◌, ◌-◌, ◌%◌, ◌^◌, ◌≤◌, ◌<◌, ◌≡◌, refl, sym, ◌∙◌, inl, inr, false, List,
  [], ◌∷◌, ◌++◌, some, ltb, ◌==◌, length, length-append, ok, err, get_elem?, map, arith,
  append_assoc, Bool-cases, get_elem?-middle,
}
use mathlib.Core.Path.{ap₂}
use go_incognito_sdk_v.Client.Choose.{
  total_too_small, Choice, empty, get_last?, all_indices, total_from, complete,
  choose_best_coins_by_amount,
}
use go_incognito_sdk_v.Client.Choose.Sound.{
  Ascends, Ascends-snoc, Ascends-le, get_last?-snoc, sum, total_from-sum, Picks-choose, LoopResult,
  choose_loop_lem,
}

module _ {A : Type 0} (value : A → ℕ) where
  -- The indices are those of the coins in the list and rise, so that no coin is spent twice, and the
  -- coins are worth the amount.
  pub record IsPayment (all : List A) (required : ℕ) (r : List A × List ℕ) : Type 0 where
    pub found : map (get_elem? all) r.1 ≡ map some r.0
    pub distinct : Ascends 0 r.1 (length all)
    pub enough : required ≤ sum value r.0

  all_indices-found :
      (all pre xs : List A) (i : ℕ)
      → all ≡ pre ++ xs
      → i ≡ length pre
      → map (get_elem? all) (all_indices i xs) ≡ map some xs
  unfolding all_indices
  all_indices-found all pre [] i e h = refl
  all_indices-found all pre (x ∷ xs) i e h = ap₂ ◌∷◌ (rw (e, h) (get_elem?-middle pre x xs)) (
      all_indices-found all (pre ++ (x ∷ [])) xs (i + 1) (e ∙ sym (append_assoc pre (x ∷ []) xs))
        (omega (arith, length-append pre (x ∷ []))))

  all_indices-Ascends : (i : ℕ) (xs : List A) → Ascends i (all_indices i xs) (i + length xs)
  unfolding all_indices
  all_indices-Ascends i [] = omega arith
  all_indices-Ascends i (x ∷ xs) =
      let e : i + 1 + length xs ≡ i + suc (length xs) = omega arith in
      (omega arith, rw (← e) (all_indices-Ascends (i + 1) xs))

  complete-pays :
      (all : List A) (required : ℕ) (ch : Choice A)
      → LoopResult value all required ch
      → (r : List A × List ℕ) × (complete value all required ch ≡ ok r) × IsPayment all required r
  unfolding complete
  complete-pays all required ch (p, inl (done, a)) = (
    (ch.coins, ch.indices),
    ground arith,
    record { found = p.found; distinct = a; enough = omega (arith, p.counted) },
  )
  complete-pays all required ch (p, inr u) =
      let n : length all ≡ length u.front + 1 =
        rw u.split (omega (arith, length-append u.front (u.last ∷ []))) in
      let at : get_elem? all (length all - 1) ≡ some u.last =
        let e : length all - 1 ≡ length u.front = omega arith in
        rw e (rw u.split (get_elem?-middle u.front u.last [])) in
      let final : get_last? all ≡ some u.last = rw u.split (get_last?-snoc u.front u.last) in
      let picked = Picks-choose value all (length all - 1) u.last ch at u.fits p in
      let enough : ltb ((ch.total + value u.last) % 2 ^ 64) required ≡ false =
        ground (arith, u.fits, u.enough) in
      elim (Bool-cases (ltb ch.total required)) [
        | inr done ↦ (
          (ch.coins, ch.indices),
          rw done,
          record {
            found = p.found;
            distinct = Ascends-le 0 (length u.front) (length all) ch.indices (omega arith) u.below;
            enough = ground (arith, p.counted);
          },
        )
        | inl short ↦ (
          (ch.coins ++ (u.last ∷ []), ch.indices ++ ((length all - 1) ∷ [])),
          rw (short, final, enough),
          record {
            found = picked.found;
            distinct = Ascends-le 0 (length all - 1 + 1) (length all) _ (omega arith) (
                Ascends-snoc 0 (length all - 1) ch.indices (
                  Ascends-le 0 (length u.front) (length all - 1) ch.indices (omega arith) u.below));
            enough = ground (arith, picked.counted);
          },
        )
      ]

  covered-pays :
      (all : List A) (required : ℕ)
      → sum value all < 2 ^ 64
      → required ≤ sum value all
      → (r : List A × List ℕ) × (choose_best_coins_by_amount value all required ≡ ok r)
        × IsPayment all required r
  unfolding choose_best_coins_by_amount
  covered-pays all required fits covered =
      let t = total_from-sum value 0 all (omega arith) in
      let big : ltb (total_from value 0 all) required ≡ false = ground (arith, t) in
      elim (Bool-cases (total_from value 0 all == required)) [
        | inl exact ↦ (
          (all, all_indices 0 all),
          rw (big, exact),
          record {
            found = all_indices-found all [] all 0 refl refl;
            distinct =
                Ascends-le 0 (0 + length all) (length all) _ (omega arith)
                  (all_indices-Ascends 0 all);
            enough = ground (arith, t);
          },
        )
        | inr more ↦
            let loop = choose_loop_lem value all [] all 0 required required empty (record {
              split = refl;
              here = refl;
              picks = record { found = refl; counted = unfold sum in refl };
              below = omega arith;
              owed = omega arith;
              covered = covered;
              fits = omega arith;
            }) in
            let (r, e, pays) = complete-pays all required _ loop in (r, rw (big, more) e, pays)
      ]

  short-refused :
      (all : List A) (required : ℕ)
      → sum value all < 2 ^ 64
      → sum value all < required
      → choose_best_coins_by_amount value all required ≡ err total_too_small
  unfolding choose_best_coins_by_amount
  short-refused all required fits short = ground (arith, total_from-sum value 0 all (omega arith))

  -- The values of the coins add up to a uint64. If they reach the amount, coins are chosen that pay
  -- it, each at most once and at the reported places; if they do not, the total is reported as too
  -- small. There is no third outcome.
  pub choose_best_coins_by_amount-pays :
      (all : List A) (required : ℕ)
      → sum value all < 2 ^ 64
      → ((required ≤ sum value all)
          × (r : List A × List ℕ) × (choose_best_coins_by_amount value all required ≡ ok r)
          × IsPayment all required r)
        ⊎ ((sum value all < required)
            × (choose_best_coins_by_amount value all required ≡ err total_too_small))
  choose_best_coins_by_amount-pays all required fits = elim (le_or_lt required (sum value all)) [
    | inl covered ↦
        let (r, e, pays) = covered-pays all required fits covered in inl (covered, r, e, pays)
    | inr short ↦ inr (short, short-refused all required fits short)
  ]
