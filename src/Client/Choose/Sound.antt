-- ===== src/Client/Choose/Sound.antt =====
-- The loop of chooseBestCoinsByAmount of incclient/tx_utils.go, and its invariant.
use mathlib.Core.Path.{ap₂}
use go_incognito_sdk_v.Base.{
  ℕ, suc, ◌+◌, ◌-◌, ◌%◌, ◌^◌, ◌≤◌, ◌<◌, ◌≡◌, refl, sym, ap, ◌∙◌, ◌⊎◌, inl, inr, List, [], ◌∷◌, ◌++◌,
  some, ltb, leb, length, length-append, get_elem?, map, arith, append_assoc, Bool-cases,
  get_elem?-middle, append-nil,
}
use mathlib.Core.List.{map-append}
use go_incognito_sdk_v.Client.Choose.{Choice, get_last?, total_from, choose, choose_loop}

-- Indices that rise from `lo` and stay below `hi`.
abbrev pub Ascends : ℕ → List ℕ → ℕ → Type 0
Ascends lo [] hi = lo ≤ hi
Ascends lo (i ∷ is) hi = (lo ≤ i) × Ascends (i + 1) is hi

pub Ascends-snoc : (lo i : ℕ) (is : List ℕ) → Ascends lo is i → Ascends lo (is ++ (i ∷ [])) (i + 1)
Ascends-snoc lo i [] h = (h, omega arith)
Ascends-snoc lo i (j ∷ is) h = (h.0, Ascends-snoc (j + 1) i is h.1)

pub Ascends-le : (lo i j : ℕ) (is : List ℕ) → i ≤ j → Ascends lo is i → Ascends lo is j
Ascends-le lo i j [] h a = omega arith
Ascends-le lo i j (k ∷ is) h a = (a.0, Ascends-le (k + 1) i j is h a.1)

module _ {A : Type 0} where
  pub get_last?-snoc : (pre : List A) (x : A) → get_last? (pre ++ (x ∷ [])) ≡ some x
  unfolding get_last?
  get_last?-snoc [] x = refl
  get_last?-snoc (y ∷ []) x = refl
  get_last?-snoc (y ∷ z ∷ pre) x = get_last?-snoc (z ∷ pre) x

module _ {A : Type 0} (value : A → ℕ) where
  unfoldable pub sum : List A → ℕ
  sum [] = 0
  sum (x ∷ xs) = value x + sum xs

  pub sum-append : (xs ys : List A) → sum (xs ++ ys) ≡ sum xs + sum ys
  unfolding sum
  sum-append [] ys = omega arith
  sum-append (x ∷ xs) ys = omega (arith, sum-append xs ys)

  pub total_from-sum :
      (acc : ℕ) (xs : List A) → acc + sum xs < 2 ^ 64 → total_from value acc xs ≡ acc + sum xs
  unfolding sum total_from
  total_from-sum acc [] h = omega arith
  total_from-sum acc (x ∷ xs) h =
      let e : (acc + value x) % 2 ^ 64 ≡ acc + value x = omega arith in
      rw e (omega (arith, total_from-sum (acc + value x) xs (omega arith)))

  -- The chosen coins are those of the list at the chosen indices.
  pub record Picks (all : List A) (ch : Choice A) : Type 0 where
    pub found : map (get_elem? all) ch.indices ≡ map some ch.coins
    pub counted : ch.total ≡ sum ch.coins

  pub Picks-choose :
      (all : List A) (i : ℕ) (x : A) (ch : Choice A)
      → get_elem? all i ≡ some x
      → ch.total + value x < 2 ^ 64
      → Picks all ch
      → Picks all (choose value ch i x)
  unfolding sum
  Picks-choose all i x ch e fits h = record {
    found =
        map-append (get_elem? all) ch.indices (i ∷ [])
        ∙ ap₂ ◌++◌ h.found (ap (λ t. t ∷ []) e)
        ∙ sym (map-append some ch.coins (x ∷ []));
    counted = omega (arith, sum-append ch.coins (x ∷ []), h.counted);
  }

  -- The loop reaches the amount, or the coin that it leaves out does.
  pub record Unfinished (all : List A) (required : ℕ) (ch : Choice A) : Type 0 where
    pub front : List A
    pub last : A
    pub split : all ≡ front ++ (last ∷ [])
    pub below : Ascends 0 ch.indices (length front)
    pub enough : required ≤ ch.total + value last
    pub fits : ch.total + value last < 2 ^ 64

  abbrev pub LoopResult : List A → ℕ → Choice A → Type 0
  LoopResult all required ch =
      Picks all ch
      × (((required ≤ ch.total) × Ascends 0 ch.indices (length all)) ⊎ Unfinished all required ch)

  -- What the loop knows at coin `i`: `pre` is behind it and `suffix` is left.
  pub record Going (all pre suffix : List A) (i remain required : ℕ) (ch : Choice A) : Type 0 where
    pub split : all ≡ pre ++ suffix
    pub here : i ≡ length pre
    pub picks : Picks all ch
    pub below : Ascends 0 ch.indices i
    pub owed : remain + ch.total ≡ required
    pub covered : remain ≤ sum suffix
    pub fits : ch.total + sum suffix < 2 ^ 64

  module _ (all pre : List A) (x y : A) (xs : List A) (i remain required : ℕ) (ch : Choice A)
      (g : Going all pre (x ∷ (y ∷ xs)) i remain required ch) where
    at_i : get_elem? all i ≡ some x
    at_i = rw (g.split, g.here) (get_elem?-middle pre x (y ∷ xs))

    split_next : all ≡ (pre ++ (x ∷ [])) ++ (y ∷ xs)
    split_next = g.split ∙ sym (append_assoc pre (x ∷ []) (y ∷ xs))

    here_next : i + 1 ≡ length (pre ++ (x ∷ []))
    here_next = omega (arith, length-append pre (x ∷ []), g.here)

    skip_next : remain ≤ value y → Going all (pre ++ (x ∷ [])) (y ∷ xs) (i + 1) remain required ch
    unfolding sum
    skip_next h = record {
      split = split_next;
      here = here_next;
      picks = g.picks;
      below = Ascends-le 0 i (i + 1) ch.indices (omega arith) g.below;
      owed = g.owed;
      covered = omega arith;
      fits = omega (arith, g.fits);
    }

    take_next :
        value x ≤ remain
        → Going all
            (pre ++ (x ∷ []))
            (y ∷ xs)
            (i + 1)
            (remain - value x)
            required
            (choose value ch i x)
    unfolding sum
    take_next h = record {
      split = split_next;
      here = here_next;
      picks = Picks-choose all i x ch at_i (omega (arith, g.fits)) g.picks;
      below = Ascends-snoc 0 i ch.indices g.below;
      owed = omega (arith, g.owed, g.fits);
      covered = omega (arith, g.covered);
      fits = omega (arith, g.fits);
    }

    break_here : remain < value x → LoopResult all required (choose value ch i x)
    unfolding sum
    break_here h =
        let n : length all ≡ i + suc (suc (length xs)) =
          rw g.split (omega (arith, length-append pre (x ∷ (y ∷ xs)), g.here)) in
        (
          Picks-choose all i x ch at_i (omega (arith, g.fits)) g.picks,
          inl (
            omega (arith, g.owed, g.fits),
            Ascends-le 0 (i + 1) (length all) _ (omega arith) (Ascends-snoc 0 i ch.indices g.below),
          ),
        )

  pub choose_loop_lem :
      (all pre suffix : List A) (i remain required : ℕ) (ch : Choice A)
      → Going all pre suffix i remain required ch
      → LoopResult all required (choose_loop value suffix i remain ch)
  unfolding sum choose_loop
  choose_loop_lem all pre [] i remain required ch g =
      let n : length all ≡ length pre = rw g.split (rw append-nil refl) in
      (
        g.picks,
        inl (
          omega (arith, g.owed, g.covered),
          Ascends-le 0 i (length all) ch.indices (omega (arith, g.here)) g.below,
        ),
      )
  choose_loop_lem all pre (x ∷ []) i remain required ch g = (
    g.picks,
    inr (record {
      front = pre;
      last = x;
      split = g.split;
      below = Ascends-le 0 i (length pre) ch.indices (omega (arith, g.here)) g.below;
      enough = omega (arith, g.owed, g.covered);
      fits = omega (arith, g.fits);
    }),
  )
  choose_loop_lem all pre (x ∷ y ∷ xs) i remain required ch g =
      elim (Bool-cases (ltb remain (value x))) [
        | inr small ↦ rw small (
            choose_loop_lem all (pre ++ (x ∷ [])) (y ∷ xs) (i + 1) (remain - value x) required
              (choose value ch i x)
              (take_next all pre x y xs i remain required ch g (ground arith)))
        | inl large ↦ rw large (elim (Bool-cases (leb remain (value y))) [
          | inl next ↦ rw next (
              choose_loop_lem all (pre ++ (x ∷ [])) (y ∷ xs) (i + 1) remain required ch
                (skip_next all pre x y xs i remain required ch g (ground arith)))
          | inr last ↦ rw last (break_here all pre x y xs i remain required ch g (ground arith))
        ])
      ]
