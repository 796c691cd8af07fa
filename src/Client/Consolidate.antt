-- ===== src/Client/Consolidate.antt =====
-- estimateNumTxs of incclient/tx_consolidate_utils.go. The arguments are not negative.
use go_incognito_sdk_v.Base.{
  ℕ, zero, suc, ◌+◌, ◌*◌, ◌/◌, ◌%◌, ◌≤◌, ◌<◌, ◌≡◌, refl, ◌⊎◌, inl, inr, true, Option, none, some,
  ltb, leb, ◌==◌, if◌then◌else◌, arith, Bool-cases,
}

abbrev pub max_output_size : ℕ
max_output_size = 30

-- What one turn of the loop leaves of the coins.
abbrev pub left_over : ℕ → ℕ
left_over initial =
    if initial % max_output_size == 0
    then initial / max_output_size
    else initial / max_output_size + 1

-- The loop on fuel; `none` is that the fuel has run out.
unfoldable pub estimate_loop : ℕ → ℕ → ℕ → ℕ → Option ℕ
estimate_loop zero initial expected num_txs = none
estimate_loop (suc fuel) initial expected num_txs =
    let rest =
      estimate_loop fuel (left_over initial) expected (num_txs + initial / max_output_size) in
    if ltb expected initial then rest else some num_txs

unfoldable pub estimate_num_txs : ℕ → ℕ → ℕ → Option ℕ
unfolding estimate_loop
estimate_num_txs fuel initial expected =
    if leb initial expected
    then some 0
    else if ltb initial (expected + max_output_size)
    then some 1
    else estimate_loop fuel initial expected 0

estimate_loop-ends :
    (fuel initial expected num_txs : ℕ)
    → 0 < expected
    → initial < fuel
    → (n : ℕ) × (estimate_loop fuel initial expected num_txs ≡ some n)
      × (num_txs ≤ n)
      × ((initial ≤ expected) ⊎ (num_txs + initial / max_output_size ≤ n))
      × (29 * n ≤ 29 * num_txs + initial)
unfolding estimate_loop
estimate_loop-ends zero initial expected num_txs pos lt = absurd (omega arith)
estimate_loop-ends (suc fuel) initial expected num_txs pos lt =
    elim (Bool-cases (ltb expected initial)) [
      | inr e ↦ (num_txs, rw e refl, omega arith, inl (ground arith), omega arith)
      | inl e ↦
          let less : left_over initial < initial = ground arith in
          let merged : 29 * (initial / max_output_size) + left_over initial ≤ initial =
            ground arith in
          let (n, r, lo, more, hi) =
            estimate_loop-ends fuel (left_over initial) expected
              (num_txs + initial / max_output_size) pos (omega arith) in
          (n, rw e r, omega (arith, lo), inr lo, omega (arith, hi, merged))
    ]

-- With one coin at least to be left and fuel above the number of coins there is an estimate: 0 if
-- there is nothing to do, and otherwise a positive number of which 29 times is at most the
-- number of coins plus 29.
pub estimate_num_txs-ends :
    (fuel initial expected : ℕ)
    → 0 < expected
    → initial < fuel
    → ((initial ≤ expected) × (estimate_num_txs fuel initial expected ≡ some 0))
      ⊎ ((expected < initial)
          × (n : ℕ) × (estimate_num_txs fuel initial expected ≡ some n)
          × (0 < n)
          × (29 * n ≤ initial + 29))
unfolding estimate_num_txs
estimate_num_txs-ends fuel initial expected pos lt = elim (Bool-cases (leb initial expected)) [
  | inl e ↦ inl (ground arith, rw e refl)
  | inr e ↦ elim (Bool-cases (ltb initial (expected + max_output_size))) [
    | inl f ↦ inr (ground arith, 1, rw (e, f) refl, omega arith, omega arith)
    | inr f ↦
        let (n, r, lo, more, hi) = estimate_loop-ends fuel initial expected 0 pos lt in
        inr (ground arith, n, rw (e, f) r, ground (arith, more), omega (arith, hi))
  ]
]

estimate_loop-stuck :
    (fuel initial num_txs : ℕ) → 0 < initial → estimate_loop fuel initial 0 num_txs ≡ none
unfolding estimate_loop
estimate_loop-stuck zero initial num_txs pos = refl
estimate_loop-stuck (suc fuel) initial num_txs pos =
    let more : ltb 0 initial ≡ true = ground arith in
    let up : 0 < left_over initial = ground arith in
    rw more (estimate_loop-stuck fuel (left_over initial) (num_txs + initial / max_output_size) up)

-- If no coin is to be left of 30 or more, the loop goes on for ever: no fuel is enough.
pub estimate_num_txs-stuck :
    (fuel initial : ℕ) → max_output_size ≤ initial → estimate_num_txs fuel initial 0 ≡ none
unfolding estimate_num_txs
estimate_num_txs-stuck fuel initial big =
    ground (arith, estimate_loop-stuck fuel initial 0 (omega arith))
