-- ===== src/Examples/Choosing.antt =====
-- Runs of the theorem on the choice of coins.
use go_incognito_sdk_v.Base.{◌⊎◌, ℕ, ◌<◌, ◌≤◌, ◌≡◌, List, [], ◌∷◌, ok, err, arith}
use go_incognito_sdk_v.Client.Choose.{total_too_small, choose_best_coins_by_amount}
use go_incognito_sdk_v.Client.Choose.Sound.{sum}
use go_incognito_sdk_v.Client.Choose.Pays.{IsPayment, choose_best_coins_by_amount-pays}

abbrev coins : List ℕ
coins = 50 ∷ 30 ∷ 20 ∷ 5 ∷ []

abbrev value : ℕ → ℕ
value n = n

choose_best_coins_by_amount-pays_example :
    ((60 ≤ sum value coins)
      × (r : List ℕ × List ℕ) × (choose_best_coins_by_amount value coins 60 ≡ ok r)
      × IsPayment value coins 60 r)
    ⊎ ((sum value coins < 60) × (choose_best_coins_by_amount value coins 60 ≡ err total_too_small))
unfolding sum
choose_best_coins_by_amount-pays_example =
    choose_best_coins_by_amount-pays value coins 60 (omega arith)
