-- ===== src/Client/Unspent/Batches.antt =====
-- The batches of GetUnspentOutputCoins ask for every key image once, in order.
use mathlib.Core.Path.{subst}
use mathlib.Core.List.{map-append}
use go_incognito_sdk_v.Base.{
  ℕ, zero, suc, ◌+◌, ◌-◌, ◌*◌, ◌≤◌, ◌<◌, ◌≡◌, refl, sym, ap, ◌∙◌, Bool, true, List, [], ◌∷◌, map,
  ltb, ltb→lt, ◌==◌, if◌then◌else◌, length, take, drop, Result, ok, arith, Bool-cases, inl, inr,
  length-map, length-take, length-drop, take-append-drop, take_all,
}
use go_incognito_sdk_v.Client.Unspent.{Error, check_coins_spent, check_batches, num_batches}

drop-nil {ℓ} : {A : Type ℓ} (m : ℕ) → drop {A = A} m [] ≡ []
drop-nil zero = refl
drop-nil (suc m) = refl

drop-drop {ℓ} : {A : Type ℓ} (m n : ℕ) (xs : List A) → drop m (drop n xs) ≡ drop (n + m) xs
drop-drop m zero xs = let e : m ≡ 0 + m = omega arith in ap (λ k. drop k xs) e
drop-drop m (suc n) [] = drop-nil m ∙ sym (drop-nil (suc n + m))
drop-drop m (suc n) (x ∷ xs) =
    let e : suc (n + m) ≡ suc n + m = omega arith in drop-drop m n xs ∙ ap (λ k. drop k (x ∷ xs)) e

nothing_left {ℓ} : {A : Type ℓ} (xs : List A) → length xs ≤ 0 → xs ≡ []
nothing_left [] h = refl
nothing_left (x ∷ xs) h = absurd (omega arith)

pub num_batches_lem : (n : ℕ) → n ≤ num_batches n * 100
unfolding num_batches
num_batches_lem n = ground arith

pub check_coins_spent_lem :
    (node : List (List ℕ) → Result Error (List Bool)) (spent : List ℕ → Bool)
    (images : List (List ℕ))
    → node images ≡ ok (map spent images)
    → check_coins_spent node images ≡ ok (map spent images)
unfolding check_coins_spent
check_coins_spent_lem node spent images answer =
    let e : (length (map spent images) == length images) ≡ true =
      ground (arith, length-map images spent) in
    rw answer (rw e refl)

module _ (node : List (List ℕ) → Result Error (List Bool)) (spent : List ℕ → Bool)
    (answers : (images : List (List ℕ))
      → length images ≤ 100
      → node images ≡ ok (map spent images)) where
  -- The end of a batch, which is cut at the end of the list.
  batch_lem :
      (i : ℕ) (images : List (List ℕ))
      → (let end = if ltb (length images) ((i + 1) * 100) then length images else (i + 1) * 100 in
          take (end - i * 100) (drop (i * 100) images) ≡ take 100 (drop (i * 100) images))
  batch_lem i images = elim (Bool-cases (ltb (length images) ((i + 1) * 100))) [
    | inl e ↦
        let h : length images < (i + 1) * 100 = ltb→lt _ _ e in
        let l : length (drop (i * 100) images) ≡ length images - i * 100 =
          length-drop (i * 100) images in
        rw e (
          take_all (length images - i * 100) (drop (i * 100) images) (omega (arith, l))
          ∙ sym (take_all 100 (drop (i * 100) images) (omega (arith, l, h))))
    | inr e ↦
        let s : (i + 1) * 100 - i * 100 ≡ 100 = omega arith in
        rw e (ap (λ k. take k (drop (i * 100) images)) s)
  ]

  check_coins_spent-map :
      (images : List (List ℕ))
      → length images ≤ 100
      → check_coins_spent node images ≡ ok (map spent images)
  check_coins_spent-map images h = check_coins_spent_lem node spent images (answers images h)

  pub check_batches-map :
      (left i : ℕ) (images : List (List ℕ))
      → length (drop (i * 100) images) ≤ left * 100
      → check_batches node left i images ≡ ok (map spent (drop (i * 100) images))
  unfolding check_batches
  check_batches-map zero i images h =
      ap (λ xs. ok (map spent xs)) (sym (nothing_left (drop (i * 100) images) (omega arith)))
  check_batches-map (suc left) i images h =
      let xs = drop (i * 100) images in
      let s : i * 100 + 100 ≡ (i + 1) * 100 = omega arith in
      let next : drop 100 xs ≡ drop ((i + 1) * 100) images =
        drop-drop 100 (i * 100) images ∙ ap (λ k. drop k images) s in
      let first : check_coins_spent node (take 100 xs) ≡ ok (map spent (take 100 xs)) =
        check_coins_spent-map (take 100 xs) (omega (arith, length-take 100 xs)) in
      let rest : check_batches node left (i + 1) images ≡ ok (map spent (drop 100 xs)) =
        check_batches-map left (i + 1) images
          (subst (λ ys. length ys ≤ left * 100) next (omega (arith, length-drop 100 xs)))
        ∙ ap (λ ys. ok (map spent ys)) (sym next) in
      rw (batch_lem i images) (
        rw (first, rest)
          (ap ok (
            sym (map-append spent (take 100 xs) (drop 100 xs))
            ∙ ap (map spent) (take-append-drop 100 xs))))
