-- ===== src/Bulletproofs/RangeProof/Bits.antt =====
-- The bits of the values, the powers of two and of z, and what their products add up to.
use native.Mathlib.Nat.{pow-suc, mul-suc}
use go_incognito_sdk_v.Base.{
  ℕ, zero, suc, ◌+◌, ◌*◌, ◌/◌, ◌%◌, ◌^◌, ◌<◌, ◌≡◌, inl, inr, refl, sym, ap, ◌∙◌, List, [], ◌∷◌,
  ◌==◌, length, replicate, All, All-append, arith, Bool-cases, length-append, length-replicate,
}
use go_incognito_sdk_v.Bulletproofs.{Group}
use go_incognito_sdk_v.Bulletproofs.Laws.{GroupLaws}
use go_incognito_sdk_v.Bulletproofs.InnerProduct.Sums.{sum, add-mul, one-mul}
use go_incognito_sdk_v.Bulletproofs.InnerProduct.Commitments.{dot}
use go_incognito_sdk_v.Bulletproofs.RangeProof.{
  binary_from, convert_uint64_to_binary, powers_from, bits_of,
}
use go_incognito_sdk_v.Bulletproofs.RangeProof.Ring.{zero-add, zero-mul, IsBit}

module _ {g : Group} (h : GroupLaws g) where
  abbrev two : g.Scalar
  two = g.from_uint64 2

  two-mul : (a : g.Scalar) → g.mul two a ≡ g.add a a
  two-mul a =
      let e : g.from_uint64 2 ≡ g.add g.one_scalar g.one_scalar =
        h.from_uint64-add 1 1 (omega arith)
        ∙ ap (λ t. g.add t (g.from_uint64 1)) h.from_uint64_one
        ∙ ap (g.add g.one_scalar) h.from_uint64_one in
      ap (λ t. g.mul t a) e
      ∙ add-mul g h g.one_scalar g.one_scalar a
      ∙ ap (λ t. g.add t (g.mul g.one_scalar a)) (one-mul g h a)
      ∙ ap (g.add a) (one-mul g h a)

  -- A number from its last bit and the others.
  from_uint64-bits :
      (v : ℕ)
      → v < 2 ^ 64
      → g.add (g.from_uint64 (v % 2)) (g.mul two (g.from_uint64 (v / 2))) ≡ g.from_uint64 v
  from_uint64-bits v h64 =
      let e : v % 2 + (v / 2 + v / 2) ≡ v = omega arith in
      ap (g.add (g.from_uint64 (v % 2)))
        (two-mul (g.from_uint64 (v / 2)) ∙ sym (h.from_uint64-add (v / 2) (v / 2) (omega arith)))
      ∙ sym (h.from_uint64-add (v % 2) (v / 2 + v / 2) (omega arith))
      ∙ ap g.from_uint64 e

  dot-binary :
      (n v : ℕ) (p : g.Scalar)
      → v < 2 ^ n
      → v < 2 ^ 64
      → dot h (binary_from g v n) (powers_from g two p n) ≡ g.mul p (g.from_uint64 v)
  unfolding sum binary_from powers_from
  dot-binary zero v p hn h64 =
      let e : v ≡ 0 = omega arith in
      sym (ap (λ k. g.mul p (g.from_uint64 k)) e ∙ ap (g.mul p) h.from_uint64_zero ∙ h.mul-zero p)
  dot-binary (suc n) v p hn h64 =
      ap (g.add (g.mul (g.from_uint64 (v % 2)) p)) (
        dot-binary n (v / 2) (g.mul p two) (omega (arith, pow-suc 2 n)) (omega arith)
        ∙ h.mul_assoc p two (g.from_uint64 (v / 2)))
      ∙ ap (λ k. g.add k (g.mul p (g.mul two (g.from_uint64 (v / 2)))))
          (h.mul_comm (g.from_uint64 (v % 2)) p)
      ∙ sym (h.mul-add p (g.from_uint64 (v % 2)) (g.mul two (g.from_uint64 (v / 2))))
      ∙ ap (g.mul p) (from_uint64-bits v h64)

  dot-zeros : (n : ℕ) (w : List g.Scalar) → dot h (replicate n g.zero_scalar) w ≡ g.zero_scalar
  unfolding sum
  dot-zeros zero w = refl
  dot-zeros (suc n) [] = refl
  dot-zeros (suc n) (x ∷ w) =
      ap (λ k. g.add k (dot h (replicate n g.zero_scalar) w)) (zero-mul h x)
      ∙ zero-add h (dot h (replicate n g.zero_scalar) w)
      ∙ dot-zeros n w

  -- powerVector of 2
  abbrev pub two_vector : ℕ → List g.Scalar
  two_vector m = g.from_uint64 1 ∷ powers_from g two two m

  two_vector-powers : (m : ℕ) → two_vector m ≡ powers_from g two (g.from_uint64 1) (suc m)
  unfolding powers_from
  two_vector-powers m =
      ap (λ k. g.from_uint64 1 ∷ powers_from g two k m)
        (sym (ap (λ k. g.mul k two) h.from_uint64_one ∙ one-mul g h two))

  -- The bits of a number with the powers of two give the number.
  pub dot-convert :
      (m v : ℕ)
      → v < 2 ^ suc m
      → v < 2 ^ 64
      → dot h (convert_uint64_to_binary g v (suc m)) (two_vector m) ≡ g.from_uint64 v
  unfolding convert_uint64_to_binary
  dot-convert m v hm h64 = elim (Bool-cases (v == 0)) [
    | inl e ↦
        let z : v ≡ 0 = ground arith in
        rw e (
          ap (λ k. dot h (replicate (suc m) k) (two_vector m)) h.from_uint64_zero
          ∙ dot-zeros (suc m) (two_vector m)
          ∙ sym (ap g.from_uint64 z ∙ h.from_uint64_zero))
    | inr e ↦ rw e (
        ap (dot h (binary_from g v (suc m))) (two_vector-powers m)
        ∙ dot-binary (suc m) v (g.from_uint64 1) hm h64
        ∙ ap (λ k. g.mul k (g.from_uint64 v)) h.from_uint64_one
        ∙ one-mul g h (g.from_uint64 v))
  ]

  length-binary_from : (v n : ℕ) → length (binary_from g v n) ≡ n
  unfolding binary_from
  length-binary_from v zero = refl
  length-binary_from v (suc n) = ap suc (length-binary_from (v / 2) n)

  pub length-convert : (v n : ℕ) → length (convert_uint64_to_binary g v n) ≡ n
  unfolding convert_uint64_to_binary
  length-convert v n = elim (Bool-cases (v == 0)) [
    | inl e ↦ rw e (length-replicate n (g.from_uint64 0))
    | inr e ↦ rw e (length-binary_from v n)
  ]

  from_uint64-IsBit : (b : ℕ) → b < 2 → IsBit h (g.from_uint64 b)
  from_uint64-IsBit zero e = inl h.from_uint64_zero
  from_uint64-IsBit (suc zero) e = inr h.from_uint64_one
  from_uint64-IsBit (suc (suc b)) e = absurd (omega arith)

  binary_from-IsBit : (v n : ℕ) → All (IsBit h) (binary_from g v n)
  unfolding binary_from
  binary_from-IsBit v zero = tt
  binary_from-IsBit v (suc n) =
      (from_uint64-IsBit (v % 2) (omega arith), binary_from-IsBit (v / 2) n)

  replicate-IsBit : (n : ℕ) → All (IsBit h) (replicate n (g.from_uint64 0))
  replicate-IsBit zero = tt
  replicate-IsBit (suc n) = (inl h.from_uint64_zero, replicate-IsBit n)

  convert-IsBit : (v n : ℕ) → All (IsBit h) (convert_uint64_to_binary g v n)
  unfolding convert_uint64_to_binary
  convert-IsBit v n = elim (Bool-cases (v == 0)) [
    | inl e ↦ rw e (replicate-IsBit n)
    | inr e ↦ rw e (binary_from-IsBit v n)
  ]

  pub bits_of-IsBit : (n : ℕ) (vs : List ℕ) → All (IsBit h) (bits_of g n vs)
  unfolding bits_of
  bits_of-IsBit n [] = tt
  bits_of-IsBit n (v ∷ vs) =
      All-append (IsBit h) (convert_uint64_to_binary g v n) (bits_of g n vs) (convert-IsBit v n)
        (bits_of-IsBit n vs)

  pub length-bits_of : (n : ℕ) (vs : List ℕ) → length (bits_of g n vs) ≡ n * length vs
  unfolding bits_of
  length-bits_of n [] = omega arith
  length-bits_of n (v ∷ vs) =
      length-append (convert_uint64_to_binary g v n) (bits_of g n vs)
      ∙ ap (λ k. k + length (bits_of g n vs)) (length-convert v n)
      ∙ ap (λ k. n + k) (length-bits_of n vs)
      ∙ omega (arith, mul-suc n (length vs))
