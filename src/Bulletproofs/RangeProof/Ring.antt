-- ===== src/Bulletproofs/RangeProof/Ring.antt =====
-- Calculations with scalars that the range proof needs.
use go_incognito_sdk_v.Base.{◌≡◌, ◌⊎◌, inl, inr, sym, ap, ◌∙◌}
use go_incognito_sdk_v.Bulletproofs.{Group}
use go_incognito_sdk_v.Bulletproofs.Laws.{GroupLaws}
use go_incognito_sdk_v.Bulletproofs.InnerProduct.Sums.{
  scalars_module, plus_interchange, add-mul, one-mul,
}

module _ {g : Group} (h : GroupLaws g) where
  pub zero-add : (a : g.Scalar) → g.add g.zero_scalar a ≡ a
  zero-add a = h.add_comm g.zero_scalar a ∙ h.add-zero a

  pub zero-mul : (a : g.Scalar) → g.mul g.zero_scalar a ≡ g.zero_scalar
  zero-mul a = h.mul_comm g.zero_scalar a ∙ h.mul-zero a

  pub add_interchange :
      (a b c d : g.Scalar) → g.add (g.add a b) (g.add c d) ≡ g.add (g.add a c) (g.add b d)
  add_interchange = plus_interchange (scalars_module g h)

  pub mul_swap : (a b c : g.Scalar) → g.mul a (g.mul b c) ≡ g.mul b (g.mul a c)
  mul_swap a b c =
      sym (h.mul_assoc a b c) ∙ ap (λ t. g.mul t c) (h.mul_comm a b) ∙ h.mul_assoc b a c

  abbrev pub neg : g.Scalar → g.Scalar
  neg a = g.sub g.zero_scalar a

  pub add-neg : (a : g.Scalar) → g.add a (neg a) ≡ g.zero_scalar
  add-neg a = h.add_comm a (neg a) ∙ h.add-sub g.zero_scalar a

  pub add_cancel : (a b c : g.Scalar) → g.add a c ≡ g.add b c → a ≡ b
  add_cancel a b c e =
      let undo =
        λ (t : g.Scalar). h.add_assoc t c (neg c) ∙ ap (g.add t) (add-neg c) ∙ h.add-zero t in
      sym (undo a) ∙ ap (λ t. g.add t (neg c)) e ∙ undo b

  pub sub-neg : (a b : g.Scalar) → g.sub a b ≡ g.add a (neg b)
  sub-neg a b = add_cancel (g.sub a b) (g.add a (neg b)) b (
      h.add-sub a b
      ∙ sym (h.add_assoc a (neg b) b ∙ ap (g.add a) (h.add-sub g.zero_scalar b) ∙ h.add-zero a))

  pub neg-mul : (a b : g.Scalar) → g.mul (neg a) b ≡ neg (g.mul a b)
  neg-mul a b = add_cancel (g.mul (neg a) b) (neg (g.mul a b)) (g.mul a b) (
      sym (add-mul g h (neg a) a b)
      ∙ ap (λ t. g.mul t b) (h.add-sub g.zero_scalar a)
      ∙ zero-mul b
      ∙ sym (h.add-sub g.zero_scalar (g.mul a b)))

  neg-neg : (a : g.Scalar) → neg (neg a) ≡ a
  neg-neg a = add_cancel (neg (neg a)) a (neg a) (h.add-sub g.zero_scalar (neg a) ∙ sym (add-neg a))

  -- z - z^2, the factor of delta
  abbrev pub factor : g.Scalar → g.Scalar
  factor z = g.sub z (g.mul z z)

  factor_lem : (z : g.Scalar) → g.mul (neg z) (g.add (neg g.one_scalar) z) ≡ factor z
  factor_lem z =
      h.mul-add (neg z) (neg g.one_scalar) z
      ∙ ap (λ t. g.add t (g.mul (neg z) z))
          (neg-mul z (neg g.one_scalar)
            ∙ ap neg
                (h.mul_comm z (neg g.one_scalar) ∙ neg-mul g.one_scalar z ∙ ap neg (one-mul g h z))
            ∙ neg-neg z)
      ∙ ap (g.add z) (neg-mul z z)
      ∙ sym (sub-neg z (g.mul z z))

  abbrev pub IsBit : g.Scalar → Type 0
  IsBit a = (a ≡ g.zero_scalar) ⊎ (a ≡ g.one_scalar)

  -- (a - z) (a - 1 + z) of a bit
  bit_factor :
      (a z : g.Scalar)
      → IsBit a
      → g.mul (g.add a (neg z)) (g.add (g.sub a g.one_scalar) z) ≡ factor z
  bit_factor a z (inl e) =
      rw e (ap (λ t. g.mul t (g.add (neg g.one_scalar) z)) (zero-add (neg z)) ∙ factor_lem z)
  bit_factor a z (inr e) = rw e (
      ap (λ t. g.mul (g.add g.one_scalar (neg z)) (g.add t z))
        (sub-neg g.one_scalar g.one_scalar ∙ add-neg g.one_scalar)
      ∙ ap (g.mul (g.add g.one_scalar (neg z))) (zero-add z)
      ∙ add-mul g h g.one_scalar (neg z) z
      ∙ ap (λ t. g.add t (g.mul (neg z) z)) (one-mul g h z)
      ∙ ap (g.add z) (neg-mul z z)
      ∙ sym (sub-neg z (g.mul z z)))

  -- One place of <l0, r0>.
  pub bit_term :
      (a y z w : g.Scalar)
      → IsBit a
      → g.mul (g.add a (neg z)) (g.add (g.mul y (g.add (g.sub a g.one_scalar) z)) w)
        ≡ g.add (g.mul (factor z) y) (g.add (g.mul a w) (g.mul (neg z) w))
  bit_term a y z w bit =
      let l = g.add a (neg z) in
      h.mul-add l (g.mul y (g.add (g.sub a g.one_scalar) z)) w
      ∙ ap (λ t. g.add t (g.mul l w))
          (mul_swap l y (g.add (g.sub a g.one_scalar) z)
            ∙ ap (g.mul y) (bit_factor a z bit)
            ∙ h.mul_comm y (factor z))
      ∙ ap (g.add (g.mul (factor z) y)) (add-mul g h a (neg z) w)

  -- (p + s x) (r + t x) by the powers of x
  pub expand :
      (p s r t x : g.Scalar)
      → g.mul (g.add p (g.mul s x)) (g.add r (g.mul t x))
        ≡ g.add
            (g.add (g.mul p r) (g.mul x (g.add (g.mul s r) (g.mul p t))))
            (g.mul (g.mul x x) (g.mul s t))
  expand p s r t x =
      add-mul g h p (g.mul s x) (g.add r (g.mul t x))
      ∙ ap (λ k. g.add k (g.mul (g.mul s x) (g.add r (g.mul t x))))
          (h.mul-add p r (g.mul t x)
            ∙ ap (g.add (g.mul p r)) (sym (h.mul_assoc p t x) ∙ h.mul_comm (g.mul p t) x))
      ∙ ap (g.add (g.add (g.mul p r) (g.mul x (g.mul p t)))) (
          h.mul-add (g.mul s x) r (g.mul t x)
          ∙ ap (λ k. g.add k (g.mul (g.mul s x) (g.mul t x)))
              (ap (λ k. g.mul k r) (h.mul_comm s x) ∙ h.mul_assoc x s r)
          ∙ ap (g.add (g.mul x (g.mul s r))) (
              ap (g.mul (g.mul s x)) (h.mul_comm t x)
              ∙ h.mul_assoc s x (g.mul x t)
              ∙ ap (g.mul s) (sym (h.mul_assoc x x t))
              ∙ mul_swap s (g.mul x x) t))
      ∙ sym (
          h.add_assoc (g.add (g.mul p r) (g.mul x (g.mul p t))) (g.mul x (g.mul s r))
            (g.mul (g.mul x x) (g.mul s t)))
      ∙ ap (λ k. g.add k (g.mul (g.mul x x) (g.mul s t)))
          (h.add_assoc (g.mul p r) (g.mul x (g.mul p t)) (g.mul x (g.mul s r))
            ∙ ap (g.add (g.mul p r)) (
                h.add_comm (g.mul x (g.mul p t)) (g.mul x (g.mul s r))
                ∙ sym (h.mul-add x (g.mul s r) (g.mul p t))))
