-- ===== src/Crypto/Shamir/Polynomial.antt =====
-- Polynomials as functions on the scalars: those of degree below `n`, by their difference quotients.
use fortresswallet.Base.{
  ℕ, zero, suc, ◌≡◌, refl, sym, ap, ◌∙◌, List, [], ◌∷◌, length, ◌++◌, replicate,
}
use fortresswallet.Crypto.{Backend}
use fortresswallet.Crypto.Shamir.{eval_loop}
use fortresswallet.Crypto.Shamir.Field.{ScalarLaws, zero-add, zero_scalar, mul-zero, ring}

module _ (B : Backend) where
  open B use {Scalar, add as ◌⊕◌, mul as ◌⊗◌, sub as ◌⊖◌}

  infixl 65 ◌⊕◌ ◌⊖◌
  infixl 70 ◌⊗◌
  -- `f x = f y + (x - y) q x` with a quotient of a degree one less, at every `y`.
  abbrev pub IsPolynomial : ℕ → (Scalar → Scalar) → Type 0
  IsPolynomial zero f = (x : Scalar) → f x ≡ zero_scalar B
  IsPolynomial (suc n) f =
      (y : Scalar)
      → (q : Scalar → Scalar) × IsPolynomial n q × ((x : Scalar) → f x ≡ f y ⊕ (x ⊖ y) ⊗ q x)

  -- The value of a polynomial with these coefficients, the constant one first.
  unfoldable pub value_at : List Scalar → Scalar → Scalar
  value_at [] x = zero_scalar B
  value_at (c ∷ coeffs) x = c ⊕ x ⊗ value_at coeffs x

module _ (B : Backend) (L : ScalarLaws B) where
  open B use {Scalar, add as ◌⊕◌, mul as ◌⊗◌, sub as ◌⊖◌}

  infixl 65 ◌⊕◌ ◌⊖◌
  infixl 70 ◌⊗◌
  quotient-eq :
      (c d y r q : Scalar) → c ⊕ (d ⊕ y) ⊗ (r ⊕ d ⊗ q) ≡ (c ⊕ y ⊗ r) ⊕ d ⊗ (r ⊕ (d ⊕ y) ⊗ q)
  quotient-eq c d y r q = simp (ring, L)

  horner-IsPolynomial :
      (n : ℕ) (c : Scalar) (f : Scalar → Scalar)
      → IsPolynomial B n f
      → IsPolynomial B (suc n) (λ x. c ⊕ x ⊗ f x)
  horner-IsPolynomial zero c f h y = (λ x. zero_scalar B, λ x. refl, λ x. constant x)
    where
      constant : (x : Scalar) → c ⊕ x ⊗ f x ≡ (c ⊕ y ⊗ f y) ⊕ (x ⊖ y) ⊗ zero_scalar B
      constant x =
          ap (λ z. c ⊕ z)
            (ap (λ z. x ⊗ z) (h x)
              ∙ mul-zero B L x
              ∙ sym (mul-zero B L y)
              ∙ ap (λ z. y ⊗ z) (sym (h y)))
          ∙ sym (L.add-zero _)
          ∙ ap (λ z. (c ⊕ y ⊗ f y) ⊕ z) (sym (mul-zero B L (x ⊖ y)))
  horner-IsPolynomial (suc n) c f h y =
      let (q, smaller, quotient) = h y in
      (
        λ x. f y ⊕ x ⊗ q x,
        horner-IsPolynomial n (f y) q smaller,
        λ x.
            ap (λ z. c ⊕ x ⊗ z) (quotient x)
            ∙ ap (λ z. c ⊕ z ⊗ (f y ⊕ (x ⊖ y) ⊗ q x)) (sym (L.sub-add x y))
            ∙ quotient-eq c (x ⊖ y) y (f y) (q x)
            ∙ ap (λ z. (c ⊕ y ⊗ f y) ⊕ (x ⊖ y) ⊗ (f y ⊕ z ⊗ q x)) (L.sub-add x y),
      )

  pub value_at-IsPolynomial :
      (coeffs : List Scalar) → IsPolynomial B (length coeffs) (value_at B coeffs)
  unfolding value_at
  value_at-IsPolynomial [] = λ x. refl
  value_at-IsPolynomial (c ∷ coeffs) =
      horner-IsPolynomial (length coeffs) c (value_at B coeffs) (value_at-IsPolynomial coeffs)

  step_eq :
      (y c x_pow x rest : Scalar)
      → (y ⊕ c ⊗ x_pow) ⊕ (x_pow ⊗ x) ⊗ rest ≡ y ⊕ x_pow ⊗ (c ⊕ x ⊗ rest)
  step_eq y c x_pow x rest = simp (ring, L)

  -- Horner's scheme and the loop over powers agree.
  pub eval_loop-value_at :
      (x y x_pow : Scalar) (coeffs : List Scalar)
      → eval_loop B x y x_pow coeffs ≡ y ⊕ x_pow ⊗ value_at B coeffs x
  unfolding eval_loop value_at
  eval_loop-value_at x y x_pow [] = sym (ap (λ z. y ⊕ z) (mul-zero B L x_pow) ∙ L.add-zero y)
  eval_loop-value_at x y x_pow (c ∷ coeffs) =
      eval_loop-value_at x (y ⊕ c ⊗ x_pow) (x_pow ⊗ x) coeffs
      ∙ step_eq y c x_pow x (value_at B coeffs x)

  -- Coefficients 0 at the end change no value.
  pub value_at-append_zeros :
      (coeffs : List Scalar) (count : ℕ) (x : Scalar)
      → value_at B (coeffs ++ replicate count (zero_scalar B)) x ≡ value_at B coeffs x
  unfolding value_at
  value_at-append_zeros [] zero x = refl
  value_at-append_zeros [] (suc count) x =
      zero-add B L _ ∙ ap (λ z. x ⊗ z) (value_at-append_zeros [] count x) ∙ mul-zero B L x
  value_at-append_zeros (c ∷ coeffs) count x =
      ap (λ z. c ⊕ x ⊗ z) (value_at-append_zeros coeffs count x)
