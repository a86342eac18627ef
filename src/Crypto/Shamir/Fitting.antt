-- ===== src/Crypto/Shamir/Fitting.antt =====
-- A polynomial that takes given values at given points.
use fortresswallet.Base.{
  ℕ, zero, suc, ◌+◌, ◌≤◌, ◌<◌, ◌≡◌, ◌≢◌, refl, sym, ap, ap₂, ◌∙◌, List, [], ◌∷◌, length, All, ◌==◌,
  ==_iff, if◌then◌else◌, arith,
}
use fortresswallet.Crypto.{Backend}
use fortresswallet.Crypto.Shamir.{small_scalar, draws}
use fortresswallet.Crypto.Shamir.Checks.{Distinct}
use fortresswallet.Crypto.Shamir.Field.{
  ScalarLaws, zero_scalar, zero-mul, mul-zero, apart, sub_self, ring,
}
use fortresswallet.Crypto.Shamir.Polynomial.{value_at}
use fortresswallet.Crypto.Shamir.Weights.{ratio, mul-ratio}

module _ (B : Backend) where
  open B use {Scalar, add as ◌⊕◌, mul as ◌⊗◌, sub as ◌⊖◌}

  infixl 65 ◌⊕◌ ◌⊖◌
  infixl 70 ◌⊗◌
  -- The coefficients of `v + (x - a) g x`.
  linear : Scalar → Scalar → List Scalar → List Scalar
  linear v a [] = v ∷ []
  linear v a (c ∷ coeffs) = (v ⊖ a ⊗ c) ∷ linear c a coeffs

  -- Coefficients of a polynomial that takes the values `v` at the points `is`.
  pub fit : List ℕ → (ℕ → Scalar) → List Scalar
  unfolding linear
  fit [] v = []
  fit (i ∷ is) v =
      linear (v i) (small_scalar B i)
        (fit is (λ j. ratio B (v j ⊖ v i) (small_scalar B j ⊖ small_scalar B i)))

  -- Draws that give the listed scalars, and 0 from there on.
  pub draw_list : List Scalar → ℕ → ℕ → Scalar
  draw_list [] i k = zero_scalar B
  draw_list (c ∷ coeffs) i k = if k == i then c else draw_list coeffs (i + 1) k

  draws_congr :
      (f g : ℕ → Scalar) (j count : ℕ)
      → ((k : ℕ) → j ≤ k → f k ≡ g k)
      → draws B f j count ≡ draws B g j count
  unfolding draws
  draws_congr f g j zero h = refl
  draws_congr f g j (suc count) h =
      ap₂ ◌∷◌ (h j (omega arith)) (draws_congr f g (j + 1) count (λ k le. h k (omega arith)))

  pub draws-draw_list :
      (coeffs : List Scalar) (i : ℕ) → draws B (draw_list coeffs i) i (length coeffs) ≡ coeffs
  unfolding draws draw_list
  draws-draw_list [] i = refl
  draws-draw_list (c ∷ coeffs) i = ap₂ ◌∷◌ (rw ((==_iff i i).1 refl) refl) (
      draws_congr (draw_list (c ∷ coeffs) i) (draw_list coeffs (i + 1)) (i + 1) (length coeffs)
        (λ k le. past k le)
      ∙ draws-draw_list coeffs (i + 1))
    where
      past : (k : ℕ) → i + 1 ≤ k → draw_list (c ∷ coeffs) i k ≡ draw_list coeffs (i + 1) k
      past k le = ground arith

  length-linear :
      (v a : Scalar) (coeffs : List Scalar) → length (linear v a coeffs) ≡ suc (length coeffs)
  unfolding linear
  length-linear v a [] = refl
  length-linear v a (c ∷ coeffs) = ap suc (length-linear c a coeffs)

  pub length-fit : (is : List ℕ) (v : ℕ → Scalar) → length (fit is v) ≡ length is
  unfolding fit
  length-fit [] v = refl
  length-fit (i ∷ is) v = length-linear (v i) (small_scalar B i) _ ∙ ap suc (length-fit is _)

module _ (B : Backend) (L : ScalarLaws B) where
  open B use {Scalar, add as ◌⊕◌, mul as ◌⊗◌, sub as ◌⊖◌}

  infixl 65 ◌⊕◌ ◌⊖◌
  infixl 70 ◌⊗◌
  linear_step :
      (u d a c h : Scalar) → u ⊕ (d ⊕ a) ⊗ (c ⊕ d ⊗ h) ≡ (u ⊕ a ⊗ c) ⊕ d ⊗ (c ⊕ (d ⊕ a) ⊗ h)
  linear_step u d a c h = simp (ring, L)

  value_at-linear :
      (v a x : Scalar) (coeffs : List Scalar)
      → value_at B (linear B v a coeffs) x ≡ v ⊕ (x ⊖ a) ⊗ value_at B coeffs x
  unfolding value_at linear
  value_at-linear v a x [] = ap (λ z. v ⊕ z) (mul-zero B L x ∙ sym (mul-zero B L (x ⊖ a)))
  value_at-linear v a x (c ∷ coeffs) =
      let h = value_at B coeffs x in
      let d = x ⊖ a in
      ap (λ z. (v ⊖ a ⊗ c) ⊕ x ⊗ z) (value_at-linear c a x coeffs)
      ∙ ap (λ z. (v ⊖ a ⊗ c) ⊕ z ⊗ (c ⊕ d ⊗ h)) (sym (L.sub-add x a))
      ∙ linear_step (v ⊖ a ⊗ c) d a c h
      ∙ ap₂ (λ y z. y ⊕ d ⊗ (c ⊕ z ⊗ h)) (L.sub-add v (a ⊗ c)) (L.sub-add x a)

  -- The fitted polynomial takes the values at all the points.
  pub value_at-fit :
      (is : List ℕ) (v : ℕ → Scalar)
      → All (λ i. i < 256) is
      → Distinct is
      → All (λ i. value_at B (fit B is v) (small_scalar B i) ≡ v i) is
  unfolding fit
  value_at-fit [] v small distinct = tt
  value_at-fit (i ∷ is) v (hi, his) (aparts, distinct) =
      let p = small_scalar B i in
      let g = λ (j : ℕ). ratio B (v j ⊖ v i) (small_scalar B j ⊖ p) in
      (
        value_at-linear (v i) p p (fit B is g)
            ∙ ap (λ z. v i ⊕ z ⊗ value_at B (fit B is g) p) (sub_self B L p)
            ∙ ap (λ z. v i ⊕ z) (zero-mul B L _)
            ∙ L.add-zero (v i),
        others is his aparts (value_at-fit is g his distinct),
      )
    where
      other :
          (j : ℕ) (w : Scalar)
          → j < 256
          → i ≢ j
          → w ≡ ratio B (v j ⊖ v i) (small_scalar B j ⊖ small_scalar B i)
          → v i ⊕ (small_scalar B j ⊖ small_scalar B i) ⊗ w ≡ v j
      other j w hj ne e =
          let d = small_scalar B j ⊖ small_scalar B i in
          ap (λ z. v i ⊕ d ⊗ z) e
          ∙ ap (λ z. v i ⊕ z)
              (mul-ratio B L (v j ⊖ v i) d (apart B L i j hi hj (λ same. ne (sym same))))
          ∙ L.add_comm (v i) (v j ⊖ v i)
          ∙ L.sub-add (v j) (v i)

      others :
          (js : List ℕ)
          → All (λ j. j < 256) js
          → All (λ j. i ≢ j) js
          → All
              (λ j.
                value_at B
                  (fit B is (λ j. ratio B (v j ⊖ v i) (small_scalar B j ⊖ small_scalar B i)))
                  (small_scalar B j)
                ≡ ratio B (v j ⊖ v i) (small_scalar B j ⊖ small_scalar B i))
              js
          → All (λ j. value_at B (fit B (i ∷ is) v) (small_scalar B j) ≡ v j) js
      others [] hs hn he = tt
      others (j ∷ js) (hj, hs) (ne, hn) (e, he) = (
        value_at-linear (v i) (small_scalar B i) (small_scalar B j) (fit B is _)
            ∙ other j _ hj ne e,
        others js hs hn he,
      )
