-- ===== src/Crypto/Shamir/Weights.antt =====
-- The coefficients of `lagrange_coefficient` as quotients of products.
use fortresswallet.Base.{
  ℕ, Bool, ◌<◌, ◌≡◌, ◌≢◌, refl, sym, ap, ap₂, ◌∙◌, true, false, inl, inr, Bool-cases, Option-cases,
  none, some, Option, List, [], ◌∷◌, All, ◌==◌, if◌then◌else◌, arith,
}
use fortresswallet.Crypto.{Backend}
use fortresswallet.Crypto.Shamir.{small_scalar, lagrange_loop, lagrange_coefficient}
use fortresswallet.Crypto.Shamir.Field.{
  ScalarLaws, zero_scalar, one_scalar, mul_left_comm, one-mul, mul_left_cancel, mul-ne-zero,
  mul-zero, apart, one-ne-zero,
}

ne_of_false : {i j : ℕ} → (j == i) ≡ false → j ≢ i
ne_of_false h = ground arith

module _ (B : Backend) where
  open B use {Scalar, mul as ◌⊗◌, sub as ◌⊖◌}

  infixl 65 ◌⊖◌
  infixl 70 ◌⊗◌
  unfoldable pub numerator : ℕ → List ℕ → Scalar
  numerator i [] = one_scalar B
  numerator i (j ∷ js) = if j == i then numerator i js else small_scalar B j ⊗ numerator i js

  unfoldable pub denominator : ℕ → List ℕ → Scalar
  denominator i [] = one_scalar B
  denominator i (j ∷ js) =
      if j == i then denominator i js else (small_scalar B j ⊖ small_scalar B i) ⊗ denominator i js

  -- 0 where the divisor has no inverse.
  pub ratio : Scalar → Scalar → Scalar
  ratio a b = elim (B.invert b) [ none ↦ zero_scalar B | some inverse ↦ a ⊗ inverse ]

  unfoldable pub weight : ℕ → List ℕ → Scalar
  unfolding ratio
  weight i js = ratio (numerator i js) (denominator i js)

module _ (B : Backend) (L : ScalarLaws B) where
  open B use {Scalar, mul as ◌⊗◌, sub as ◌⊖◌}

  infixl 65 ◌⊖◌
  infixl 70 ◌⊗◌
  lagrange_loop_lem :
      (i : ℕ) (n d : Scalar) (js : List ℕ)
      → lagrange_loop B i n d js ≡ (n ⊗ numerator B i js, d ⊗ denominator B i js)
  unfolding lagrange_loop numerator denominator
  lagrange_loop_lem i n d [] = ap₂ (λ x y. (x, y)) (sym (L.mul-one n)) (sym (L.mul-one d))
  lagrange_loop_lem i n d (j ∷ js) = elim (Bool-cases (j == i)) [
    | inl e ↦ rw e (lagrange_loop_lem i n d js)
    | inr e ↦ rw e (
        lagrange_loop_lem i (n ⊗ small_scalar B j) (d ⊗ (small_scalar B j ⊖ small_scalar B i)) js
        ∙ ap₂ (λ x y. (x, y)) (L.mul_assoc n (small_scalar B j) _)
            (L.mul_assoc d (small_scalar B j ⊖ small_scalar B i) _))
  ]

  lagrange_loop_from_one :
      (i : ℕ) (js : List ℕ)
      → lagrange_loop B i (small_scalar B 1) (small_scalar B 1) js
        ≡ (numerator B i js, denominator B i js)
  lagrange_loop_from_one i js =
      lagrange_loop_lem i (one_scalar B) (one_scalar B) js
      ∙ ap₂ (λ x y. (x, y)) (one-mul B L _) (one-mul B L _)

  denominator-ne-zero :
      (i : ℕ) (js : List ℕ) → i < 256 → All (λ j. j < 256) js → denominator B i js ≢ zero_scalar B
  unfolding denominator
  denominator-ne-zero i [] hi h = one-ne-zero B L
  denominator-ne-zero i (j ∷ js) hi (hj, hs) = elim (Bool-cases (j == i)) [
    | inl e ↦ rw e (denominator-ne-zero i js hi hs)
    | inr e ↦ rw e (
        mul-ne-zero B L (small_scalar B j ⊖ small_scalar B i) (denominator B i js)
          (apart B L i j hi hj (λ same. ne_of_false e same)) (denominator-ne-zero i js hi hs))
  ]

  swap_factors :
      (c d : Bool) (a b x : Scalar)
      → (if c then (if d then x else b ⊗ x) else a ⊗ (if d then x else b ⊗ x))
        ≡ (if d then (if c then x else a ⊗ x) else b ⊗ (if c then x else a ⊗ x))
  swap_factors true true a b x = refl
  swap_factors true false a b x = refl
  swap_factors false true a b x = refl
  swap_factors false false a b x = mul_left_comm B L a b x

  pub mul-ratio : (a b : Scalar) → b ≢ zero_scalar B → b ⊗ ratio B a b ≡ a
  unfolding ratio
  mul-ratio a b h = elim (Option-cases (B.invert b)) [
    | inl e ↦ absurd (h (L.invert-none b e))
    | inr (inverse, e) ↦
        rw (e, ratio)
          (mul_left_comm B L b a inverse ∙ ap (λ x. a ⊗ x) (L.mul-invert b inverse e) ∙ L.mul-one a)
  ]

  -- The end of `lagrange_coefficient`.
  divided :
      (a b : Scalar)
      → b ≢ zero_scalar B
      → (elim (B.invert b) [ none ↦ none | some inverse ↦ some (a ⊗ inverse) ]) ≡ some (ratio B a b)
  unfolding ratio
  divided a b h = elim (Option-cases (B.invert b)) [
    | inl e ↦ absurd (h (L.invert-none b e))
    | inr (inverse, e) ↦ rw (e, ratio) refl
  ]

  -- What the weight stands for.
  pub denominator-weight :
      (i : ℕ) (js : List ℕ)
      → i < 256
      → All (λ j. j < 256) js
      → denominator B i js ⊗ weight B i js ≡ numerator B i js
  unfolding weight
  denominator-weight i js hi hs =
      mul-ratio (numerator B i js) (denominator B i js) (denominator-ne-zero i js hi hs)

  -- The code's coefficient never panics on small indices.
  pub lagrange_coefficient-weight :
      (i : ℕ) (js : List ℕ)
      → i < 256
      → All (λ j. j < 256) js
      → lagrange_coefficient B i js ≡ some (weight B i js)
  unfolding lagrange_coefficient weight
  lagrange_coefficient-weight i js hi hs =
      let finish : Scalar × Scalar → Option Scalar =
        λ r. elim (B.invert r.1) [ none ↦ none | some inverse ↦ some (r.0 ⊗ inverse) ] in
      ap finish (lagrange_loop_from_one i js)
      ∙ divided (numerator B i js) (denominator B i js) (denominator-ne-zero i js hi hs)

  -- A further point changes the weight by the factor `p j / (p j - p i)`.
  pub weight-cons :
      (i j : ℕ) (js : List ℕ)
      → i < 256
      → j < 256
      → All (λ j. j < 256) js
      → (j == i) ≡ false
      → (small_scalar B j ⊖ small_scalar B i) ⊗ weight B i (j ∷ js)
        ≡ small_scalar B j ⊗ weight B i js
  weight-cons i j js hi hj hs e =
      let p = small_scalar B j in
      let d = small_scalar B j ⊖ small_scalar B i in
      let w = weight B i (j ∷ js) in
      let v = weight B i js in
      let D = denominator B i js in
      mul_left_cancel B L D (d ⊗ w) (p ⊗ v) (denominator-ne-zero i js hi hs) (
        mul_left_comm B L D d w
        ∙ sym (L.mul_assoc d D w)
        ∙ ap (λ x. x ⊗ w) (sym (denominator_cons e))
        ∙ denominator-weight i (j ∷ js) hi (hj, hs)
        ∙ numerator_cons e
        ∙ ap (λ x. p ⊗ x) (sym (denominator-weight i js hi hs))
        ∙ mul_left_comm B L p D v)
    where
      denominator_cons :
          (j == i) ≡ false
          → denominator B i (j ∷ js) ≡ (small_scalar B j ⊖ small_scalar B i) ⊗ denominator B i js
      denominator_cons e = unfold denominator in rw e refl

      numerator_cons :
          (j == i) ≡ false → numerator B i (j ∷ js) ≡ small_scalar B j ⊗ numerator B i js
      numerator_cons e = unfold numerator in rw e refl

  -- The order of two points does not matter.
  pub weight-swap : (i j k : ℕ) (js : List ℕ) → weight B i (j ∷ k ∷ js) ≡ weight B i (k ∷ j ∷ js)
  unfolding weight
  weight-swap i j k js = ap₂ (ratio B) same_numerator same_denominator
    where
      same_numerator : numerator B i (j ∷ k ∷ js) ≡ numerator B i (k ∷ j ∷ js)
      same_numerator = unfold numerator in swap_factors (j == i) (k == i) _ _ _

      same_denominator : denominator B i (j ∷ k ∷ js) ≡ denominator B i (k ∷ j ∷ js)
      same_denominator = unfold denominator in swap_factors (j == i) (k == i) _ _ _

  numerator-ne-zero :
      (i : ℕ) (js : List ℕ)
      → All (λ j. j < 256) js
      → All (λ j. j ≢ 0) js
      → numerator B i js ≢ zero_scalar B
  unfolding numerator
  numerator-ne-zero i [] small nonzero = one-ne-zero B L
  numerator-ne-zero i (j ∷ js) (hj, hs) (nj, ns) = elim (Bool-cases (j == i)) [
    | inl e ↦ rw e (numerator-ne-zero i js hs ns)
    | inr e ↦ rw e (
        mul-ne-zero B L (small_scalar B j) (numerator B i js)
          (λ z. nj (L.from_u64_injective j 0 hj (omega arith) z)) (numerator-ne-zero i js hs ns))
  ]

  -- Among indices other than 0, every point counts.
  pub weight-ne-zero :
      (i : ℕ) (js : List ℕ)
      → i < 256
      → All (λ j. j < 256) js
      → All (λ j. j ≢ 0) js
      → weight B i js ≢ zero_scalar B
  weight-ne-zero i js hi small nonzero e = numerator-ne-zero i js small nonzero (
      sym (denominator-weight i js hi small)
      ∙ ap (λ w. denominator B i js ⊗ w) e
      ∙ mul-zero B L (denominator B i js))
