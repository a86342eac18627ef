-- ===== src/Crypto/Shamir/Interpolation.antt =====
-- A polynomial of a degree below the number of points is found again at 0.
use fortresswallet.Base.{
  ℕ, ◌<◌, ◌≡◌, ◌≢◌, refl, sym, ap, ap₂, ◌∙◌, false, List, [], ◌∷◌, length, All, ◌==◌, ==_iff, arith,
}
use mathlib.Core.Path.{fun_ext}
use fortresswallet.Crypto.{Backend}
use fortresswallet.Crypto.Shamir.{small_scalar}
use fortresswallet.Crypto.Shamir.Checks.{Distinct}
use fortresswallet.Crypto.Shamir.Field
use fortresswallet.Crypto.Shamir.Field.{
  ScalarLaws, add-mul, add_left_comm, zero_scalar, one_scalar, one-mul, zero-add, zero-mul,
  mul-zero, add_right_cancel, mul_left_cancel, sub-add-sub, eq_of_sub-eq-zero, ring,
}
use fortresswallet.Crypto.Shamir.Polynomial.{IsPolynomial}
use fortresswallet.Crypto.Shamir.Weights.{
  weight, numerator, denominator, weight-cons, weight-swap, denominator-weight,
}

module _ (B : Backend) where
  open B use {Scalar, add as ◌⊕◌, mul as ◌⊗◌}

  infixl 65 ◌⊕◌
  infixl 70 ◌⊗◌
  -- The sum over the points `is` of the values times the weights among the points `js`.
  unfoldable pub combination : (ℕ → Scalar) → (Scalar → Scalar) → List ℕ → Scalar
  combination w f [] = zero_scalar B
  combination w f (i ∷ is) = f (small_scalar B i) ⊗ w i ⊕ combination w f is

  abbrev pub among : List ℕ → ℕ → Scalar
  among js i = weight B i js

  abbrev pub Small : List ℕ → Type 0
  Small is = All (λ i. i < 256) is

module _ (B : Backend) (L : ScalarLaws B) where
  open B use {Scalar, add as ◌⊕◌, mul as ◌⊗◌, sub as ◌⊖◌}

  infixl 65 ◌⊕◌ ◌⊖◌
  infixl 70 ◌⊗◌
  abbrev Quotient : (f q : Scalar → Scalar) (y : ℕ) → Type 0
  Quotient f q y = (x : Scalar) → f x ≡ f (small_scalar B y) ⊕ (x ⊖ small_scalar B y) ⊗ q x

  ==_false : {i j : ℕ} → i ≢ j → (i == j) ≡ false
  ==_false h = ground arith

  -- With the value `v = c + d q` at a point, `e = - d`, and `e w = p u` for the weights.
  term_eq :
      (v c d e q w p u rest other sum : Scalar)
      → v ≡ c ⊕ d ⊗ q
      → d ⊕ e ≡ zero_scalar B
      → e ⊗ w ≡ p ⊗ u
      → rest ⊕ p ⊗ other ≡ c ⊗ sum
      → (v ⊗ w ⊕ rest) ⊕ p ⊗ (q ⊗ u ⊕ other) ≡ c ⊗ (one_scalar B ⊗ w ⊕ sum)
  term_eq v c d e q w p u rest other sum hv hd hw hr =
      ap (λ z. (z ⊗ w ⊕ rest) ⊕ p ⊗ (q ⊗ u ⊕ other)) hv
      ∙ spread
      ∙ ap₂ (λ y z. (c ⊗ w ⊕ q ⊗ (d ⊗ w ⊕ y)) ⊕ z) (sym hw) hr
      ∙ ap (λ y. (c ⊗ w ⊕ q ⊗ y) ⊕ c ⊗ sum) vanish
      ∙ ap (λ y. (c ⊗ w ⊕ y) ⊕ c ⊗ sum) (mul-zero B L q)
      ∙ ap (λ y. y ⊕ c ⊗ sum) (L.add-zero (c ⊗ w))
      ∙ sym (L.mul-add c w sum)
      ∙ ap (λ y. c ⊗ (y ⊕ sum)) (sym (one-mul B L w))
    where
      spread :
          ((c ⊕ d ⊗ q) ⊗ w ⊕ rest) ⊕ p ⊗ (q ⊗ u ⊕ other)
          ≡ (c ⊗ w ⊕ q ⊗ (d ⊗ w ⊕ p ⊗ u)) ⊕ (rest ⊕ p ⊗ other)
      spread = simp (ring, L)

      vanish : d ⊗ w ⊕ e ⊗ w ≡ zero_scalar B
      vanish = sym (add-mul B L d e w) ∙ ap (λ z. z ⊗ w) hd ∙ zero-mul B L w

  -- Where `y` is none of the points `is`, the sum over a polynomial leads to that of its quotient.
  others_eq :
      (f q : Scalar → Scalar) (y : ℕ) (js is : List ℕ)
      → Quotient f q y
      → y < 256
      → Small B js
      → Small B is
      → All (λ i. y ≢ i) is
      → combination B (among B (y ∷ js)) f is ⊕ small_scalar B y ⊗ combination B (among B js) q is
        ≡ f (small_scalar B y) ⊗ combination B (among B (y ∷ js)) (λ _. one_scalar B) is
  unfolding combination
  others_eq f q y js [] h hy hj hi apart = zero-add B L _ ∙ mul-zero B L _ ∙ sym (mul-zero B L _)
  others_eq f q y js (i ∷ is) h hy hj (hi, his) (apart, aparts) =
      term_eq (f (small_scalar B i)) (f (small_scalar B y)) (small_scalar B i ⊖ small_scalar B y)
        (small_scalar B y ⊖ small_scalar B i) (q (small_scalar B i)) (weight B i (y ∷ js))
        (small_scalar B y) (weight B i js) _ _ _ (h (small_scalar B i))
        (sub-add-sub B L (small_scalar B i) (small_scalar B y))
        (weight-cons B L i y js hi hy hj (==_false apart))
        (others_eq f q y js is h hy hj his aparts)

  head_eq :
      (v w rest x sum : Scalar)
      → rest ⊕ x ≡ v ⊗ sum
      → (v ⊗ w ⊕ rest) ⊕ x ≡ v ⊗ (one_scalar B ⊗ w ⊕ sum)
  head_eq v w rest x sum h =
      L.add_assoc (v ⊗ w) rest x
      ∙ ap (λ z. v ⊗ w ⊕ z) h
      ∙ sym (L.mul-add v w sum)
      ∙ ap (λ z. v ⊗ (z ⊕ sum)) (sym (one-mul B L w))

  abbrev total : List ℕ → (Scalar → Scalar) → Scalar
  total js f = combination B (among B js) f js

  -- The sum over all points, the first of which is `y`.
  total_eq :
      (f q : Scalar → Scalar) (y : ℕ) (js : List ℕ)
      → Quotient f q y
      → Small B (y ∷ js)
      → All (λ i. y ≢ i) js
      → total (y ∷ js) f ⊕ small_scalar B y ⊗ total js q
        ≡ f (small_scalar B y) ⊗ total (y ∷ js) (λ _. one_scalar B)
  unfolding combination
  total_eq f q y js h (hy, hj) apart =
      head_eq (f (small_scalar B y)) (weight B y (y ∷ js)) _ _ _
        (others_eq f q y js js h hy hj hj apart)

  total-swap :
      (f : Scalar → Scalar) (y z : ℕ) (js : List ℕ) → total (z ∷ y ∷ js) f ≡ total (y ∷ z ∷ js) f
  unfolding combination
  total-swap f y z js =
      ap (λ w. combination B w f (z ∷ y ∷ js)) (fun_ext (λ i. weight-swap B L i z y js))
      ∙ add_left_comm B L _ _ _

  -- `S = 1` from the equations at two points `p = d + r` and `r` that are apart.
  one_of_two :
      (t s d p r : Scalar)
      → d ⊕ r ≡ p
      → d ≢ zero_scalar B
      → t ⊕ p ⊗ one_scalar B ≡ p ⊗ s
      → t ⊕ r ⊗ one_scalar B ≡ r ⊗ s
      → s ≡ one_scalar B
  one_of_two t s d p r sum apart hp hr = mul_left_cancel B L d s (one_scalar B) apart (
      add_right_cancel B L (d ⊗ s) (d ⊗ one_scalar B) (r ⊗ s) (
        sym (add-mul B L d r s)
        ∙ ap (λ z. z ⊗ s) sum
        ∙ sym hp
        ∙ ap (λ z. t ⊕ z ⊗ one_scalar B) (sym sum)
        ∙ gather
        ∙ ap (λ z. d ⊗ one_scalar B ⊕ z) hr))
    where
      gather : t ⊕ (d ⊕ r) ⊗ one_scalar B ≡ d ⊗ one_scalar B ⊕ (t ⊕ r ⊗ one_scalar B)
      gather = simp (ring, L)

  over_itself : (y : ℕ) → Quotient (λ x. x) (λ _. one_scalar B) y
  over_itself y x =
      let p = small_scalar B y in
      sym (L.sub-add x p) ∙ L.add_comm (x ⊖ p) p ∙ ap (λ z. p ⊕ z) (sym (L.mul-one (x ⊖ p)))

  single_weight : (y : ℕ) → y < 256 → weight B y (y ∷ []) ≡ one_scalar B
  unfolding numerator denominator
  single_weight y h =
      let own = (==_iff y y).1 refl in
      sym (one-mul B L _) ∙ rw own at (denominator-weight B L y (y ∷ []) h (h, tt))

  -- The weights of all points sum up to 1.
  total-one :
      (y : ℕ) (js : List ℕ)
      → Small B (y ∷ js)
      → Distinct (y ∷ js)
      → total (y ∷ js) (λ _. one_scalar B) ≡ one_scalar B
  unfolding combination
  total-one y [] (hy, _) distinct =
      L.add-zero _ ∙ one-mul B L (weight B y (y ∷ [])) ∙ single_weight y hy
  total-one y (z ∷ js) (hy, (hz, hj)) ((apart, aparts), (later, distinct)) =
      let at_y =
        total_eq (λ x. x) (λ _. one_scalar B) y (z ∷ js) (over_itself y) (hy, (hz, hj))
          (apart, aparts) in
      let at_z =
        total_eq (λ x. x) (λ _. one_scalar B) z (y ∷ js) (over_itself z) (hz, (hy, hj))
          ((λ e. apart (sym e)), later) in
      one_of_two (total (y ∷ z ∷ js) (λ x. x)) (total (y ∷ z ∷ js) (λ _. one_scalar B))
        (small_scalar B y ⊖ small_scalar B z) (small_scalar B y) (small_scalar B z) (L.sub-add _ _)
        (Field.apart B L z y hz hy apart) (rw (total-one z js (hz, hj) (later, distinct)) at at_y)
        (rw
          (
            total-one y js (hy, hj) (aparts, distinct),
            total-swap (λ x. x) y z js,
            total-swap (λ _. one_scalar B) y z js,
          )
          at at_z)

  at_zero : (v c p q : Scalar) → v ≡ c ⊕ (zero_scalar B ⊖ p) ⊗ q → v ⊕ p ⊗ q ≡ c
  at_zero v c p q h =
      ap (λ z. z ⊕ p ⊗ q) h
      ∙ L.add_assoc c ((zero_scalar B ⊖ p) ⊗ q) (p ⊗ q)
      ∙ ap (λ z. c ⊕ z)
          (sym (add-mul B L (zero_scalar B ⊖ p) p q)
            ∙ ap (λ z. z ⊗ q) (L.sub-add (zero_scalar B) p)
            ∙ zero-mul B L q)
      ∙ L.add-zero c

  -- A polynomial of a degree below the number of distinct points is found again at 0.
  pub total-IsPolynomial :
      (js : List ℕ) (f : Scalar → Scalar)
      → IsPolynomial B (length js) f
      → Small B js
      → Distinct js
      → combination B (among B js) f js ≡ f (zero_scalar B)
  unfolding combination
  total-IsPolynomial [] f h small distinct = sym (h (zero_scalar B))
  total-IsPolynomial (y ∷ js) f h (hy, hj) (apart, distinct) =
      let p = small_scalar B y in
      let (q, smaller, quotient) = h p in
      add_right_cancel B L (total (y ∷ js) f) (f (zero_scalar B)) (p ⊗ q (zero_scalar B)) (
        ap (λ z. total (y ∷ js) f ⊕ p ⊗ z) (sym (total-IsPolynomial js q smaller hj distinct))
        ∙ total_eq f q y js quotient (hy, hj) apart
        ∙ ap (λ z. f p ⊗ z) (total-one y js (hy, hj) (apart, distinct))
        ∙ L.mul-one (f p)
        ∙ sym (at_zero (f (zero_scalar B)) (f p) p (q (zero_scalar B)) (quotient (zero_scalar B))))
