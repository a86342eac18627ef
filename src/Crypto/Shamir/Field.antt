-- ===== src/Crypto/Shamir/Field.antt =====
-- The laws of the scalars that an interpolation needs, and what follows from them. `k256` documents
-- its scalars as the integers modulo the group order, which is a prime above 2 ^ 255.
use fortresswallet.Base.{
  ℕ, ◌<◌, ◌≡◌, ◌≢◌, sym, ap, ap₂, ◌∙◌, none, some, inl, inr, Option-cases, arith,
}
use fortresswallet.Crypto.{Backend}

-- A commutative ring in which all but 0 have an inverse, and in which small numbers stay apart.
pub record ScalarLaws (B : Backend) : Type 0 where
  pub add_comm : (a b : B.Scalar) → B.add a b ≡ B.add b a
  pub add_assoc : (a b c : B.Scalar) → B.add (B.add a b) c ≡ B.add a (B.add b c)
  pub add-zero : (a : B.Scalar) → B.add a (B.from_u64 0) ≡ a
  pub sub-add : (a b : B.Scalar) → B.add (B.sub a b) b ≡ a
  pub add-sub : (a b : B.Scalar) → B.sub (B.add a b) b ≡ a
  pub mul_comm : (a b : B.Scalar) → B.mul a b ≡ B.mul b a
  pub mul_assoc : (a b c : B.Scalar) → B.mul (B.mul a b) c ≡ B.mul a (B.mul b c)
  pub mul-one : (a : B.Scalar) → B.mul a (B.from_u64 1) ≡ a
  pub mul-add : (a b c : B.Scalar) → B.mul a (B.add b c) ≡ B.add (B.mul a b) (B.mul a c)
  pub mul-invert : (a b : B.Scalar) → B.invert a ≡ some b → B.mul a b ≡ B.from_u64 1
  pub invert-none : (a : B.Scalar) → B.invert a ≡ none → a ≡ B.from_u64 0
  pub from_u64_injective : (i j : ℕ) → i < 256 → j < 256 → B.from_u64 i ≡ B.from_u64 j → i ≡ j

module _ (B : Backend) where
  abbrev pub zero_scalar : B.Scalar
  zero_scalar = B.from_u64 0

  abbrev pub one_scalar : B.Scalar
  one_scalar = B.from_u64 1

module _ (B : Backend) (L : ScalarLaws B) where
  open B use {Scalar, add as ◌⊕◌, mul as ◌⊗◌, sub as ◌⊖◌}

  infixl 65 ◌⊕◌ ◌⊖◌
  infixl 70 ◌⊗◌
  pub scalar_add_comm : (a b : Scalar) → a ⊕ b ≡ b ⊕ a
  scalar_add_comm a b = L.add_comm a b

  pub scalar_add_assoc : (a b c : Scalar) → (a ⊕ b) ⊕ c ≡ a ⊕ (b ⊕ c)
  scalar_add_assoc a b c = L.add_assoc a b c

  pub scalar_mul_comm : (a b : Scalar) → a ⊗ b ≡ b ⊗ a
  scalar_mul_comm a b = L.mul_comm a b

  pub scalar_mul_assoc : (a b c : Scalar) → (a ⊗ b) ⊗ c ≡ a ⊗ (b ⊗ c)
  scalar_mul_assoc a b c = L.mul_assoc a b c

  pub scalar_mul-add : (a b c : Scalar) → a ⊗ (b ⊕ c) ≡ a ⊗ b ⊕ a ⊗ c
  scalar_mul-add a b c = L.mul-add a b c

  pub add_left_comm : (a b c : Scalar) → a ⊕ (b ⊕ c) ≡ b ⊕ (a ⊕ c)
  add_left_comm a b c =
      sym (L.add_assoc a b c) ∙ ap (λ x. x ⊕ c) (L.add_comm a b) ∙ L.add_assoc b a c

  pub mul_left_comm : (a b c : Scalar) → a ⊗ (b ⊗ c) ≡ b ⊗ (a ⊗ c)
  mul_left_comm a b c =
      sym (L.mul_assoc a b c) ∙ ap (λ x. x ⊗ c) (L.mul_comm a b) ∙ L.mul_assoc b a c

  pub add-mul : (a b c : Scalar) → (a ⊕ b) ⊗ c ≡ a ⊗ c ⊕ b ⊗ c
  add-mul a b c = L.mul_comm (a ⊕ b) c ∙ L.mul-add c a b ∙ ap₂ ◌⊕◌ (L.mul_comm c a) (L.mul_comm c b)

  pub add_right_cancel : (a b c : Scalar) → a ⊕ c ≡ b ⊕ c → a ≡ b
  add_right_cancel a b c h = sym (L.add-sub a c) ∙ ap (λ x. x ⊖ c) h ∙ L.add-sub b c

  pub zero-add : (a : Scalar) → zero_scalar B ⊕ a ≡ a
  zero-add a = L.add_comm (zero_scalar B) a ∙ L.add-zero a

  pub one-mul : (a : Scalar) → one_scalar B ⊗ a ≡ a
  one-mul a = L.mul_comm (one_scalar B) a ∙ L.mul-one a

  pub zero-mul : (a : Scalar) → zero_scalar B ⊗ a ≡ zero_scalar B
  zero-mul a = add_right_cancel (zero_scalar B ⊗ a) (zero_scalar B) (zero_scalar B ⊗ a) (
      sym (add-mul (zero_scalar B) (zero_scalar B) a)
      ∙ ap (λ x. x ⊗ a) (L.add-zero (zero_scalar B))
      ∙ sym (zero-add (zero_scalar B ⊗ a)))

  pub mul-zero : (a : Scalar) → a ⊗ zero_scalar B ≡ zero_scalar B
  mul-zero a = L.mul_comm a (zero_scalar B) ∙ zero-mul a

  -- A factor other than 0 cancels.
  pub mul_left_cancel : (a b c : Scalar) → a ≢ zero_scalar B → a ⊗ b ≡ a ⊗ c → b ≡ c
  mul_left_cancel a b c h e = elim (Option-cases (B.invert a)) [
    | inl zero ↦ absurd (h (L.invert-none a zero))
    | inr (inverse, e1) ↦
        let unit : inverse ⊗ a ≡ one_scalar B = L.mul_comm inverse a ∙ L.mul-invert a inverse e1 in
        let back : (x : Scalar) → inverse ⊗ (a ⊗ x) ≡ x =
          λ x. sym (L.mul_assoc inverse a x) ∙ ap (λ u. u ⊗ x) unit ∙ one-mul x in
        sym (back b) ∙ ap (λ x. inverse ⊗ x) e ∙ back c
  ]

  pub mul-ne-zero : (a b : Scalar) → a ≢ zero_scalar B → b ≢ zero_scalar B → a ⊗ b ≢ zero_scalar B
  mul-ne-zero a b ha hb e = hb (mul_left_cancel a b (zero_scalar B) ha (e ∙ sym (mul-zero a)))

  pub sub_self : (a : Scalar) → a ⊖ a ≡ zero_scalar B
  sub_self a = ap (λ x. x ⊖ a) (sym (zero-add a)) ∙ L.add-sub (zero_scalar B) a

  pub eq_of_sub-eq-zero : (a b : Scalar) → a ⊖ b ≡ zero_scalar B → a ≡ b
  eq_of_sub-eq-zero a b h = sym (L.sub-add a b) ∙ ap (λ x. x ⊕ b) h ∙ zero-add b

  -- The difference of two small numbers that are apart.
  pub apart : (i j : ℕ) → i < 256 → j < 256 → j ≢ i → B.from_u64 j ⊖ B.from_u64 i ≢ zero_scalar B
  apart i j hi hj h e = h (L.from_u64_injective j i hj hi (eq_of_sub-eq-zero _ _ e))

  -- The two differences of a pair cancel.
  pub sub-add-sub : (a b : Scalar) → (a ⊖ b) ⊕ (b ⊖ a) ≡ zero_scalar B
  sub-add-sub a b = add_right_cancel ((a ⊖ b) ⊕ (b ⊖ a)) (zero_scalar B) a (
      L.add_assoc (a ⊖ b) (b ⊖ a) a
      ∙ ap (λ x. (a ⊖ b) ⊕ x) (L.sub-add b a)
      ∙ L.sub-add a b
      ∙ sym (zero-add a))

  pub one-ne-zero : one_scalar B ≢ zero_scalar B
  one-ne-zero e = absurd (omega (arith, L.from_u64_injective 1 0 (omega arith) (omega arith) e))

-- These sort both sides of an equation of sums of products; the laws' record is listed beside them.
pub ruleset ring = (
  scalar_add_comm, scalar_add_assoc, add_left_comm, scalar_mul_comm, scalar_mul_assoc,
  mul_left_comm, scalar_mul-add, add-mul,
)
