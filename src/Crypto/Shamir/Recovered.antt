-- ===== src/Crypto/Shamir/Recovered.antt =====
-- Any quorum of the shares that a split made gives the key back.
use fortresswallet.Base.{
  ℕ, zero, suc, ◌+◌, ◌-◌, ◌≤◌, ◌<◌, ◌≡◌, refl, sym, ap, ◌∙◌, subst, some, List, [], ◌∷◌, length,
  All, ok, arith,
}
use mathlib.Core.List.{Memᴰ}
use fortresswallet.Crypto.{Backend, EcdsaLaws, PrivateKey, public_key, to_bytes_dangerous}
use fortresswallet.Crypto.Shamir.{
  Share, small_scalar, bytes_to_scalar, draws, share_at, shares_from, split, interpolate,
  reconstruct, reconstruct_and_verify,
}
use fortresswallet.Crypto.Shamir.Checks.{
  Distinct, indices_of, length-indices_of, reconstruct-interpolated,
}
use fortresswallet.Crypto.Shamir.Split.{length-draws, picked-All, split_bounds, split-Quorum}
use fortresswallet.Crypto.Shamir.Field.{ScalarLaws, zero_scalar, zero-add, zero-mul}
use fortresswallet.Crypto.Shamir.Polynomial.{
  IsPolynomial, value_at, eval_loop-value_at, value_at-IsPolynomial,
}
use fortresswallet.Crypto.Shamir.Weights.{weight, lagrange_coefficient-weight}
use fortresswallet.Crypto.Shamir.Interpolation.{combination, among, Small, total-IsPolynomial}

-- The bytes of scalars and keys as `k256` documents them: a scalar is read back from its bytes, and
-- a key is the bytes of a scalar other than 0.
pub record KeyLaws (B : Backend) : Type 0 where
  pub reduce_bytes-to_bytes : (s : B.Scalar) → B.reduce_bytes (B.to_bytes s) ≡ s
  pub to_bytes-key :
      (key : B.SigningKey) → B.to_bytes (B.reduce_bytes (B.key_to_bytes key)) ≡ B.key_to_bytes key
  pub key_from_bytes-key : (key : B.SigningKey) → B.key_from_bytes (B.key_to_bytes key) ≡ some key

module _ (B : Backend) where
  -- The share lies on the polynomial with these coefficients.
  abbrev pub IsPoint : List B.Scalar → ℕ → Share → Type 0
  IsPoint coeffs n s =
      (B.reduce_bytes s.value ≡ value_at B coeffs (small_scalar B s.index)) × (s.index ≤ n)

module _ (B : Backend) (L : ScalarLaws B) (K : KeyLaws B) where
  open B use {Scalar, add as ◌⊕◌, mul as ◌⊗◌}

  infixl 65 ◌⊕◌
  infixl 70 ◌⊗◌
  share_at-IsPoint :
      (secret : Scalar) (coeffs : List Scalar) (threshold i n : ℕ)
      → i ≤ n
      → IsPoint B (secret ∷ coeffs) n (share_at B secret coeffs threshold i)
  unfolding share_at value_at
  share_at-IsPoint secret coeffs threshold i n h =
      (K.reduce_bytes-to_bytes _ ∙ eval_loop-value_at B L _ secret _ coeffs, h)

  shares_from-IsPoint :
      (secret : Scalar) (coeffs : List Scalar) (threshold i count n : ℕ)
      → i + count ≤ n + 1
      → All (IsPoint B (secret ∷ coeffs) n) (shares_from B secret coeffs threshold i count)
  unfolding shares_from
  shares_from-IsPoint secret coeffs threshold i zero n h = tt
  shares_from-IsPoint secret coeffs threshold i (suc count) n h = (
    share_at-IsPoint secret coeffs threshold i n (omega arith),
    shares_from-IsPoint secret coeffs threshold (i + 1) count n (omega arith),
  )

  -- On points of a polynomial, the loop of `reconstruct` never panics.
  interpolate-combination :
      (coeffs : List Scalar) (n : ℕ) (is : List ℕ) (acc : Scalar) (shares : List Share)
      → n < 256
      → Small B is
      → All (IsPoint B coeffs n) shares
      → interpolate B is acc shares
        ≡ some (acc ⊕ combination B (among B is) (value_at B coeffs) (indices_of shares))
  unfolding interpolate combination
  interpolate-combination coeffs n is acc [] hn small h = ap some (sym (L.add-zero acc))
  interpolate-combination coeffs n is acc (s ∷ shares) hn small ((point, le), later) =
      rw (lagrange_coefficient-weight B L s.index is (omega arith) small, point, interpolate)
        (interpolate-combination coeffs n is
            (acc ⊕ value_at B coeffs (small_scalar B s.index) ⊗ weight B s.index is) shares hn small
            later
          ∙ ap some (L.add_assoc acc _ _))

  Small-points :
      (coeffs : List Scalar) (n : ℕ) (shares : List Share)
      → n < 256
      → All (IsPoint B coeffs n) shares
      → Small B (indices_of shares)
  Small-points coeffs n [] hn h = tt
  Small-points coeffs n (s ∷ shares) hn ((_, le), later) =
      (omega arith, Small-points coeffs n shares hn later)

  -- As many points of a polynomial as it has coefficients give the constant one.
  pub interpolate-IsPoint :
      (secret : Scalar) (coeffs : List Scalar) (n : ℕ) (shares : List Share)
      → n < 256
      → All (IsPoint B (secret ∷ coeffs) n) shares
      → Distinct (indices_of shares)
      → length shares ≡ suc (length coeffs)
      → interpolate B (indices_of shares) (small_scalar B 0) shares ≡ some secret
  unfolding value_at
  interpolate-IsPoint secret coeffs n shares hn points distinct count =
      let small = Small-points (secret ∷ coeffs) n shares hn points in
      let degree = length-indices_of shares ∙ count in
      interpolate-combination (secret ∷ coeffs) n (indices_of shares) (zero_scalar B) shares hn
        small points
      ∙ ap some (
          zero-add B L _
          ∙ total-IsPolynomial B L (indices_of shares) (value_at B (secret ∷ coeffs))
              (subst (λ m. IsPolynomial B m (value_at B (secret ∷ coeffs))) (sym degree)
                (value_at-IsPolynomial B L (secret ∷ coeffs)))
              small distinct
          ∙ ap (λ z. secret ⊕ z) (zero-mul B L _)
          ∙ L.add-zero secret)

  -- Whichever `threshold` of the shares of a split are picked, in any order, with distinct indices,
  -- they reconstruct the very key that was split, for up to 255 shares.
  pub split-reconstruct :
      (key : PrivateKey B) (threshold n : ℕ) (draw : ℕ → Scalar) (shares picked : List Share)
      → split B key threshold n draw ≡ ok shares
      → n < 256
      → All (λ s. Memᴰ s shares) picked
      → length picked ≡ threshold
      → Distinct (indices_of picked)
      → reconstruct B picked ≡ ok key
  split-reconstruct key threshold n draw shares picked h small members count distinct =
      let (big, _, made) = split_bounds B key threshold n draw shares h in
      let secret = bytes_to_scalar B (to_bytes_dangerous B key) in
      let coeffs = draws B draw 1 (threshold - 1) in
      let points =
        picked-All (IsPoint B (secret ∷ coeffs) n) shares picked
          (subst (All (IsPoint B (secret ∷ coeffs) n)) (sym made)
            (shares_from-IsPoint secret coeffs threshold 1 n n (omega arith)))
          members in
      let (_, quorum) =
        split-Quorum B key threshold n draw shares picked h members count distinct in
      reconstruct-interpolated B picked quorum
      ∙ rw
          (
            interpolate-IsPoint secret coeffs n picked small points distinct
                (omega (arith, length-draws B draw 1 (threshold - 1))),
            K.to_bytes-key key,
            K.key_from_bytes-key key,
          )
          refl

  -- The verified reconstruction accepts the key too.
  pub split-reconstruct_and_verify :
      (E : EcdsaLaws B) (key : PrivateKey B) (threshold n : ℕ) (draw : ℕ → Scalar)
      (shares picked : List Share)
      → split B key threshold n draw ≡ ok shares
      → n < 256
      → All (λ s. Memᴰ s shares) picked
      → length picked ≡ threshold
      → Distinct (indices_of picked)
      → reconstruct_and_verify B picked (public_key B key) ≡ ok key
  unfolding reconstruct_and_verify
  split-reconstruct_and_verify E key threshold n draw shares picked h small members count distinct =
      rw
        (
          split-reconstruct key threshold n draw shares picked h small members count distinct,
          (E.same_key_iff (public_key B key) (public_key B key)).1 refl,
        )
        refl
