-- ===== src/Crypto/Shamir/Secrecy.antt =====
-- Shares below the threshold say nothing about the key.
use fortresswallet.Base.{
  ℕ, zero, suc, ◌+◌, ◌-◌, ◌≤◌, ◌<◌, ◌≡◌, refl, sym, ap, ◌∙◌, subst, List, [], ◌∷◌, ◌++◌, length,
  length-append, length-replicate, replicate, All, ok, arith,
}
use mathlib.Core.List.{Memᴰ}
use mathlib.Core.List.Memᴰ.{head, tail}
use native.Mathlib.Decide.{dec_le}
use fortresswallet.Crypto.{Backend, PrivateKey, to_bytes_dangerous}
use fortresswallet.Crypto.Shamir.{
  Share, small_scalar, bytes_to_scalar, draws, share_at, shares_from, split,
}
use fortresswallet.Crypto.Shamir.Checks.{Distinct, indices_of, length-indices_of}
use fortresswallet.Crypto.Shamir.Split.{picked-All, split_bounds, split_when}
use fortresswallet.Crypto.Shamir.Field.{ScalarLaws, zero_scalar}
use fortresswallet.Crypto.Shamir.Polynomial.{value_at, eval_loop-value_at, value_at-append_zeros}
use fortresswallet.Crypto.Shamir.Weights.{ratio, mul-ratio}
use fortresswallet.Crypto.Shamir.Fitting.{fit, draw_list, draws-draw_list, length-fit, value_at-fit}

module _ (B : Backend) where
  open B use {Scalar}

  -- The share with its index, of the split with these coefficients.
  abbrev IsShareOf : Scalar → List Scalar → ℕ → ℕ → Share → Type 0
  IsShareOf secret coeffs threshold n s =
      (0 < s.index) × (s.index ≤ n) × (s ≡ share_at B secret coeffs threshold s.index)

  shares_from-IsShareOf :
      (secret : Scalar) (coeffs : List Scalar) (threshold i count n : ℕ)
      → 0 < i
      → i + count ≤ n + 1
      → All (IsShareOf secret coeffs threshold n) (shares_from B secret coeffs threshold i count)
  unfolding shares_from share_at
  shares_from-IsShareOf secret coeffs threshold i zero n pos h = tt
  shares_from-IsShareOf secret coeffs threshold i (suc count) n pos h = (
    (pos, omega arith, refl),
    shares_from-IsShareOf secret coeffs threshold (i + 1) count n (omega arith) (omega arith),
  )

  share_at-Memᴰ :
      (secret : Scalar) (coeffs : List Scalar) (threshold i count k : ℕ)
      → i ≤ k
      → k < i + count
      → Memᴰ (share_at B secret coeffs threshold k) (shares_from B secret coeffs threshold i count)
  unfolding shares_from
  share_at-Memᴰ secret coeffs threshold i zero k low high = absurd (omega arith)
  share_at-Memᴰ secret coeffs threshold i (suc count) k low high = elim (dec_le k i) [
    | yes le ↦ head (ap (share_at B secret coeffs threshold) (omega arith))
    | no gt ↦
        tail (share_at-Memᴰ secret coeffs threshold (i + 1) count k (omega arith) (omega arith))
  ]

module _ (B : Backend) (L : ScalarLaws B) where
  open B use {Scalar, add as ◌⊕◌, mul as ◌⊗◌, sub as ◌⊖◌}

  infixl 65 ◌⊕◌ ◌⊖◌
  infixl 70 ◌⊗◌
  -- Two polynomials that agree at an index make the same share there.
  share_at_agree :
      (a b : Scalar) (cs ds : List Scalar) (threshold i : ℕ)
      → a ⊕ small_scalar B i ⊗ value_at B cs (small_scalar B i)
        ≡ b ⊕ small_scalar B i ⊗ value_at B ds (small_scalar B i)
      → share_at B a cs threshold i ≡ share_at B b ds threshold i
  unfolding share_at
  share_at_agree a b cs ds threshold i h =
      let x = small_scalar B i in
      ap (λ y. record { index = i; threshold = threshold; value = B.to_bytes y })
        (eval_loop-value_at B L x a x cs ∙ h ∙ sym (eval_loop-value_at B L x b x ds))

  -- The values that lead from another secret to the same shares.
  wanted : Scalar → Scalar → List Scalar → ℕ → Scalar
  wanted other secret coeffs j =
      ratio B ((secret ⊕ small_scalar B j ⊗ value_at B coeffs (small_scalar B j)) ⊖ other)
        (small_scalar B j)

  wanted_eq :
      (other secret : Scalar) (coeffs : List Scalar) (j : ℕ)
      → 0 < j
      → j < 256
      → other ⊕ small_scalar B j ⊗ wanted other secret coeffs j
        ≡ secret ⊕ small_scalar B j ⊗ value_at B coeffs (small_scalar B j)
  unfolding wanted
  wanted_eq other secret coeffs j pos small =
      let x = small_scalar B j in
      ap (λ z. other ⊕ z)
        (mul-ratio B L ((secret ⊕ x ⊗ value_at B coeffs x) ⊖ other) x
          (λ e. absurd (omega (arith, L.from_u64_injective j 0 small (omega arith) e))))
      ∙ L.add_comm other _
      ∙ L.sub-add _ other

  padded : ℕ → List Scalar → List Scalar
  padded count coeffs = coeffs ++ replicate (count - length coeffs) (zero_scalar B)

  length-padded :
      (count : ℕ) (coeffs : List Scalar)
      → length coeffs ≤ count
      → length (padded count coeffs) ≡ count
  unfolding padded
  length-padded count coeffs h = omega (
    arith,
    length-append coeffs (replicate (count - length coeffs) (zero_scalar B)),
    length-replicate (count - length coeffs) (zero_scalar B),
  )

  known-Memᴰ :
      (other secret : Scalar) (coeffs base : List Scalar) (threshold n : ℕ) (known : List Share)
      → n < 256
      → All (IsShareOf B secret coeffs threshold n) known
      → All
          (λ i. value_at B base (small_scalar B i) ≡ wanted other secret coeffs i)
          (indices_of known)
      → All (λ s. Memᴰ s (shares_from B other (padded (threshold - 1) base) threshold 1 n)) known
  unfolding padded
  known-Memᴰ other secret coeffs base threshold n [] hn shares fits = tt
  known-Memᴰ other secret coeffs base threshold n (s ∷ known) hn ((pos, le, made), shares)
        (fits, later) =
      let x = small_scalar B s.index in
      let same =
        share_at_agree other secret (padded (threshold - 1) base) coeffs threshold s.index (
          ap (λ z. other ⊕ x ⊗ z) (value_at-append_zeros B L base _ x ∙ fits)
          ∙ wanted_eq other secret coeffs s.index pos (omega arith)) in
      (
        subst (λ k. Memᴰ k (shares_from B other (padded (threshold - 1) base) threshold 1 n))
            (same ∙ sym made)
            (share_at-Memᴰ B other (padded (threshold - 1) base) threshold 1 n s.index (omega arith)
              (omega arith)),
        known-Memᴰ other secret coeffs base threshold n known hn shares later,
      )

  Small-known :
      (secret : Scalar) (coeffs : List Scalar) (threshold n : ℕ) (known : List Share)
      → n < 256
      → All (IsShareOf B secret coeffs threshold n) known
      → All (λ i. i < 256) (indices_of known)
  Small-known secret coeffs threshold n [] hn shares = tt
  Small-known secret coeffs threshold n (s ∷ known) hn ((pos, le, made), shares) =
      (omega arith, Small-known secret coeffs threshold n known hn shares)

  -- Fewer shares than the threshold are consistent with every key: for any other key there are
  -- random coefficients with which its split holds the very same shares, under the same threshold
  -- and for the same number of parties.
  pub split-secrecy :
      (key other : PrivateKey B) (threshold n : ℕ) (draw : ℕ → Scalar) (shares known : List Share)
      → split B key threshold n draw ≡ ok shares
      → n < 256
      → All (λ s. Memᴰ s shares) known
      → length known < threshold
      → Distinct (indices_of known)
      → (draw' : ℕ → Scalar) × (shares' : List Share) × (split B other threshold n draw'
          ≡ ok shares')
        × All (λ s. Memᴰ s shares') known
  split-secrecy key other threshold n draw shares known h hn members few distinct =
      let (big, enough, made) = split_bounds B key threshold n draw shares h in
      let secret = bytes_to_scalar B (to_bytes_dangerous B key) in
      let other_secret = bytes_to_scalar B (to_bytes_dangerous B other) in
      let coeffs = draws B draw 1 (threshold - 1) in
      let facts =
        picked-All (IsShareOf B secret coeffs threshold n) shares known
          (subst (All (IsShareOf B secret coeffs threshold n)) (sym made)
            (shares_from-IsShareOf B secret coeffs threshold 1 n n (omega arith) (omega arith)))
          members in
      let base = fit B (indices_of known) (wanted other_secret secret coeffs) in
      let all = padded (threshold - 1) base in
      let size : length all ≡ threshold - 1 = length-padded (threshold - 1) base (
        omega (
          arith,
          length-fit B (indices_of known) (wanted other_secret secret coeffs),
          length-indices_of known,
        )) in
      let fits =
        value_at-fit B L (indices_of known) (wanted other_secret secret coeffs)
          (Small-known secret coeffs threshold n known hn facts) distinct in
      (
        draw_list B all 1,
        shares_from B other_secret all threshold 1 n,
        split_when B other threshold n (draw_list B all 1) big enough
            ∙ ap (λ cs. ok (shares_from B other_secret cs threshold 1 n))
                (ap (draws B (draw_list B all 1) 1) (sym size) ∙ draws-draw_list B all 1),
        known-Memᴰ other_secret secret coeffs base threshold n known hn facts fits,
      )
