-- ===== src/Wallet/Shares.antt =====
-- The shares of a split: the first has index 1, and no other has.
use fortresswallet.Base.{
  ℕ, zero, suc, ◌+◌, ◌≤◌, ◌<◌, ◌≡◌, ◌≢◌, refl, ◌∙◌, List, ◌∷◌, All, length, ok, arith,
}
use fortresswallet.Crypto.{Backend, PrivateKey}
use fortresswallet.Crypto.Shamir.{Share, share_at, shares_from, split}
use fortresswallet.Crypto.Shamir.Split.{split_bounds}

abbrev pub IsOther : Share → Type 0
IsOther share = (share.index ≢ 1) × (length share.value ≡ 32)

module _ (B : Backend) (widths : (x : B.Scalar) → length (B.to_bytes x) ≡ 32) where
  shares_from-IsOther :
      (secret : B.Scalar) (coeffs : List B.Scalar) (threshold i count : ℕ)
      → 1 < i
      → All IsOther (shares_from B secret coeffs threshold i count)
  unfolding shares_from share_at
  shares_from-IsOther secret coeffs threshold i zero h = tt
  shares_from-IsOther secret coeffs threshold i (suc count) h = (
    (omega (arith, h), widths _),
    shares_from-IsOther secret coeffs threshold (i + 1) count (omega (arith, h)),
  )

  shares_from-parts :
      (secret : B.Scalar) (coeffs : List B.Scalar) (threshold n : ℕ)
      → 1 ≤ n
      → (first : Share) × (others : List Share) × (shares_from B secret coeffs threshold 1 n
          ≡ first ∷ others)
        × (first.index ≡ 1)
        × (length first.value ≡ 32)
        × All IsOther others
  unfolding shares_from share_at
  shares_from-parts secret coeffs threshold zero h = absurd (omega (arith, h))
  shares_from-parts secret coeffs threshold (suc n) h =
      (_, _, refl, refl, widths _, shares_from-IsOther secret coeffs threshold 2 n (omega arith))

  pub split-parts :
      (key : PrivateKey B) (threshold n : ℕ) (draw : ℕ → B.Scalar) (shares : List Share)
      → split B key threshold n draw ≡ ok shares
      → (first : Share) × (others : List Share) × (shares ≡ first ∷ others)
        × (first.index ≡ 1)
        × (length first.value ≡ 32)
        × All IsOther others
  split-parts key threshold n draw shares h =
      let (low, high, made) = split_bounds B key threshold n draw shares h in
      let (first, others, parts, one, width, rest) =
        shares_from-parts _ _ threshold n (omega (arith, low, high)) in
      (first, others, made ∙ parts, one, width, rest)
