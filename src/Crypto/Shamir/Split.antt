-- ===== src/Crypto/Shamir/Split.antt =====
-- The shares that a split makes, and which of them may be put together again.
use fortresswallet.Base.{
  ℕ, zero, suc, ◌+◌, ◌-◌, ◌≤◌, ◌<◌, ◌≡◌, ◌≢◌, refl, sym, ap, ◌∙◌, subst, List, [], ◌∷◌, length, All,
  ok, inl, inr, arith,
}
use mathlib.Core.List.{Memᴰ}
use mathlib.Core.List.Memᴰ
use fortresswallet.Crypto.{Backend, PrivateKey, to_bytes_dangerous}
use fortresswallet.Crypto.Shamir.{Share, bytes_to_scalar, draws, share_at, shares_from, split}
use fortresswallet.Crypto.Shamir.Checks.{Quorum, Distinct, indices_of}

-- The indices `i`, `i + 1`, … of `count` shares.
abbrev pub indices_from : ℕ → ℕ → List ℕ
indices_from i zero = []
indices_from i (suc count) = i ∷ indices_from (i + 1) count

-- Every member of a list has what all of its elements have.
All-Memᴰ {ℓ κ} : {A : Type ℓ} (P : A → Type κ) (x : A) (xs : List A) → Memᴰ x xs → All P xs → P x
All-Memᴰ P x [] m h = absurd (Memᴰ.not-nil m)
All-Memᴰ P x (y ∷ ys) m h = elim (Memᴰ.cases_cons m) [
  | inl same ↦ subst P (sym same) h.0
  | inr later ↦ All-Memᴰ P x ys later h.1
]

-- What all shares have, those that are picked of them have.
pub picked-All {ℓ κ} :
    {A : Type ℓ} (P : A → Type κ) (xs picked : List A)
    → All P xs
    → All (λ x. Memᴰ x xs) picked
    → All P picked
picked-All P xs [] h m = tt
picked-All P xs (x ∷ picked) h (here, later) =
    (All-Memᴰ P x xs here h, picked-All P xs picked h later)

module _ (B : Backend) where
  pub length-draws : (draw : ℕ → B.Scalar) (i count : ℕ) → length (draws B draw i count) ≡ count
  unfolding draws
  length-draws draw i zero = refl
  length-draws draw i (suc count) = ap suc (length-draws draw (i + 1) count)

  pub indices_of-shares_from :
      (secret : B.Scalar) (coeffs : List B.Scalar) (threshold i count : ℕ)
      → indices_of (shares_from B secret coeffs threshold i count) ≡ indices_from i count
  unfolding shares_from share_at
  indices_of-shares_from secret coeffs threshold i zero = refl
  indices_of-shares_from secret coeffs threshold i (suc count) =
      ap (λ is. i ∷ is) (indices_of-shares_from secret coeffs threshold (i + 1) count)

  shares_from-IsShare :
      (secret : B.Scalar) (coeffs : List B.Scalar) (threshold i count : ℕ)
      → 0 < i
      → All
          (λ s. (s.threshold ≡ threshold) × (s.index ≢ 0))
          (shares_from B secret coeffs threshold i count)
  unfolding shares_from share_at
  shares_from-IsShare secret coeffs threshold i zero h = tt
  shares_from-IsShare secret coeffs threshold i (suc count) h =
      ((refl, omega arith), shares_from-IsShare secret coeffs threshold (i + 1) count (omega arith))

  pub split_when :
      (key : PrivateKey B) (threshold n : ℕ) (draw : ℕ → B.Scalar)
      → 2 ≤ threshold
      → threshold ≤ n
      → split B key threshold n draw
        ≡ ok (
            shares_from B
              (bytes_to_scalar B (to_bytes_dangerous B key))
              (draws B draw 1 (threshold - 1))
              threshold
              1
              n)
  unfolding split
  split_when key threshold n draw h k = ground arith

  pub split_bounds :
      (key : PrivateKey B) (threshold n : ℕ) (draw : ℕ → B.Scalar) (shares : List Share)
      → split B key threshold n draw ≡ ok shares
      → (2 ≤ threshold)
        × (threshold ≤ n)
        × (shares
            ≡ shares_from B
                (bytes_to_scalar B (to_bytes_dangerous B key))
                (draws B draw 1 (threshold - 1))
                threshold
                1
                n)
  unfolding split
  split_bounds key threshold n draw shares h = ground arith

  unzipped :
      (threshold : ℕ) (picked : List Share)
      → All (λ s. (s.threshold ≡ threshold) × (s.index ≢ 0)) picked
      → All (λ s. s.threshold ≡ threshold) picked × All (λ i. i ≢ 0) (indices_of picked)
  unzipped threshold [] h = (tt, tt)
  unzipped threshold (s ∷ picked) ((t, z), later) =
      let (ts, zs) = unzipped threshold picked later in ((t, ts), (z, zs))

  -- A split that succeeds makes `n` shares with the indices 1 to `n`, and whichever `threshold` of
  -- them are picked, in any order, with distinct indices, they pass every test of a reconstruction.
  pub split-Quorum :
      (key : PrivateKey B) (threshold n : ℕ) (draw : ℕ → B.Scalar) (shares picked : List Share)
      → split B key threshold n draw ≡ ok shares
      → All (λ s. Memᴰ s shares) picked
      → length picked ≡ threshold
      → Distinct (indices_of picked)
      → (indices_of shares ≡ indices_from 1 n) × Quorum picked
  split-Quorum key threshold n draw shares picked h members count distinct =
      let (big, _, made) = split_bounds key threshold n draw shares h in
      let secret = bytes_to_scalar B (to_bytes_dangerous B key) in
      let coeffs = draws B draw 1 (threshold - 1) in
      let every =
        subst (All (λ s. (s.threshold ≡ threshold) × (s.index ≢ 0))) (sym made)
          (shares_from-IsShare secret coeffs threshold 1 n (omega arith)) in
      let (thresholds, nonzero) =
        unzipped threshold picked (
          picked-All (λ s. (s.threshold ≡ threshold) × (s.index ≢ 0)) shares picked every
            members) in
      (
        ap indices_of made ∙ indices_of-shares_from secret coeffs threshold 1 n,
        record {
          nonempty = omega arith;
          thresholds =
              subst (λ t. All (λ (s : Share). s.threshold ≡ t) picked) (sym count) thresholds;
          nonzero = nonzero;
          distinct = distinct;
        },
      )
