-- ===== src/Crypto/Shamir.antt =====
-- crates/wallet-crypto/src/shamir.rs: t-of-n sharing of a private key. The random coefficients
-- that `SecureRng` draws are the values of `draw`. `panic` is the `unwrap` on a failed inversion.
pub mod Checks
pub mod Split
pub mod Field
pub mod Polynomial
pub mod Weights
pub mod Interpolation
pub mod Recovered
pub mod Fitting
pub mod Secrecy
pub mod Tampered
use fortresswallet.Base.{
  ℕ, zero, suc, ◌+◌, ◌-◌, Bool, true, false, not, ◌||◌, Option, none, some, List, [], ◌∷◌, map,
  length, ltb, ◌==◌, if◌then◌else◌, Result, ok, err, panic, ◌>>=◌, ◌>>◌, fail_if, map_err, or_panic,
}
use fortresswallet.Crypto.{
  Backend, PrivateKey, PublicKey, public_key, to_bytes_dangerous, from_bytes_dangerous,
}

pub data ShamirError : Type 0 where
  threshold_too_small threshold_exceeds_parties duplicate_share_index wrong_share_count :
      ShamirError
  threshold_mismatch zero_index_reserved reconstruction_mismatch : ShamirError

pub record Share : Type 0 where
  pub index : ℕ
  pub threshold : ℕ
  pub value : List ℕ

-- `seen.insert(index)` answers whether the index was new.
unfoldable pub is_in : ℕ → List ℕ → Bool
is_in i [] = false
is_in i (j ∷ js) = i == j || is_in i js

-- The loop of `reconstruct` over the shares, with the indices seen so far.
unfoldable pub check_shares : ℕ → List ℕ → List Share → Result (Unit {0}) ShamirError
unfolding is_in
check_shares threshold seen [] = ok tt
check_shares threshold seen (s ∷ shares) =
    let rest = check_shares threshold (s.index ∷ seen) shares in
    do
      fail_if (not (s.threshold == threshold)) threshold_mismatch
      fail_if (s.index == 0) zero_index_reserved
      fail_if (is_in s.index seen) duplicate_share_index
      rest

module _ (B : Backend) where
  open B use {Scalar, add, sub, mul, invert}

  abbrev pub small_scalar : ℕ → Scalar
  small_scalar n = B.from_u64 n

  abbrev pub bytes_to_scalar : List ℕ → Scalar
  bytes_to_scalar bytes = B.reduce_bytes bytes

  -- `(1..threshold).map(|_| random)`, the draws numbered from `i`.
  unfoldable pub draws : (ℕ → Scalar) → ℕ → ℕ → List Scalar
  draws draw i zero = []
  draws draw i (suc count) = draw i ∷ draws draw (i + 1) count

  -- `for c in &coeffs { y += c * x_pow; x_pow *= x; }`
  unfoldable pub eval_loop : Scalar → Scalar → Scalar → List Scalar → Scalar
  eval_loop x y x_pow [] = y
  eval_loop x y x_pow (c ∷ coeffs) = eval_loop x (add y (mul c x_pow)) (mul x_pow x) coeffs

  unfoldable pub share_at : Scalar → List Scalar → ℕ → ℕ → Share
  unfolding eval_loop
  share_at secret coeffs threshold i =
      let x = small_scalar i in
      record { index = i; threshold = threshold; value = B.to_bytes (eval_loop x secret x coeffs) }

  -- `(1..=n).map(…)`, from `i` on.
  unfoldable pub shares_from : Scalar → List Scalar → ℕ → ℕ → ℕ → List Share
  unfolding share_at
  shares_from secret coeffs threshold i zero = []
  shares_from secret coeffs threshold i (suc count) =
      share_at secret coeffs threshold i ∷ shares_from secret coeffs threshold (i + 1) count

  unfoldable pub split : PrivateKey B → ℕ → ℕ → (ℕ → Scalar) → Result (List Share) ShamirError
  unfolding draws shares_from
  split key threshold n draw = do
    fail_if (ltb threshold 2) threshold_too_small
    fail_if (ltb n threshold) threshold_exceeds_parties
    let secret = bytes_to_scalar (to_bytes_dangerous B key)
    let coeffs = draws draw 1 (threshold - 1)
    ok (shares_from secret coeffs threshold 1 n)

  -- The loop of `lagrange_coefficient` on its numerator and denominator.
  unfoldable pub lagrange_loop : ℕ → Scalar → Scalar → List ℕ → Scalar × Scalar
  lagrange_loop index num den [] = (num, den)
  lagrange_loop index num den (j ∷ indices) =
      let skip = j == index in
      lagrange_loop index (if skip then num else mul num (small_scalar j))
        (if skip then den else mul den (sub (small_scalar j) (small_scalar index))) indices

  unfoldable pub lagrange_coefficient : ℕ → List ℕ → Option Scalar
  unfolding lagrange_loop
  lagrange_coefficient index indices =
      let (num, den) = lagrange_loop index (small_scalar 1) (small_scalar 1) indices in
      elim (invert den) [ none ↦ none | some inverse ↦ some (mul num inverse) ]

  -- `for s in shares { acc += yi * li; }`; `none` is a failed inversion.
  unfoldable pub interpolate : List ℕ → Scalar → List Share → Option Scalar
  interpolate indices acc [] = some acc
  interpolate indices acc (s ∷ shares) = elim (lagrange_coefficient s.index indices) [
    | none ↦ none
    | some li ↦ interpolate indices (add acc (mul (bytes_to_scalar s.value) li)) shares
  ]

  unfoldable pub reconstruct : List Share → Result (PrivateKey B) ShamirError
  unfolding check_shares
  reconstruct [] = err wrong_share_count
  reconstruct (first ∷ others) = do
    let shares = first ∷ others
    let threshold = first.threshold
    fail_if (not (length shares == threshold)) wrong_share_count
    check_shares threshold [] shares
    let indices = map (λ (s : Share). s.index) shares
    secret ← or_panic (interpolate indices (small_scalar 0) shares)
    map_err (λ _. reconstruction_mismatch) (from_bytes_dangerous B (B.to_bytes secret))

  unfoldable pub reconstruct_and_verify :
      List Share → PublicKey B → Result (PrivateKey B) ShamirError
  reconstruct_and_verify shares expected = do
    key ← reconstruct shares
    fail_if (not (B.same_key (public_key B key) expected)) reconstruction_mismatch
    ok key

  abbrev pub reconstruct_unverified : List Share → Result (PrivateKey B) ShamirError
  reconstruct_unverified shares = reconstruct shares
