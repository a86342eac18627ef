-- ===== src/Crypto/Shamir/Checks.antt =====
-- What a successful reconstruction has checked of its shares.
use fortresswallet.Base.{
  ℕ, suc, ◌<◌, ◌≡◌, ◌≢◌, ◌↔◌, refl, sym, ap, subst, ◌∙◌, true, false, not, List, [], ◌∷◌, map,
  length, All, ==_iff, ◌==◌, Result, ok, ◌>>=◌, ◌>>◌, >>=-eq-ok, fail_if, map_err, or_panic, arith,
}
use fortresswallet.Crypto.{Backend, PrivateKey, PublicKey, public_key, from_bytes_dangerous}
use fortresswallet.Crypto.Shamir.{
  Share, ShamirError, reconstruction_mismatch, wrong_share_count, is_in, check_shares, small_scalar,
  interpolate, reconstruct, reconstruct_and_verify,
}

abbrev pub indices_of : List Share → List ℕ
indices_of shares = map (λ (s : Share). s.index) shares

pub length-indices_of : (shares : List Share) → length (indices_of shares) ≡ length shares
length-indices_of [] = refl
length-indices_of (s ∷ shares) = ap suc (length-indices_of shares)

-- No number occurs twice.
abbrev pub Distinct : List ℕ → Type 0
Distinct [] = Unit
Distinct (i ∷ is) = All (λ j. i ≢ j) is × Distinct is

-- As many shares as their common threshold says, with indices that are distinct and not 0.
pub record Quorum (shares : List Share) : Type 0 where
  pub nonempty : 0 < length shares
  pub thresholds : All (λ s. s.threshold ≡ length shares) shares
  pub nonzero : All (λ i. i ≢ 0) (indices_of shares)
  pub distinct : Distinct (indices_of shares)

-- The loop's tests in the order in which it makes them.
abbrev Passes : ℕ → List ℕ → List Share → Type 0
Passes threshold seen [] = Unit
Passes threshold seen (s ∷ shares) =
    (s.threshold ≡ threshold)
    × (s.index ≢ 0)
    × (is_in s.index seen ≡ false)
    × Passes threshold (s.index ∷ seen) shares

check_shares-Passes :
    (threshold : ℕ) (seen : List ℕ) (shares : List Share)
    → (check_shares threshold seen shares ≡ ok tt) ↔ Passes threshold seen shares
unfolding check_shares
check_shares-Passes threshold seen [] = (λ _. tt, λ _. refl)
check_shares-Passes threshold seen (s ∷ shares) =
    let (there, back) = check_shares-Passes threshold (s.index ∷ seen) shares in
    (λ h. ground (arith, there), λ h. ground (arith, back h.3))

is_in-false : (i j : ℕ) (js : List ℕ) → (is_in i (j ∷ js) ≡ false) → (i ≢ j) × (is_in i js ≡ false)
unfolding is_in
is_in-false i j js h = ground arith

-- Nothing among the shares was seen before, and they are distinct.
Passes-Distinct :
    (threshold : ℕ) (seen : List ℕ) (shares : List Share)
    → Passes threshold seen shares
    → All (λ i. is_in i seen ≡ false) (indices_of shares) × Distinct (indices_of shares)
Passes-Distinct threshold seen [] p = (tt, tt)
Passes-Distinct threshold seen (s ∷ shares) (_, _, new, p) =
    let (unseen, distinct) = Passes-Distinct threshold (s.index ∷ seen) shares p in
    ((new, older (indices_of shares) unseen), (others (indices_of shares) unseen, distinct))
  where
    older :
        (is : List ℕ)
        → All (λ i. is_in i (s.index ∷ seen) ≡ false) is
        → All (λ i. is_in i seen ≡ false) is
    older [] h = tt
    older (i ∷ is) h = ((is_in-false i s.index seen h.0).1, older is h.1)

    others :
        (is : List ℕ) → All (λ i. is_in i (s.index ∷ seen) ≡ false) is → All (λ j. s.index ≢ j) is
    others [] h = tt
    others (i ∷ is) h = ((λ e. (is_in-false i s.index seen h.0).0 (sym e)), others is h.1)

Passes-thresholds :
    (threshold : ℕ) (seen : List ℕ) (shares : List Share)
    → Passes threshold seen shares
    → All (λ (s : Share). s.threshold ≡ threshold) shares × All (λ i. i ≢ 0) (indices_of shares)
Passes-thresholds threshold seen [] p = (tt, tt)
Passes-thresholds threshold seen (s ∷ shares) (t, z, _, p) =
    let (ts, zs) = Passes-thresholds threshold (s.index ∷ seen) shares p in ((t, ts), (z, zs))

Passes-of :
    (threshold : ℕ) (seen : List ℕ) (shares : List Share)
    → All (λ (s : Share). s.threshold ≡ threshold) shares
    → All (λ i. i ≢ 0) (indices_of shares)
    → All (λ i. is_in i seen ≡ false) (indices_of shares)
    → Distinct (indices_of shares)
    → Passes threshold seen shares
Passes-of threshold seen [] t z u d = tt
Passes-of threshold seen (s ∷ shares) (t, ts) (z, zs) (u, us) (d, ds) = (
  t,
  z,
  u,
  Passes-of threshold (s.index ∷ seen) shares ts zs (unseen (indices_of shares) us d) ds,
)
  where
    unseen :
        (is : List ℕ)
        → All (λ i. is_in i seen ≡ false) is
        → All (λ j. s.index ≢ j) is
        → All (λ i. is_in i (s.index ∷ seen) ≡ false) is
    unseen [] hu hd = tt
    unseen (i ∷ is) hu hd = (unfold is_in in ground arith, unseen is hu.1 hd.1)

none_seen : (is : List ℕ) → All (λ i. is_in i [] ≡ false) is
unfolding is_in
none_seen [] = tt
none_seen (i ∷ is) = (refl, none_seen is)

-- The tests of `reconstruct` before it interpolates pass exactly on a quorum.
pub checks-Quorum :
    (first : Share) (others : List Share)
    → ((length (first ∷ others) ≡ first.threshold)
        × (check_shares first.threshold [] (first ∷ others) ≡ ok tt))
      ↔ Quorum (first ∷ others)
checks-Quorum first others = (
  λ (count, e).
      let p = (check_shares-Passes first.threshold [] (first ∷ others)).0 e in
      let (thresholds, nonzero) = Passes-thresholds first.threshold [] (first ∷ others) p in
      record {
        nonempty = omega arith;
        thresholds =
            subst (λ n. All (λ (s : Share). s.threshold ≡ n) (first ∷ others)) (sym count)
              thresholds;
        nonzero = nonzero;
        distinct = (Passes-Distinct first.threshold [] (first ∷ others) p).1;
      },
  λ q.
      let count = q.thresholds.0 in
      (
        sym count,
        (check_shares-Passes first.threshold [] (first ∷ others)).1 (
            Passes-of first.threshold [] (first ∷ others)
              (subst (λ n. All (λ (s : Share). s.threshold ≡ n) (first ∷ others)) (sym count)
                q.thresholds)
              q.nonzero (none_seen (indices_of (first ∷ others))) q.distinct),
      ),
)

counted-eq : (n k : ℕ) → fail_if (not (n == k)) wrong_share_count ≡ ok tt → n ≡ k
counted-eq n k h = ground arith

module _ (B : Backend) where
  -- What `reconstruct` does once the shares are a quorum.
  abbrev pub interpolated : List Share → Result (PrivateKey B) ShamirError
  interpolated shares = do
    secret ← or_panic (interpolate B (indices_of shares) (small_scalar B 0) shares)
    map_err (λ _. reconstruction_mismatch) (from_bytes_dangerous B (B.to_bytes secret))

  pub reconstruct-interpolated :
      (shares : List Share) → Quorum shares → reconstruct B shares ≡ interpolated shares
  unfolding reconstruct
  reconstruct-interpolated [] q = absurd (omega (arith, q.nonempty))
  reconstruct-interpolated (first ∷ others) q =
      let (count, e) = (checks-Quorum first others).1 q in
      let counted = (==_iff _ _).1 count in rw (counted, e)

  reconstruct-Quorum :
      (shares : List Share) (key : PrivateKey B) → reconstruct B shares ≡ ok key → Quorum shares
  unfolding reconstruct
  reconstruct-Quorum [] key h = cc
  reconstruct-Quorum (first ∷ others) key h =
      let (_, counted, h1) =
        >>=-eq-ok (fail_if (not (length (first ∷ others) == first.threshold)) wrong_share_count) _
          h in
      let (_, checked, h2) = >>=-eq-ok (check_shares first.threshold [] (first ∷ others)) _ h1 in
      (checks-Quorum first others).0 (counted-eq _ _ counted, checked)

  -- A key that is returned is what the shares reconstruct, matches the expected public key, and
  -- comes from a quorum: as many shares as the threshold that they all declare, with indices that
  -- are distinct and not 0.
  pub reconstruct_and_verify_sound :
      (shares : List Share) (expected : PublicKey B) (key : PrivateKey B)
      → reconstruct_and_verify B shares expected ≡ ok key
      → Quorum shares
        × (reconstruct B shares ≡ ok key)
        × (B.same_key (public_key B key) expected ≡ true)
  unfolding reconstruct_and_verify
  reconstruct_and_verify_sound shares expected key h =
      let (key', made, h1) = >>=-eq-ok (reconstruct B shares) _ h in
      let (matches, same) = verified key' h1 in
      (
        reconstruct-Quorum shares key' made,
        made ∙ ap ok same,
        subst (λ k. B.same_key (public_key B k) expected ≡ true) same matches,
      )
    where
      verified :
          (k : PrivateKey B)
          → (fail_if (not (B.same_key (public_key B k) expected)) reconstruction_mismatch >> ok k)
            ≡ ok key
          → (B.same_key (public_key B k) expected ≡ true) × (k ≡ key)
      verified k e = ground arith
