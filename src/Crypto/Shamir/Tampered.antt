-- ===== src/Crypto/Shamir/Tampered.antt =====
-- A quorum in which the value of one share was changed.
use fortresswallet.Base.{
  ℕ, ◌<◌, ◌≡◌, ◌≢◌, refl, sym, ap, ◌∙◌, subst, some, inl, inr, Option-cases, Bool-cases, List, [],
  ◌∷◌, ◌++◌, length, All, true, Result, ok, err, map_err, arith,
}
use fortresswallet.Crypto.{
  Backend, EcdsaLaws, PrivateKey, PublicKey, public_key, from_bytes_dangerous,
}
use fortresswallet.Crypto.Shamir.{
  Share, bytes_to_scalar, interpolate, reconstruct, reconstruct_and_verify, ShamirError,
  reconstruction_mismatch,
}
use fortresswallet.Crypto.Shamir.Checks.{
  Quorum, Distinct, indices_of, reconstruct-interpolated, reconstruct_and_verify_sound,
}
use fortresswallet.Crypto.Shamir.Field.{ScalarLaws, zero_scalar, add_right_cancel, mul_left_cancel}
use fortresswallet.Crypto.Shamir.Weights.{weight, weight-ne-zero, lagrange_coefficient-weight}
use fortresswallet.Crypto.Shamir.Interpolation.{Small}
use fortresswallet.Crypto.Shamir.Recovered.{KeyLaws}

-- As `k256` documents it: a key that is made of bytes has these bytes, and keys with the same public
-- key are the same.
pub record KeyIdentityLaws (B : Backend) : Type 0 where
  pub key_to_bytes-from :
      (s : B.Scalar) (key : B.SigningKey)
      → B.key_from_bytes (B.to_bytes s) ≡ some key
      → B.key_to_bytes key ≡ B.to_bytes s
  pub verifying_key_injective : (a b : B.SigningKey) → B.verifying_key a ≡ B.verifying_key b → a ≡ b

abbrev pub tampered : Share → List ℕ → Share
tampered s value = record s { value = value }

same_indices :
    (before : List Share) (s : Share) (value : List ℕ) (after : List Share)
    → indices_of (before ++ tampered s value ∷ after) ≡ indices_of (before ++ s ∷ after)
same_indices [] s value after = refl
same_indices (b ∷ before) s value after =
    ap (λ is. b.index ∷ is) (same_indices before s value after)

same_length :
    (before : List Share) (s : Share) (value : List ℕ) (after : List Share)
    → length (before ++ tampered s value ∷ after) ≡ length (before ++ s ∷ after)
same_length [] s value after = refl
same_length (b ∷ before) s value after = omega (arith, same_length before s value after)

same_thresholds :
    (n : ℕ) (before : List Share) (s : Share) (value : List ℕ) (after : List Share)
    → All (λ (x : Share). x.threshold ≡ n) (before ++ s ∷ after)
    → All (λ (x : Share). x.threshold ≡ n) (before ++ tampered s value ∷ after)
same_thresholds n [] s value after h = h
same_thresholds n (b ∷ before) s value after (h, hs) =
    (h, same_thresholds n before s value after hs)

-- Nothing that is checked before the interpolation tells the two apart.
tampered-Quorum :
    (before : List Share) (s : Share) (value : List ℕ) (after : List Share)
    → Quorum (before ++ s ∷ after)
    → Quorum (before ++ tampered s value ∷ after)
tampered-Quorum before s value after q =
    let lengths = same_length before s value after in
    let indices = sym (same_indices before s value after) in
    record {
      nonempty = omega (arith, lengths, q.nonempty);
      thresholds =
          subst (λ n. All (λ (x : Share). x.threshold ≡ n) (before ++ tampered s value ∷ after))
            (sym lengths) (same_thresholds _ before s value after q.thresholds);
      nonzero = subst (All (λ i. i ≢ 0)) indices q.nonzero;
      distinct = subst Distinct indices q.distinct;
    }

module _ (B : Backend) where
  open B use {Scalar, add as ◌⊕◌, mul as ◌⊗◌}

  infixl 65 ◌⊕◌
  infixl 70 ◌⊗◌
  -- What the shares contribute among the points `is`.
  unfoldable sum : List ℕ → List Share → Scalar
  sum is [] = zero_scalar B
  sum is (s ∷ shares) = bytes_to_scalar B s.value ⊗ weight B s.index is ⊕ sum is shares

module _ (B : Backend) (L : ScalarLaws B) where
  open B use {Scalar, add as ◌⊕◌, mul as ◌⊗◌}

  infixl 65 ◌⊕◌
  infixl 70 ◌⊗◌
  interpolate-sum :
      (is : List ℕ) (acc : Scalar) (shares : List Share)
      → Small B is
      → Small B (indices_of shares)
      → interpolate B is acc shares ≡ some (acc ⊕ sum B is shares)
  unfolding interpolate sum
  interpolate-sum is acc [] small h = ap some (sym (L.add-zero acc))
  interpolate-sum is acc (s ∷ shares) small (h, hs) =
      rw (lagrange_coefficient-weight B L s.index is h small, interpolate)
        (interpolate-sum is (acc ⊕ bytes_to_scalar B s.value ⊗ weight B s.index is) shares small hs
          ∙ ap some (L.add_assoc acc _ _))

  add_left_cancel : (a b c : Scalar) → a ⊕ b ≡ a ⊕ c → b ≡ c
  add_left_cancel a b c h = add_right_cancel B L b c a (L.add_comm b a ∙ h ∙ L.add_comm a c)

  -- The same sum needs the same value, since the weight is not 0.
  sum-tampered :
      (is : List ℕ) (before : List Share) (s : Share) (value : List ℕ) (after : List Share)
      → weight B s.index is ≢ zero_scalar B
      → sum B is (before ++ s ∷ after) ≡ sum B is (before ++ tampered s value ∷ after)
      → bytes_to_scalar B s.value ≡ bytes_to_scalar B value
  unfolding sum
  sum-tampered is [] s value after counts h =
      let w = weight B s.index is in
      mul_left_cancel B L w (bytes_to_scalar B s.value) (bytes_to_scalar B value) counts
        (L.mul_comm w _ ∙ add_right_cancel B L _ _ (sum B is after) h ∙ L.mul_comm _ w)
  sum-tampered is (b ∷ before) s value after counts h =
      sum-tampered is before s value after counts (add_left_cancel _ _ _ h)

  abbrev restored : Scalar → Result (PrivateKey B) ShamirError
  restored secret =
      map_err (λ _. reconstruction_mismatch) (from_bytes_dangerous B (B.to_bytes secret))

  restored-ok :
      (secret : Scalar) (key : PrivateKey B)
      → restored secret ≡ ok key
      → B.key_from_bytes (B.to_bytes secret) ≡ some key
  restored-ok secret key h = elim (Option-cases (B.key_from_bytes (B.to_bytes secret))) [
    | inl e ↦ absurd (cc (rw e at h))
    | inr (k, e) ↦ ground (arith, e, h)
  ]

  reconstruct-restored :
      (is : List ℕ) (shares : List Share)
      → Quorum shares
      → indices_of shares ≡ is
      → Small B is
      → reconstruct B shares ≡ restored (zero_scalar B ⊕ sum B is shares)
  reconstruct-restored is shares q same small =
      let own = subst (Small B) (sym same) small in
      reconstruct-interpolated B shares q
      ∙ rw (interpolate-sum (indices_of shares) (zero_scalar B) shares own own, same) refl

own_index :
    (before : List Share) (s : Share) (after : List Share)
    → All (λ i. i < 256) (indices_of (before ++ s ∷ after))
    → s.index < 256
own_index [] s after h = h.0
own_index (b ∷ before) s after h = own_index before s after h.1

module _ (B : Backend) (L : ScalarLaws B) (K : KeyLaws B) (I : KeyIdentityLaws B)
    (E : EcdsaLaws B) where
  open B use {Scalar, add as ◌⊕◌}

  infixl 65 ◌⊕◌
  -- The only secret that passes for a public key.
  one_secret :
      (a b : Scalar) (key other : PrivateKey B)
      → B.key_from_bytes (B.to_bytes a) ≡ some key
      → B.key_from_bytes (B.to_bytes b) ≡ some other
      → public_key B other ≡ public_key B key
      → a ≡ b
  one_secret a b key other ha hb same =
      sym (K.reduce_bytes-to_bytes a)
      ∙ ap B.reduce_bytes (
          sym (I.key_to_bytes-from a key ha)
          ∙ ap B.key_to_bytes (I.verifying_key_injective key other (sym same))
          ∙ I.key_to_bytes-from b other hb)
      ∙ K.reduce_bytes-to_bytes b

  verify_mismatch :
      (shares : List Share) (expected : PublicKey B) (key : PrivateKey B)
      → reconstruct B shares ≡ ok key
      → ¬ (B.same_key (public_key B key) expected ≡ true)
      → reconstruct_and_verify B shares expected ≡ err reconstruction_mismatch
  unfolding reconstruct_and_verify
  verify_mismatch shares expected key made differs =
      elim (Bool-cases (B.same_key (public_key B key) expected)) [
        | inl e ↦ absurd (differs e)
        | inr e ↦ rw (made, e) refl
      ]

  unmade_mismatch :
      (shares : List Share) (expected : PublicKey B)
      → reconstruct B shares ≡ err reconstruction_mismatch
      → reconstruct_and_verify B shares expected ≡ err reconstruction_mismatch
  unfolding reconstruct_and_verify
  unmade_mismatch shares expected h = rw h refl

  -- Where a quorum whose indices are bytes passes for a public key, it is refused with the error of a
  -- mismatch, and never by a panic, as soon as the value of one of its shares, wherever it stands, is
  -- replaced by bytes that stand for another scalar. Bytes that stand for the same scalar, as ones
  -- that differ by the order of the group do, are not covered.
  pub reconstruct_and_verify-tampered :
      (before : List Share) (s : Share) (value : List ℕ) (after : List Share)
      (expected : PublicKey B) (key : PrivateKey B)
      → All (λ i. i < 256) (indices_of (before ++ s ∷ after))
      → reconstruct_and_verify B (before ++ s ∷ after) expected ≡ ok key
      → bytes_to_scalar B s.value ≢ bytes_to_scalar B value
      → reconstruct_and_verify B (before ++ tampered s value ∷ after) expected
        ≡ err reconstruction_mismatch
  reconstruct_and_verify-tampered before s value after expected key small passed changed =
      let is = indices_of (before ++ s ∷ after) in
      let bad = before ++ tampered s value ∷ after in
      let (q, made, matches) =
        reconstruct_and_verify_sound B (before ++ s ∷ after) expected key passed in
      let right = zero_scalar B ⊕ sum B is (before ++ s ∷ after) in
      let wrong = zero_scalar B ⊕ sum B is bad in
      let held : B.key_from_bytes (B.to_bytes right) ≡ some key =
        restored-ok B L right key
          (sym (reconstruct-restored B L is (before ++ s ∷ after) q refl small) ∙ made) in
      let counts = weight-ne-zero B L s.index is (own_index before s after small) small q.nonzero in
      let apart : right ≢ wrong = λ e.
        changed (sum-tampered B L is before s value after counts (add_left_cancel B L _ _ _ e)) in
      let reached =
        reconstruct-restored B L is bad (tampered-Quorum before s value after q)
          (same_indices before s value after) small in
      elim (Option-cases (B.key_from_bytes (B.to_bytes wrong))) [
        | inl e ↦ unmade_mismatch bad expected (reached ∙ rw e refl)
        | inr (other, e) ↦ verify_mismatch bad expected other (reached ∙ rw e refl) (λ same. apart (
            one_secret right wrong key other held e
              ((E.same_key_iff _ _).0 same ∙ sym ((E.same_key_iff _ _).0 matches))))
      ]
