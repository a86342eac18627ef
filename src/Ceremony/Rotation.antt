-- ===== src/Ceremony/Rotation.antt =====
-- What a rotation of shares that succeeds has done.
use fortresswallet.Base.{ℕ, ◌≡◌, true, List, length, All, ok, >>=-eq-ok}
use mathlib.Core.List.{Memᴰ}
use fortresswallet.Crypto.{Backend, PrivateKey, PublicKey, public_key}
use fortresswallet.Crypto.Shamir.{Share, split, reconstruct, reconstruct_and_verify}
use fortresswallet.Crypto.Shamir.Checks.{Quorum, Distinct, indices_of, reconstruct_and_verify_sound}
use fortresswallet.Crypto.Shamir.Split.{indices_from, split-Quorum}
use fortresswallet.Ceremony.Signing.{rotate_shares}

module _ (B : Backend) where
  -- A rotation needs a quorum of old shares of the expected key, and what it returns is a split of
  -- the very key that they give: shares 1 to `new_n`, any `new_threshold` of which with distinct
  -- indices are a quorum again.
  rotate_shares-Quorum :
      (shares new_shares picked : List Share) (expected : PublicKey B) (new_threshold new_n : ℕ)
      (draw : ℕ → B.Scalar)
      → rotate_shares B shares expected new_threshold new_n draw ≡ ok new_shares
      → All (λ s. Memᴰ s new_shares) picked
      → length picked ≡ new_threshold
      → Distinct (indices_of picked)
      → Quorum shares
        × Quorum picked
        × (indices_of new_shares ≡ indices_from 1 new_n)
        × ((key : PrivateKey B) × (reconstruct B shares ≡ ok key)
            × (B.same_key (public_key B key) expected ≡ true)
            × (split B key new_threshold new_n draw ≡ ok new_shares))
  unfolding rotate_shares
  rotate_shares-Quorum shares new_shares picked expected new_threshold new_n draw h members count
        distinct =
      let (key, found, made) = >>=-eq-ok (reconstruct_and_verify B shares expected) _ h in
      let (quorum, reconstructed, same) =
        reconstruct_and_verify_sound B shares expected key found in
      let (indices, again) =
        split-Quorum B key new_threshold new_n draw new_shares picked made members count distinct in
      (quorum, again, indices, (key, reconstructed, same, made))
