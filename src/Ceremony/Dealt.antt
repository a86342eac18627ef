-- ===== src/Ceremony/Dealt.antt =====
-- Shares as they are handed out: a quorum of some split of a key.
use fortresswallet.Base.{ℕ, ◌<◌, ◌≡◌, refl, sym, ◌∙◌, List, length, All, ok}
use mathlib.Core.List.{Memᴰ}
use fortresswallet.Crypto.{Backend, EcdsaLaws, PrivateKey, public_key, sign_prehash}
use fortresswallet.Crypto.Shamir.{Share, split, reconstruct}
use fortresswallet.Crypto.Shamir.Checks.{Distinct, indices_of}
use fortresswallet.Crypto.Shamir.Field.{ScalarLaws}
use fortresswallet.Crypto.Shamir.Recovered.{
  KeyLaws, split-reconstruct, split-reconstruct_and_verify,
}
use fortresswallet.Ceremony.Signing.{sign_with_shares, rotate_shares}
use fortresswallet.Ceremony.Sound.{sign_with_shares_complete}

-- Threshold-many shares with distinct indices, in any order, of one split of the key.
pub record IsDealt (B : Backend) (key : PrivateKey B) (picked : List Share) : Type 0 where
  pub threshold : ℕ
  pub parties : ℕ
  pub draw : ℕ → B.Scalar
  pub shares : List Share
  pub made : split B key threshold parties draw ≡ ok shares
  pub few_parties : parties < 256
  pub members : All (λ s. Memᴰ s shares) picked
  pub count : length picked ≡ threshold
  pub distinct : Distinct (indices_of picked)

module _ (B : Backend) (S : ScalarLaws B) (K : KeyLaws B) (E : EcdsaLaws B) where
  pub IsDealt-reconstruct :
      (key : PrivateKey B) (picked : List Share)
      → IsDealt B key picked
      → reconstruct B picked ≡ ok key
  IsDealt-reconstruct key picked d =
      split-reconstruct B S K key d.threshold d.parties d.draw d.shares picked d.made d.few_parties
        d.members d.count d.distinct

  pub IsDealt-sign_with_shares :
      (key : PrivateKey B) (picked : List Share) (digest : List ℕ)
      → IsDealt B key picked
      → sign_with_shares B picked (public_key B key) digest ≡ ok (sign_prehash B key digest)
  IsDealt-sign_with_shares key picked digest d =
      sign_with_shares_complete B E picked key digest (IsDealt-reconstruct key picked d)

  -- From any quorum of a key's shares, a rotation is a split of the key, errors included.
  pub rotate_shares-split :
      (key : PrivateKey B) (old : List Share) (threshold n : ℕ) (draw : ℕ → B.Scalar)
      → IsDealt B key old
      → rotate_shares B old (public_key B key) threshold n draw ≡ split B key threshold n draw
  unfolding rotate_shares
  rotate_shares-split key old threshold n draw d =
      rw
        (split-reconstruct_and_verify B S K E key d.threshold d.parties d.draw d.shares old d.made
          d.few_parties d.members d.count d.distinct)
        refl

  -- A rotation that is given any quorum of a key's shares does what a fresh split of the key does,
  -- with its refusals, and whichever quorum of the new shares is picked, it gives the same key and
  -- signs every digest as the key does.
  pub rotate_shares-IsDealt :
      (key : PrivateKey B) (old new_shares picked : List Share) (threshold n : ℕ)
      (draw : ℕ → B.Scalar) (digest : List ℕ)
      → IsDealt B key old
      → rotate_shares B old (public_key B key) threshold n draw ≡ ok new_shares
      → n < 256
      → All (λ s. Memᴰ s new_shares) picked
      → length picked ≡ threshold
      → Distinct (indices_of picked)
      → (rotate_shares B old (public_key B key) threshold n draw ≡ split B key threshold n draw)
        × (reconstruct B picked ≡ ok key)
        × (sign_with_shares B picked (public_key B key) digest ≡ ok (sign_prehash B key digest))
  rotate_shares-IsDealt key old new_shares picked threshold n draw digest d h few members count
        distinct =
      let same = rotate_shares-split key old threshold n draw d in
      let again : IsDealt B key picked = record {
        threshold = threshold;
        parties = n;
        draw = draw;
        shares = new_shares;
        made = sym same ∙ h;
        few_parties = few;
        members = members;
        count = count;
        distinct = distinct;
      } in
      (same, IsDealt-reconstruct key picked again, IsDealt-sign_with_shares key picked digest again)
