-- ===== src/Ceremony/Signing.antt =====
-- crates/wallet-core/src/ceremony.rs, its primitives, and recovery.rs: reconstruct, sign, verify.
-- What `SecureRng` gives is an argument: the generated key and the coefficients of a split.
use fortresswallet.Base.{ℕ, not, List, Result, ok, ◌>>=◌, ◌>>◌, fail_if, map_err}
use fortresswallet.Crypto.{
  Backend, PrivateKey, PublicKey, public_key, sign_prehash, sign_prehash_recoverable,
  verify_prehash,
}
use fortresswallet.Crypto.Shamir.{Share, ShamirError, split, reconstruct_and_verify}

pub data CeremonyError : Type 0 where
  reconstruction : ShamirError → CeremonyError
  signature_self_check_failed : CeremonyError

module _ (B : Backend) where
  open B use {Scalar, Signature, RecoveryId}

  unfoldable pub generate_and_split_key :
      PrivateKey B → (ℕ → Scalar) → ℕ → ℕ → Result (PublicKey B × List Share) ShamirError
  generate_and_split_key key draw threshold n = do
    shares ← split B key threshold n draw
    ok (public_key B key, shares)

  unfoldable pub sign_with_shares :
      List Share → PublicKey B → List ℕ → Result Signature CeremonyError
  sign_with_shares shares expected digest = do
    key ← map_err reconstruction (reconstruct_and_verify B shares expected)
    let signature = sign_prehash B key digest
    fail_if (not (verify_prehash B expected digest signature)) signature_self_check_failed
    ok signature

  unfoldable pub sign_with_shares_recoverable :
      List Share → PublicKey B → List ℕ → Result (Signature × RecoveryId) CeremonyError
  sign_with_shares_recoverable shares expected digest = do
    key ← map_err reconstruction (reconstruct_and_verify B shares expected)
    let (signature, recovery_id) = sign_prehash_recoverable B key digest
    fail_if (not (verify_prehash B expected digest signature)) signature_self_check_failed
    ok (signature, recovery_id)

  unfoldable pub rotate_shares :
      List Share → PublicKey B → ℕ → ℕ → (ℕ → Scalar) → Result (List Share) ShamirError
  rotate_shares shares expected new_threshold new_n draw = do
    key ← reconstruct_and_verify B shares expected
    split B key new_threshold new_n draw
