-- ===== src/Crypto.antt =====
-- crates/wallet-crypto: the keys of src/keys.rs over the crates that it wraps, and the hashes of
-- src/lib.rs. Zeroizing, page locking and redaction change no value and are not modelled.
pub mod Shamir
use fortresswallet.Base.{
  ℕ, ◌≡◌, ◌↔◌, true, Bool, not, Option, none, some, List, Result, ok, err, ok_or,
}

-- What `k256`, its `sha2` and `sha3` give: scalars modulo the group order, ECDSA keys and
-- signatures, and the hashes. `sign_prehash` fails only on a digest of another length than the 32
-- bytes that its callers' type fixes, so it is taken as total. `invert` is `none` where the crate's
-- `CtOption` is.
pub record Backend : Type 1 where
  pub Scalar : Type 0
  pub from_u64 : ℕ → Scalar
  pub add : Scalar → Scalar → Scalar
  pub sub : Scalar → Scalar → Scalar
  pub mul : Scalar → Scalar → Scalar
  pub invert : Scalar → Option Scalar
  pub to_bytes : Scalar → List ℕ
  pub reduce_bytes : List ℕ → Scalar
  pub SigningKey : Type 0
  pub VerifyingKey : Type 0
  pub Signature : Type 0
  pub RecoveryId : Type 0
  pub key_from_bytes : List ℕ → Option SigningKey
  pub key_to_bytes : SigningKey → List ℕ
  pub verifying_key : SigningKey → VerifyingKey
  pub same_key : VerifyingKey → VerifyingKey → Bool
  pub sign : SigningKey → List ℕ → Signature
  pub sign_recoverable : SigningKey → List ℕ → Signature × RecoveryId
  pub verify : VerifyingKey → List ℕ → Signature → Bool
  pub is_x_reduced : RecoveryId → Bool
  pub is_y_odd : RecoveryId → Bool
  pub signature_to_bytes : Signature → List ℕ
  pub to_sec1 : VerifyingKey → List ℕ
  pub from_sec1 : List ℕ → Option VerifyingKey
  pub to_uncompressed_sec1 : VerifyingKey → List ℕ
  pub sha256 : List ℕ → List ℕ
  pub keccak256 : List ℕ → List ℕ

pub data InvalidKeyBytes : Type 0 where
  invalid_key_bytes : InvalidKeyBytes

module _ (B : Backend) where
  open B use {SigningKey, VerifyingKey, Signature, RecoveryId}

  abbrev pub PrivateKey : Type 0
  PrivateKey = SigningKey

  abbrev pub PublicKey : Type 0
  PublicKey = VerifyingKey

  abbrev pub sha256 : List ℕ → List ℕ
  sha256 bytes = B.sha256 bytes

  abbrev pub keccak256 : List ℕ → List ℕ
  keccak256 bytes = B.keccak256 bytes

  abbrev pub public_key : PrivateKey → PublicKey
  public_key key = B.verifying_key key

  abbrev pub sign_prehash : PrivateKey → List ℕ → Signature
  sign_prehash key digest = B.sign key digest

  abbrev pub sign_prehash_recoverable : PrivateKey → List ℕ → Signature × RecoveryId
  sign_prehash_recoverable key digest = B.sign_recoverable key digest

  abbrev pub to_bytes_dangerous : PrivateKey → List ℕ
  to_bytes_dangerous key = B.key_to_bytes key

  abbrev pub from_bytes_dangerous : List ℕ → Result PrivateKey InvalidKeyBytes
  from_bytes_dangerous bytes = ok_or (B.key_from_bytes bytes) invalid_key_bytes

  abbrev pub verify_prehash : PublicKey → List ℕ → Signature → Bool
  verify_prehash key digest sig = B.verify key digest sig

  abbrev pub to_sec1_bytes : PublicKey → List ℕ
  to_sec1_bytes key = B.to_sec1 key

  abbrev pub from_sec1_bytes : List ℕ → Result PublicKey InvalidKeyBytes
  from_sec1_bytes bytes = ok_or (B.from_sec1 bytes) invalid_key_bytes

  abbrev pub to_uncompressed_sec1_bytes : PublicKey → List ℕ
  to_uncompressed_sec1_bytes key = B.to_uncompressed_sec1 key

-- ECDSA as `k256` documents it: equality of verifying keys decides, and what a key signs its
-- verifying key accepts.
pub record EcdsaLaws (B : Backend) : Type 0 where
  pub same_key_iff : (a b : B.VerifyingKey) → (B.same_key a b ≡ true) ↔ (a ≡ b)
  pub verify-sign :
      (key : B.SigningKey) (digest : List ℕ)
      → B.verify (B.verifying_key key) digest (B.sign key digest) ≡ true
