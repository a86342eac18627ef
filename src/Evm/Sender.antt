-- ===== src/Evm/Sender.antt =====
-- The sender that a node of the chain finds in the bytes of a transaction: as
-- crates/wallet-core/src/evm.rs signs it and `recover_from_prehash` in crates/wallet-crypto/src/keys.rs
-- recovers its key.
use fortresswallet.Base.{
  ℕ, ◌≡◌, ap, ◌∙◌, false, Option, none, some, List, ◌++◌, take-append-drop, length, Result, ok, err,
  panic, ok_or, if◌then◌else◌,
}
use fortresswallet.Crypto.{
  Backend, PublicKey, InvalidKeyBytes, invalid_key_bytes, public_key, EcdsaLaws,
}
use fortresswallet.Crypto.Shamir.{Share}
use fortresswallet.Decoder.Evm.{
  Rlp, UnsignedEip1559Tx, SignedEip1559Tx, decode_signed, EvmDecodeError,
}
use fortresswallet.Decoder.Evm.RoundTrip.{RlpLaws, IsFitting}
use fortresswallet.Evm.{hash_for_signing, assemble, sign_and_encode}
use fortresswallet.Evm.Broadcast.{sign_and_encode-IsBroadcast}

-- The recovery of `k256`, and its readers of signatures and recovery ids.
pub record Recovery (B : Backend) : Type 0 where
  pub recover : List ℕ → B.Signature → B.RecoveryId → Option B.VerifyingKey
  pub signature_from_bytes : List ℕ → Option B.Signature
  pub recovery_id_from_byte : ℕ → Option B.RecoveryId

-- As documented, for what a key signs on a digest of 32 bytes: the signature is read back from its 64
-- bytes, an id that is not reduced from its parity, and together they recover the key.
pub record RecoveryLaws (B : Backend) (X : Recovery B) : Type 0 where
  pub length-keccak256 : (bytes : List ℕ) → length (B.keccak256 bytes) ≡ 32
  pub length-signature : (s : B.Signature) → length (B.signature_to_bytes s) ≡ 64
  pub signature-bytes :
      (key : B.SigningKey) (digest : List ℕ) (s : B.Signature) (id : B.RecoveryId)
      → length digest ≡ 32
      → B.sign_recoverable key digest ≡ (s, id)
      → X.signature_from_bytes (B.signature_to_bytes s) ≡ some s
  pub recovery_id-parity :
      (key : B.SigningKey) (digest : List ℕ) (s : B.Signature) (id : B.RecoveryId)
      → B.sign_recoverable key digest ≡ (s, id)
      → B.is_x_reduced id ≡ false
      → X.recovery_id_from_byte (if B.is_y_odd id then 1 else 0) ≡ some id
  pub recover-sign :
      (key : B.SigningKey) (digest : List ℕ) (s : B.Signature) (id : B.RecoveryId)
      → length digest ≡ 32
      → B.sign_recoverable key digest ≡ (s, id)
      → X.recover digest s id ≡ some (B.verifying_key key)

module _ (B : Backend) (X : Recovery B) where
  abbrev pub recover_from_prehash :
      List ℕ → B.Signature → B.RecoveryId → Result (PublicKey B) InvalidKeyBytes
  recover_from_prehash digest signature recovery_id =
      ok_or (X.recover digest signature recovery_id) invalid_key_bytes

  abbrev as_option : Result (PublicKey B) InvalidKeyBytes → Option (PublicKey B)
  as_option (ok key) = some key
  as_option (err e) = none
  as_option panic = none

  module _ (R : Rlp) where
    -- What the signature that a transaction carries recovers.
    abbrev recovered :
        SignedEip1559Tx → Option B.Signature → Option B.RecoveryId → Option (PublicKey B)
    recovered signed (some signature) (some recovery_id) =
        as_option (recover_from_prehash (hash_for_signing B R signed.tx) signature recovery_id)
    recovered signed none recovery_id = none
    recovered signed (some signature) none = none

    abbrev sender_of : Result SignedEip1559Tx EvmDecodeError → Option (PublicKey B)
    sender_of (ok signed) =
        recovered signed (X.signature_from_bytes (signed.r ++ signed.s))
          (X.recovery_id_from_byte signed.y_parity)
    sender_of (err e) = none
    sender_of panic = none

    -- The key that the bytes of a transaction alone give.
    abbrev pub sender : List ℕ → Option (PublicKey B)
    sender bytes = sender_of (decode_signed R bytes)

    -- Under the laws of RLP, of ECDSA and of the recovery, the bytes that signing returns for a
    -- transaction that fits its types carry a signature from which anyone recovers the wallet's own
    -- public key.
    pub sign_and_encode-sender :
        (rlp : RlpLaws R) (E : EcdsaLaws B) (L : RecoveryLaws B X) (tx : UnsignedEip1559Tx)
        (shares : List Share) (expected : PublicKey B) (bytes : List ℕ)
        → IsFitting tx
        → sign_and_encode B R tx shares expected ≡ ok bytes
        → sender bytes ≡ some expected
    sign_and_encode-sender rlp E L tx shares expected bytes fits h =
        let sent =
          sign_and_encode-IsBroadcast B R rlp L.length-signature tx shares expected bytes fits h in
        let digest = hash_for_signing B R tx in
        let wide = L.length-keccak256 _ in
        let signed = assemble B R tx sent.signature sent.recovery_id in
        ap sender_of sent.decodes
        ∙ rw
            (
              take-append-drop 32 (B.signature_to_bytes sent.signature),
              L.signature-bytes sent.key digest sent.signature sent.recovery_id wide sent.signed,
              L.recovery_id-parity sent.key digest sent.signature sent.recovery_id sent.signed
                  sent.representable,
              L.recover-sign sent.key digest sent.signature sent.recovery_id wide sent.signed,
            )
            (ap some ((E.same_key_iff (public_key B sent.key) expected).0 sent.matching))
