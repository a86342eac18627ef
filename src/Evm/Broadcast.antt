-- ===== src/Evm/Broadcast.antt =====
-- What the bytes that are sent to the network stand for.
use fortresswallet.Base.{
  map_err-ok, ℕ, ◌≤◌, ◌≡◌, sym, ap, subst, ◌∙◌, true, false, not, Bool-cases, inl, inr, List,
  length, length-take, length-drop, ok, ◌>>◌, >>=-eq-ok, fail_if, map_err, arith, if◌then◌else◌,
  Bool,
}
use fortresswallet.Decoder.Evm.{Rlp, UnsignedEip1559Tx, encode_signed, decode_signed}
use fortresswallet.Decoder.Evm.RoundTrip.{RlpLaws, IsFitting, IsSigned, decode_signed-encode_signed}
use fortresswallet.Crypto.{
  Backend, PrivateKey, PublicKey, public_key, verify_prehash, sign_prehash_recoverable,
}
use fortresswallet.Crypto.Shamir.{Share, reconstruct, reconstruct_and_verify}
use fortresswallet.Crypto.Shamir.Checks.{Quorum, reconstruct_and_verify_sound}
use fortresswallet.Ceremony.{
  reconstruction, signature_self_check_failed, sign_with_shares_recoverable,
}
use fortresswallet.Evm.{
  ceremony, unrepresentable_recovery_id, hash_for_signing, assemble, sign_and_encode,
}

module _ (B : Backend) (R : Rlp) where
  -- The bytes decode to this transaction with a signature that a quorum of shares of the expected
  -- key made on its hash, that verifies under that key and whose recovery id fits in one bit.
  pub record IsBroadcast (tx : UnsignedEip1559Tx) (shares : List Share) (expected : PublicKey B)
      (bytes : List ℕ) : Type 0 where
    pub quorum : Quorum shares
    pub key : PrivateKey B
    pub reconstructed : reconstruct B shares ≡ ok key
    pub matching : B.same_key (public_key B key) expected ≡ true
    pub signature : B.Signature
    pub recovery_id : B.RecoveryId
    pub signed : sign_prehash_recoverable B key (hash_for_signing B R tx) ≡ (signature, recovery_id)
    pub verified : verify_prehash B expected (hash_for_signing B R tx) signature ≡ true
    pub representable : B.is_x_reduced recovery_id ≡ false
    pub decodes : decode_signed R bytes ≡ ok (assemble B R tx signature recovery_id)

  checked_pair :
      (expected : PublicKey B) (digest : List ℕ) (pair result : B.Signature × B.RecoveryId)
      → (fail_if (not (verify_prehash B expected digest pair.0)) signature_self_check_failed
          >> ok pair)
        ≡ ok result
      → (pair ≡ result) × (verify_prehash B expected digest result.0 ≡ true)
  checked_pair expected digest pair result h =
      elim (Bool-cases (verify_prehash B expected digest pair.0)) [
        | inl good ↦
            let same : pair ≡ result = ground (arith, good, h) in
            (same, subst (λ r. verify_prehash B expected digest r.0 ≡ true) same good)
        | inr bad ↦ absurd (cc (bad, h))
      ]

  checked_recovery :
      (tx : UnsignedEip1559Tx) (pair : B.Signature × B.RecoveryId) (bytes : List ℕ)
      → (fail_if (B.is_x_reduced pair.1) unrepresentable_recovery_id
          >> ok (encode_signed R (assemble B R tx pair.0 pair.1)))
        ≡ ok bytes
      → (B.is_x_reduced pair.1 ≡ false) × (encode_signed R (assemble B R tx pair.0 pair.1) ≡ bytes)
  checked_recovery tx pair bytes h = ground arith

  parity_bound : (odd : Bool) → (if odd then 1 else 0) ≤ 1
  parity_bound true = omega arith
  parity_bound false = omega arith

  assembled :
      (tx : UnsignedEip1559Tx) (signature : B.Signature) (recovery_id : B.RecoveryId)
      → IsFitting tx
      → length (B.signature_to_bytes signature) ≡ 64
      → IsSigned (assemble B R tx signature recovery_id)
  assembled tx signature recovery_id fits width = record {
    fits = fits;
    y_parity_bound = parity_bound (B.is_y_odd recovery_id);
    r_length = ground (arith, width, length-take 32 (B.signature_to_bytes signature));
    s_length = ground (arith, width, length-drop 32 (B.signature_to_bytes signature));
  }

  -- Under the laws of RLP, where the transaction fits its types and signatures have 64 bytes,
  -- bytes that signing returns decode to the given transaction with a signature on its hash that a
  -- quorum of shares made and that verifies under the expected key.
  pub sign_and_encode-IsBroadcast :
      (rlp : RlpLaws R) (widths : (s : B.Signature) → length (B.signature_to_bytes s) ≡ 64)
      (tx : UnsignedEip1559Tx) (shares : List Share) (expected : PublicKey B) (bytes : List ℕ)
      → IsFitting tx
      → sign_and_encode B R tx shares expected ≡ ok bytes
      → IsBroadcast tx shares expected bytes
  unfolding sign_and_encode sign_with_shares_recoverable
  sign_and_encode-IsBroadcast rlp widths tx shares expected bytes fits h =
      let digest = hash_for_signing B R tx in
      let (pair, made, rest) =
        >>=-eq-ok (map_err ceremony (sign_with_shares_recoverable B shares expected digest)) _ h in
      let (representable, written) = checked_recovery tx pair bytes rest in
      let (key, found, checks) =
        >>=-eq-ok (map_err reconstruction (reconstruct_and_verify B shares expected)) _
          (map_err-ok ceremony _ pair made) in
      let (quorum, reconstructed, matching) =
        reconstruct_and_verify_sound B shares expected key
          (map_err-ok reconstruction _ key found) in
      let (signed, verified) =
        checked_pair expected digest (sign_prehash_recoverable B key digest) pair checks in
      record {
        quorum = quorum;
        key = key;
        reconstructed = reconstructed;
        matching = matching;
        signature = pair.0;
        recovery_id = pair.1;
        signed = signed;
        verified = verified;
        representable = representable;
        decodes =
            ap (decode_signed R) (sym written)
            ∙ decode_signed-encode_signed R rlp (assemble B R tx pair.0 pair.1)
                (assembled tx pair.0 pair.1 fits (widths pair.0));
      }
