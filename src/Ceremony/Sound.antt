-- ===== src/Ceremony/Sound.antt =====
-- What a signature that a ceremony returns stands for.
use fortresswallet.Base.{
  ℕ, not, ◌≡◌, ◌≢◌, refl, sym, subst, true, List, All, ok, err, ◌>>◌, >>=-eq-ok, fail_if, map_err,
  map_err-ok, arith, inl, inr, Bool-cases, Result-cases, done, failed, panics,
}
use fortresswallet.Base.Bytes.{IsByte}
use fortresswallet.Decoder.{DecodedTransaction, encode_transfer, decode}
use fortresswallet.Decoder.RoundTrip.{IsTransaction, encode_transfer-decode}
use fortresswallet.Crypto.{
  Backend, EcdsaLaws, PrivateKey, PublicKey, public_key, sign_prehash, verify_prehash,
}
use fortresswallet.Crypto.Shamir.{Share, reconstruct, reconstruct_and_verify}
use fortresswallet.Crypto.Shamir.Checks.{Quorum, reconstruct_and_verify_sound}
use fortresswallet.Ceremony.Signing.{reconstruction, signature_self_check_failed, sign_with_shares}
use fortresswallet.Ceremony.Entry.{TransactionSigningError, digest_of, sign_transaction}

module _ (B : Backend) where
  -- The signature is the reconstructed key's on this digest, by a quorum of shares, for the
  -- expected public key, and it has been verified against that key.
  pub record IsSignedBy (shares : List Share) (expected : PublicKey B) (digest : List ℕ)
      (signature : B.Signature) : Type 0 where
    pub quorum : Quorum shares
    pub key : PrivateKey B
    pub reconstructed : reconstruct B shares ≡ ok key
    pub expected_key : B.same_key (public_key B key) expected ≡ true
    pub signed : signature ≡ sign_prehash B key digest
    pub verified : verify_prehash B expected digest signature ≡ true

  checked_signature :
      (expected : PublicKey B) (digest : List ℕ) (s signature : B.Signature)
      → (fail_if (not (verify_prehash B expected digest s)) signature_self_check_failed >> ok s)
        ≡ ok signature
      → (signature ≡ s) × (verify_prehash B expected digest signature ≡ true)
  checked_signature expected digest s signature h =
      elim (Bool-cases (verify_prehash B expected digest s)) [
        | inl good ↦
            let same : s ≡ signature = ground arith in
            (sym same, subst (λ t. verify_prehash B expected digest t ≡ true) same good)
        | inr bad ↦ ground arith
      ]

  -- A signature is returned only by a quorum of shares of the expected key, and it verifies.
  sign_with_shares_sound :
      (shares : List Share) (expected : PublicKey B) (digest : List ℕ) (signature : B.Signature)
      → sign_with_shares B shares expected digest ≡ ok signature
      → IsSignedBy shares expected digest signature
  unfolding sign_with_shares
  sign_with_shares_sound shares expected digest signature h =
      let (key, made, rest) =
        >>=-eq-ok (map_err reconstruction (reconstruct_and_verify B shares expected)) _ h in
      let (quorum, reconstructed, expected_key) =
        reconstruct_and_verify_sound B shares expected key (map_err-ok reconstruction _ key made) in
      let (signed, verified) =
        checked_signature expected digest (sign_prehash B key digest) signature rest in
      record {
        quorum = quorum;
        key = key;
        reconstructed = reconstructed;
        expected_key = expected_key;
        signed = signed;
        verified = verified;
      }

  -- A signed transaction was decoded first: its bytes are the one encoding of a transfer, and the
  -- signature is over the canonical bytes of that transfer.
  pub sign_transaction_sound :
      (raw_tx : List ℕ) (shares : List Share) (expected : PublicKey B) (signature : B.Signature)
      → All IsByte raw_tx
      → sign_transaction B raw_tx shares expected ≡ ok signature
      → (tx : DecodedTransaction) × (encode_transfer tx.chain_id tx.to tx.value ≡ raw_tx)
        × IsTransaction tx
        × IsSignedBy shares expected (digest_of B tx) signature
  unfolding sign_transaction
  sign_transaction_sound raw_tx shares expected signature bytes h =
      let (tx, decoded, rest) =
        >>=-eq-ok (map_err TransactionSigningError.decode_failed (decode raw_tx)) _ h in
      let (encoded, fields) = encode_transfer-decode raw_tx tx bytes (map_err-ok _ _ tx decoded) in
      (
        tx,
        encoded,
        fields,
        sign_with_shares_sound shares expected (digest_of B tx) signature
            (map_err-ok TransactionSigningError.ceremony_failed _ signature rest),
      )

  verifies_expected :
      (laws : EcdsaLaws B) (key : PrivateKey B) (expected : PublicKey B) (digest : List ℕ)
      → B.same_key (public_key B key) expected ≡ true
      → verify_prehash B expected digest (sign_prehash B key digest) ≡ true
  verifies_expected laws key expected digest same =
      let e = (laws.same_key_iff (public_key B key) expected).0 same in
      subst (λ k. verify_prehash B k digest (sign_prehash B key digest) ≡ true) e
        (laws.verify-sign key digest)

  -- Under the laws of ECDSA, shares that reconstruct a key sign as the key itself does, under its
  -- public key.
  pub sign_with_shares_complete :
      (laws : EcdsaLaws B) (shares : List Share) (key : PrivateKey B) (digest : List ℕ)
      → reconstruct B shares ≡ ok key
      → sign_with_shares B shares (public_key B key) digest ≡ ok (sign_prehash B key digest)
  unfolding sign_with_shares reconstruct_and_verify
  sign_with_shares_complete laws shares key digest made =
      let same = (laws.same_key_iff (public_key B key) (public_key B key)).1 refl in
      rw (made, same, laws.verify-sign key digest)

  -- Under the laws of ECDSA, the fail-closed self check is never what refuses a signature.
  self_check_unreachable :
      (laws : EcdsaLaws B) (shares : List Share) (expected : PublicKey B) (digest : List ℕ)
      → sign_with_shares B shares expected digest ≢ err signature_self_check_failed
  unfolding sign_with_shares
  self_check_unreachable laws shares expected digest h =
      elim (Result-cases (reconstruct_and_verify B shares expected)) [
        | done key e ↦
            let (_, _, same) = reconstruct_and_verify_sound B shares expected key e in
            cc (e, verifies_expected laws key expected digest same, h)
        | failed r e ↦ cc (e, h)
        | panics e ↦ cc (e, h)
      ]
