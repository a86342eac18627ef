-- ===== src/Tests/Senders.antt =====
-- The sender of a payment of the small backend.
use fortresswallet.Base.{
  ℕ, ◌≡◌, refl, ap, subst, ◌∙◌, Option, none, some, List, [], ◌∷◌, ◌++◌, take, take-append,
  replicate, length, bytes_eq, bytes_eq_refl, if◌then◌else◌, arith, append_assoc, length-append,
  sym,
}
use fortresswallet.Base.Bytes.{length-to_be_bytes, from_be_bytes}
use fortresswallet.Decoder.Evm.{encode_signed}
use fortresswallet.Evm.Sender.{Recovery, RecoveryLaws, sender, sign_and_encode-sender}
use fortresswallet.Tests.Toy.{toy, toy_ecdsa, toy_widths}
use fortresswallet.Tests.Framing.{toy_rlp, toy_rlp_laws}
use fortresswallet.Tests.Signing.{two_shares}
use fortresswallet.Tests.Sending.{payment, payment-IsFitting, signed_payment, payment_signed}

-- A signature spells out its key, and then the digest.
abbrev spelled : List ℕ → List ℕ → Option ℕ
spelled digest [] = none
spelled digest (key ∷ rest) = if bytes_eq rest digest then some key else none

abbrev toy_recovery : Recovery toy
toy_recovery = record {
  recover = λ digest signature id. spelled digest signature;
  signature_from_bytes = λ bytes. some (take 33 bytes);
  recovery_id_from_byte = λ b. some b;
}

read_back :
    (signature : List ℕ)
    → length signature ≡ 33
    → take 33 (take 64 (signature ++ replicate 64 0)) ≡ signature
read_back signature wide =
    ap (λ z. take 33 (take 64 z)) (sym (append_assoc signature (replicate 31 0) (replicate 33 0)))
    ∙ ap (take 33) (
        take-append 64 (signature ++ replicate 31 0) (replicate 33 0)
          (omega (arith, wide, length-append signature (replicate 31 0))))
    ∙ take-append 33 signature (replicate 31 0) wide

toy_recovery_laws : RecoveryLaws toy toy_recovery
toy_recovery_laws = record {
  length-keccak256 = λ bytes. length-to_be_bytes 32 (from_be_bytes bytes);
  length-signature = toy_widths;
  signature-bytes = λ key digest s id wide e.
      subst (λ z. some (take 33 (take 64 (z ++ replicate 64 0))) ≡ some z) (ap (λ p. p.0) e)
        (ap some (read_back (key ∷ digest) (omega (arith, wide))));
  recovery_id-parity = λ key digest s id e reduced. ap (λ p. some p.1) e;
  recover-sign = λ key digest s id wide e.
      subst (λ z. spelled digest z ≡ some key) (ap (λ p. p.0) e) (rw (bytes_eq_refl digest) refl);
}

sign_and_encode-sender_example :
    sender toy toy_recovery toy_rlp (encode_signed toy_rlp signed_payment) ≡ some 42
sign_and_encode-sender_example =
    sign_and_encode-sender toy toy_recovery toy_rlp toy_rlp_laws toy_ecdsa toy_recovery_laws payment
      two_shares 42 (encode_signed toy_rlp signed_payment) payment-IsFitting payment_signed
