-- ===== src/Ceremony/Entry.antt =====
-- crates/wallet-core/src/ceremony.rs: the entry points that decode before they sign.
use fortresswallet.Base.{ℕ, List, Result, map_err}
use fortresswallet.Base
use fortresswallet.Base.Action.{Action, pure, raise, lift, reads, modify, ◌>>=◌, ◌>>◌}
use fortresswallet.Decoder.{DecodedTransaction, DecodeError, canonical_bytes, decode}
use fortresswallet.Policy.{
  PolicyEngine, PolicyDecision, DenialReason, approved, evaluate, record_approved,
}
use fortresswallet.Crypto.{sha256, Backend, PublicKey}
use fortresswallet.Crypto.Shamir.{Share}
use fortresswallet.Ceremony.Signing.{CeremonyError, sign_with_shares}

pub data TransactionSigningError : Type 0 where
  decode_failed : DecodeError → TransactionSigningError
  ceremony_failed : CeremonyError → TransactionSigningError

pub data PolicyGuardedSigningError : Type 0 where
  decode_failed : DecodeError → PolicyGuardedSigningError
  denied : DenialReason → PolicyGuardedSigningError
  queued : ℕ → PolicyGuardedSigningError
  ceremony_failed : CeremonyError → PolicyGuardedSigningError

-- The `match` on the decision: only an approval goes on.
abbrev pub require_approved :
    PolicyDecision → Action PolicyEngine PolicyGuardedSigningError (Unit {0})
require_approved approved = pure tt
require_approved (PolicyDecision.denied reason) = raise (denied reason)
require_approved (PolicyDecision.queued release_at) = raise (queued release_at)

module _ (B : Backend) where
  abbrev pub digest_of : DecodedTransaction → List ℕ
  digest_of tx = sha256 B (canonical_bytes tx)

  unfoldable pub sign_transaction :
      List ℕ → List Share → PublicKey B → Result B.Signature TransactionSigningError
  sign_transaction raw_tx shares expected =
      Base.◌>>=◌ (map_err decode_failed (decode raw_tx)) (λ decoded.
        map_err ceremony_failed (sign_with_shares B shares expected (digest_of decoded)))

  unfoldable pub sign_transaction_with_policy :
      List ℕ
      → List Share
      → PublicKey B
      → ℕ
      → Action PolicyEngine PolicyGuardedSigningError B.Signature
  sign_transaction_with_policy raw_tx shares expected now = do
    decoded ← lift (map_err decode_failed (decode raw_tx))
    decision ← reads (λ policy. evaluate policy decoded now)
    require_approved decision
    let digest = digest_of decoded
    signature ← lift (map_err ceremony_failed (sign_with_shares B shares expected digest))
    modify (λ policy. record_approved policy decoded now)
    pure signature
