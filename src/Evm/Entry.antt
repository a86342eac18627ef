-- ===== src/Evm/Entry.antt =====
-- crates/wallet-core/src/evm.rs: the policy-guarded entry point.
use fortresswallet.Base.{ℕ, List, map_err}
use fortresswallet.Base.Action.{Action, pure, raise, lift, reads, modify, ◌>>=◌, ◌>>◌}
use fortresswallet.Decoder.{DecodedTransaction}
use fortresswallet.Decoder.Evm.{Rlp, UnsignedEip1559Tx}
use fortresswallet.Policy.{
  PolicyEngine, PolicyDecision, DenialReason, approved, evaluate, record_approved,
}
use fortresswallet.Crypto.{Backend, PublicKey}
use fortresswallet.Crypto.Shamir.{Share}
use fortresswallet.Evm.{EvmCeremonyError, sign_and_encode}

pub data EvmSigningError : Type 0 where
  denied : DenialReason → EvmSigningError
  queued : ℕ → EvmSigningError
  ceremony_failed : EvmCeremonyError → EvmSigningError

-- What the policy sees of a transaction.
abbrev pub policy_view : UnsignedEip1559Tx → DecodedTransaction
policy_view tx = record { chain_id = tx.chain_id; to = tx.to; value = tx.value }

-- The `match` on the decision.
abbrev pub require_approval : PolicyDecision → Action PolicyEngine EvmSigningError (Unit {0})
require_approval approved = pure tt
require_approval (PolicyDecision.denied reason) = raise (denied reason)
require_approval (PolicyDecision.queued release_at) = raise (queued release_at)

unfoldable pub sign_evm_transfer_with_policy :
    (B : Backend)
    → Rlp
    → UnsignedEip1559Tx
    → List Share
    → PublicKey B
    → ℕ
    → Action PolicyEngine EvmSigningError (List ℕ)
sign_evm_transfer_with_policy B R tx shares expected now = do
  decision ← reads (λ policy. evaluate policy (policy_view tx) now)
  require_approval decision
  encoded ← lift (map_err ceremony_failed (sign_and_encode B R tx shares expected))
  modify (λ policy. record_approved policy (policy_view tx) now)
  pure encoded
