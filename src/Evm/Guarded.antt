-- ===== src/Evm/Guarded.antt =====
-- The policy-guarded EVM entry point: what each of its results says of the policy.
use fortresswallet.Base.{
  ℕ, ◌≡◌, refl, sym, subst, some, Option-cases, inl, inr, List, Result, ok, err, panic, arith,
  Result-cases, done, failed, panics,
}
use fortresswallet.Decoder.Evm.{Rlp, UnsignedEip1559Tx}
use fortresswallet.Policy.{PolicyEngine, PolicyDecision, approved, evaluate, record_approved}
use fortresswallet.Crypto.{Backend, PublicKey}
use fortresswallet.Crypto.Shamir.{Share}
use fortresswallet.Evm.{sign_and_encode}
use fortresswallet.Evm.Entry.{
  EvmSigningError, denied, queued, ceremony_failed, policy_view, sign_evm_transfer_with_policy,
}

module _ (B : Backend) (R : Rlp) (tx : UnsignedEip1559Tx) (shares : List Share)
    (expected : PublicKey B) (now : ℕ) where
  -- What a call that began with `policy` means, by how it ended.
  abbrev pub Judged : PolicyEngine → Result (List ℕ) EvmSigningError × PolicyEngine → Type 0
  Judged policy (ok encoded, after) =
      (evaluate policy (policy_view tx) now ≡ some approved)
      × (sign_and_encode B R tx shares expected ≡ ok encoded)
      × (after ≡ record_approved policy (policy_view tx) now)
  Judged policy (err (denied reason), after) =
      (evaluate policy (policy_view tx) now ≡ some (PolicyDecision.denied reason))
      × (after ≡ policy)
  Judged policy (err (queued release_at), after) =
      (evaluate policy (policy_view tx) now ≡ some (PolicyDecision.queued release_at))
      × (after ≡ policy)
  Judged policy (err (ceremony_failed e), after) =
      (evaluate policy (policy_view tx) now ≡ some approved)
      × (sign_and_encode B R tx shares expected ≡ err e)
      × (after ≡ policy)
  Judged policy (panic, after) = after ≡ policy

  judged :
      (policy : PolicyEngine) (end : Result (List ℕ) EvmSigningError × PolicyEngine)
      → sign_evm_transfer_with_policy B R tx shares expected now policy ≡ end
      → Judged policy end
      → Judged policy (sign_evm_transfer_with_policy B R tx shares expected now policy)
  judged policy end e h = subst (Judged policy) (sym e) h

  sent :
      (policy : PolicyEngine)
      → evaluate policy (policy_view tx) now ≡ some approved
      → Judged policy (sign_evm_transfer_with_policy B R tx shares expected now policy)
  unfolding sign_evm_transfer_with_policy
  sent policy e = elim (Result-cases (sign_and_encode B R tx shares expected)) [
    | done encoded s ↦
        judged policy (ok encoded, record_approved policy (policy_view tx) now)
          (ground (arith, e, s)) (e, s, refl)
    | failed r s ↦
        judged policy (err (ceremony_failed r), policy) (ground (arith, e, s)) (e, s, refl)
    | panics s ↦ judged policy (panic, policy) (ground (arith, e, s)) refl
  ]

  -- Policy first, then the ceremony: signed bytes are returned only for a transfer that the policy
  -- approved, and only then is it recorded; every error names the step that made it, after the steps
  -- before it had passed, and leaves the policy as it was, as a panic does.
  pub sign_evm_transfer_with_policy-Judged :
      (policy : PolicyEngine)
      → Judged policy (sign_evm_transfer_with_policy B R tx shares expected now policy)
  unfolding sign_evm_transfer_with_policy
  sign_evm_transfer_with_policy-Judged policy =
      elim (Option-cases (evaluate policy (policy_view tx) now)) [
        | inl e ↦ judged policy (panic, policy) (ground (arith, e)) refl
        | inr (approved, e) ↦ sent policy e
        | inr (PolicyDecision.denied reason, e) ↦
            judged policy (err (denied reason), policy) (ground (arith, e)) (e, refl)
        | inr (PolicyDecision.queued release_at, e) ↦
            judged policy (err (queued release_at), policy) (ground (arith, e)) (e, refl)
      ]
