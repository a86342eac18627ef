-- ===== src/Ceremony/Guarded.antt =====
-- The policy-guarded entry point: what each of its results says of the policy.
use fortresswallet.Base.{
  ℕ, ◌≡◌, refl, sym, subst, some, Option-cases, inl, inr, List, Result, ok, err, panic, arith,
  Result-cases, done, failed, panics,
}
use fortresswallet.Decoder.{DecodedTransaction, decode}
use fortresswallet.Policy.{PolicyEngine, PolicyDecision, approved, evaluate, record_approved}
use fortresswallet.Crypto.{Backend, PublicKey}
use fortresswallet.Crypto.Shamir.{Share}
use fortresswallet.Ceremony.Signing.{sign_with_shares}
use fortresswallet.Ceremony.Entry.{
  PolicyGuardedSigningError, decode_failed, denied, queued, ceremony_failed, digest_of,
  sign_transaction_with_policy,
}

module _ (B : Backend) (raw_tx : List ℕ) (shares : List Share) (expected : PublicKey B)
    (now : ℕ) where
  -- What a call that began with `policy` means, by how it ended.
  abbrev pub Meaning :
      PolicyEngine → Result B.Signature PolicyGuardedSigningError × PolicyEngine → Type 0
  Meaning policy (ok signature, after) =
      (tx : DecodedTransaction) × (decode raw_tx ≡ ok tx)
      × (evaluate policy tx now ≡ some approved)
      × (sign_with_shares B shares expected (digest_of B tx) ≡ ok signature)
      × (after ≡ record_approved policy tx now)
  Meaning policy (err (decode_failed e), after) = (decode raw_tx ≡ err e) × (after ≡ policy)
  Meaning policy (err (denied reason), after) =
      (tx : DecodedTransaction) × (decode raw_tx ≡ ok tx)
      × (evaluate policy tx now ≡ some (PolicyDecision.denied reason))
      × (after ≡ policy)
  Meaning policy (err (queued release_at), after) =
      (tx : DecodedTransaction) × (decode raw_tx ≡ ok tx)
      × (evaluate policy tx now ≡ some (PolicyDecision.queued release_at))
      × (after ≡ policy)
  Meaning policy (err (ceremony_failed e), after) =
      (tx : DecodedTransaction) × (decode raw_tx ≡ ok tx)
      × (evaluate policy tx now ≡ some approved)
      × (sign_with_shares B shares expected (digest_of B tx) ≡ err e)
      × (after ≡ policy)
  Meaning policy (panic, after) = after ≡ policy

  meaning :
      (policy : PolicyEngine) (end : Result B.Signature PolicyGuardedSigningError × PolicyEngine)
      → sign_transaction_with_policy B raw_tx shares expected now policy ≡ end
      → Meaning policy end
      → Meaning policy (sign_transaction_with_policy B raw_tx shares expected now policy)
  meaning policy end e h = subst (Meaning policy) (sym e) h

  signed :
      (policy : PolicyEngine) (tx : DecodedTransaction)
      → decode raw_tx ≡ ok tx
      → evaluate policy tx now ≡ some approved
      → Meaning policy (sign_transaction_with_policy B raw_tx shares expected now policy)
  unfolding sign_transaction_with_policy
  signed policy tx d e = elim (Result-cases (sign_with_shares B shares expected (digest_of B tx))) [
    | done signature s ↦
        meaning policy (ok signature, record_approved policy tx now) (ground (arith, d, e, s))
          (tx, d, e, s, refl)
    | failed r s ↦
        meaning policy (err (ceremony_failed r), policy) (ground (arith, d, e, s))
          (tx, d, e, s, refl)
    | panics s ↦ meaning policy (panic, policy) (ground (arith, d, e, s)) refl
  ]

  decided :
      (policy : PolicyEngine) (tx : DecodedTransaction) (decision : PolicyDecision)
      → decode raw_tx ≡ ok tx
      → evaluate policy tx now ≡ some decision
      → Meaning policy (sign_transaction_with_policy B raw_tx shares expected now policy)
  unfolding sign_transaction_with_policy
  decided policy tx approved d e = signed policy tx d e
  decided policy tx (PolicyDecision.denied reason) d e =
      meaning policy (err (denied reason), policy) (ground (arith, d, e)) (tx, d, e, refl)
  decided policy tx (PolicyDecision.queued release_at) d e =
      meaning policy (err (queued release_at), policy) (ground (arith, d, e)) (tx, d, e, refl)

  -- Decode, then policy, then the ceremony: a signature is returned only for a decoded transaction
  -- that the policy approved, and only then is it recorded; every error names the step that made
  -- it, after the steps before it had passed, and leaves the policy as it was, as a panic does.
  pub sign_transaction_with_policy-Meaning :
      (policy : PolicyEngine)
      → Meaning policy (sign_transaction_with_policy B raw_tx shares expected now policy)
  unfolding sign_transaction_with_policy
  sign_transaction_with_policy-Meaning policy = elim (Result-cases (decode raw_tx)) [
    | done tx d ↦ elim (Option-cases (evaluate policy tx now)) [
      | inl e ↦ meaning policy (panic, policy) (ground (arith, d, e)) refl
      | inr (decision, e) ↦ decided policy tx decision d e
    ]
    | failed r d ↦ meaning policy (err (decode_failed r), policy) (ground (arith, d)) (d, refl)
    | panics d ↦ meaning policy (panic, policy) (ground (arith, d)) refl
  ]
