-- ===== src/Ceremony/Refined.antt =====
-- The guarded ceremony over shares against a signer that holds the key itself.
use fortresswallet.Base.{
  ℕ, ◌≤◌, Option, none, some, err, panic, Result-cases, done, failed, panics, arith, ◌≡◌, refl, sym,
  ap, ap₂, ◌∙◌, subst, List, [], ◌∷◌, All, Result, ok, map_err,
}
use fortresswallet.Base.Action.{Action, pure, lift, reads, modify, ◌>>=◌, ◌>>◌}
use mathlib.Core.Path.{fun_ext}
use fortresswallet.Decoder.{DecodedTransaction, decode}
use fortresswallet.Policy.{PolicyEngine, PolicyDecision, approved, evaluate, record_approved}
use fortresswallet.Policy.History.{IsPast}
use fortresswallet.Policy.Prune.{
  record_unpruned, Same, Same-evaluate, Same-record, Same-later, Same-refl,
}
use fortresswallet.Crypto.{Backend, EcdsaLaws, PrivateKey, public_key, sign_prehash}
use fortresswallet.Crypto.Shamir.Field.{ScalarLaws}
use fortresswallet.Crypto.Shamir.Recovered.{KeyLaws}
use fortresswallet.Ceremony.Signing.{CeremonyError, sign_with_shares}
use fortresswallet.Ceremony.Entry.{
  PolicyGuardedSigningError, decode_failed, denied, queued, ceremony_failed, require_approved,
  digest_of, sign_transaction_with_policy,
}
use fortresswallet.Ceremony.Dealt.{IsDealt, IsDealt-sign_with_shares}
use fortresswallet.Ceremony.Stall.{Request, Ending, submit, serve}

module _ (B : Backend) where
  -- The policy in front of one key, with no shares and no ceremony. What it records an approval with
  -- is left open.
  unfoldable pub key_signer :
      (PolicyEngine → DecodedTransaction → ℕ → PolicyEngine)
      → PrivateKey B
      → List ℕ
      → ℕ
      → Action PolicyEngine PolicyGuardedSigningError B.Signature
  key_signer recorded key raw_tx now = do
    decoded ← lift (map_err decode_failed (decode raw_tx))
    decision ← reads (λ policy. evaluate policy decoded now)
    require_approved decision
    modify (λ policy. recorded policy decoded now)
    pure (sign_prehash B key (digest_of B decoded))

  abbrev pub promised_with :
      (PolicyEngine → DecodedTransaction → ℕ → PolicyEngine)
      → PrivateKey B
      → PolicyEngine
      → List (Request B)
      → List (Ending B) × PolicyEngine
  promised_with recorded key policy [] = ([], policy)
  promised_with recorded key policy (r ∷ requests) =
      let (end, after) = key_signer recorded key r.raw_tx r.now policy in
      let (ends, last) = promised_with recorded key after requests in (end ∷ ends, last)

  -- What the wallet promises: a signer that holds the key itself and forgets nothing that it has
  -- approved.
  abbrev pub promised : PrivateKey B → PolicyEngine → List (Request B) → List (Ending B)
  promised key policy requests = (promised_with record_unpruned key policy requests).0

  -- The requests come one after the other, none before `clock`.
  abbrev pub InOrder : ℕ → List (Request B) → Type 0
  InOrder clock [] = Unit
  InOrder clock (r ∷ requests) = (clock ≤ r.now) × InOrder r.now requests

  -- The guarded entry point with what signs left open.
  guarded :
      (List ℕ → Result B.Signature CeremonyError)
      → List ℕ
      → ℕ
      → Action PolicyEngine PolicyGuardedSigningError B.Signature
  guarded signs raw_tx now = do
    decoded ← lift (map_err decode_failed (decode raw_tx))
    decision ← reads (λ policy. evaluate policy decoded now)
    require_approved decision
    signature ← lift (map_err ceremony_failed (signs (digest_of B decoded)))
    modify (λ policy. record_approved policy decoded now)
    pure signature

-- The request holds a quorum of shares of the key.
abbrev pub IsEntitled : (B : Backend) → PrivateKey B → Request B → Type 0
IsEntitled B key r = IsDealt B key r.shares × (r.expected ≡ public_key B key)

module _ (B : Backend) (S : ScalarLaws B) (K : KeyLaws B) (E : EcdsaLaws B) where
  submit_refines :
      (key : PrivateKey B) (r : Request B) (policy : PolicyEngine)
      → IsEntitled B key r
      → submit B r policy ≡ key_signer B record_approved key r.raw_tx r.now policy
  unfolding sign_transaction_with_policy guarded key_signer
  submit_refines key r policy (dealt, expected) =
      let same : sign_with_shares B r.shares r.expected
          ≡ (λ digest. ok (sign_prehash B key digest)) =
        fun_ext (λ digest.
          ap (λ k. sign_with_shares B r.shares k digest) expected
          ∙ IsDealt-sign_with_shares B S K E key r.shares digest dealt) in
      ap (λ signs. guarded B signs r.raw_tx r.now policy) same

  serve-promised_with :
      (key : PrivateKey B) (policy : PolicyEngine) (requests : List (Request B))
      → All (IsEntitled B key) requests
      → serve B policy requests ≡ promised_with B record_approved key policy requests
  serve-promised_with key policy [] h = refl
  serve-promised_with key policy (r ∷ requests) (entitled, later) =
      ap (λ p. (p.0 ∷ (serve B p.1 requests).0, (serve B p.1 requests).1))
        (submit_refines key r policy entitled)
      ∙ ap (λ t. ((key_signer B record_approved key r.raw_tx r.now policy).0 ∷ t.0, t.1))
          (serve-promised_with key (key_signer B record_approved key r.raw_tx r.now policy).1
            requests later)

module _ (B : Backend) (key : PrivateKey B) where
  abbrev Alike : ℕ → Ending B × PolicyEngine → Ending B × PolicyEngine → Type 0
  Alike now x y = (x.0 ≡ y.0) × Same now x.1 y.1

  alike :
      (now : ℕ) (x x' y y' : Ending B × PolicyEngine)
      → x ≡ x'
      → y ≡ y'
      → Alike now x' y'
      → Alike now x y
  alike now x x' y y' hx hy h =
      subst (λ z. Alike now z y) (sym hx) (subst (λ z. Alike now x' z) (sym hy) h)

  decided :
      (raw_tx : List ℕ) (tx : DecodedTransaction) (clock now : ℕ) (a b : PolicyEngine)
      (decision : Option PolicyDecision)
      → decode raw_tx ≡ ok tx
      → evaluate a tx now ≡ decision
      → evaluate b tx now ≡ decision
      → Same clock a b
      → clock ≤ now
      → Alike now
          (key_signer B record_approved key raw_tx now a)
          (key_signer B record_unpruned key raw_tx now b)
  unfolding key_signer
  decided raw_tx tx clock now a b none d ea eb s le =
      alike now _ (panic, a) _ (panic, b) (ground (arith, d, ea)) (ground (arith, d, eb))
        (refl, Same-later now s le)
  decided raw_tx tx clock now a b (some approved) d ea eb s le =
      let signature = sign_prehash B key (digest_of B tx) in
      alike now _ (ok signature, record_approved a tx now) _
        (ok signature, record_unpruned b tx now) (ground (arith, d, ea)) (ground (arith, d, eb))
        (refl, Same-record tx now s le)
  decided raw_tx tx clock now a b (some (PolicyDecision.denied reason)) d ea eb s le =
      alike now _ (err (denied reason), a) _ (err (denied reason), b) (ground (arith, d, ea))
        (ground (arith, d, eb)) (refl, Same-later now s le)
  decided raw_tx tx clock now a b (some (PolicyDecision.queued release_at)) d ea eb s le =
      alike now _ (err (queued release_at), a) _ (err (queued release_at), b)
        (ground (arith, d, ea)) (ground (arith, d, eb)) (refl, Same-later now s le)

  key_signer-Alike :
      (raw_tx : List ℕ) (clock now : ℕ) (a b : PolicyEngine)
      → Same clock a b
      → clock ≤ now
      → Alike now
          (key_signer B record_approved key raw_tx now a)
          (key_signer B record_unpruned key raw_tx now b)
  unfolding key_signer
  key_signer-Alike raw_tx clock now a b s le = elim (Result-cases (decode raw_tx)) [
    | done tx d ↦
        decided raw_tx tx clock now a b (evaluate b tx now) d (Same-evaluate tx now s le) refl s le
    | failed e d ↦
        alike now _ (err (decode_failed e), a) _ (err (decode_failed e), b) (ground (arith, d))
          (ground (arith, d)) (refl, Same-later now s le)
    | panics d ↦
        alike now _ (panic, a) _ (panic, b) (ground (arith, d)) (ground (arith, d))
          (refl, Same-later now s le)
  ]

  promised_with-Same :
      (clock : ℕ) (a b : PolicyEngine) (requests : List (Request B))
      → Same clock a b
      → InOrder B clock requests
      → (promised_with B record_approved key a requests).0 ≡ promised B key b requests
  promised_with-Same clock a b [] s h = refl
  promised_with-Same clock a b (r ∷ requests) s (le, later) =
      let (same, next) = key_signer-Alike r.raw_tx clock r.now a b s le in
      ap₂ ◌∷◌ same (
        promised_with-Same r.now (key_signer B record_approved key r.raw_tx r.now a).1
          (key_signer B record_unpruned key r.raw_tx r.now b).1 requests next later)

module _ (B : Backend) (S : ScalarLaws B) (K : KeyLaws B) (E : EcdsaLaws B) where
  -- Over every sequence of requests whose times do not go back, each with a quorum of shares of the
  -- key, of whichever split and in whichever order, the guarded ceremony ends each of them as a signer
  -- does that holds the key itself and keeps every approval for good: neither the shares nor the
  -- pruned history add a refusal, take one away, or change a signature.
  pub serve-promised :
      (key : PrivateKey B) (policy : PolicyEngine) (clock : ℕ) (requests : List (Request B))
      → All (IsEntitled B key) requests
      → IsPast clock policy.history
      → InOrder B clock requests
      → (serve B policy requests).0 ≡ promised B key policy requests
  serve-promised key policy clock requests entitled past ordered =
      ap (λ p. p.0) (serve-promised_with B S K E key policy requests entitled)
      ∙ promised_with-Same B key clock policy policy requests (Same-refl policy clock past) ordered
