-- ===== src/Ceremony/Stall.antt =====
-- A policy engine that knows no destination, behind the guarded entry point.
use fortresswallet.Base.{
  ℕ, ◌≡◌, ◌≢◌, refl, ap, ◌∙◌, some, List, [], ◌∷◌, All, Result, ok, err, panic,
}
use fortresswallet.Decoder.{DecodedTransaction}
use fortresswallet.Policy.{PolicyConfig, PolicyEngine, approved, new, evaluate, contains}
use fortresswallet.Policy.Edges.{unknown-evaluate}
use fortresswallet.Crypto.{Backend, PublicKey}
use fortresswallet.Crypto.Shamir.{Share}
use fortresswallet.Ceremony.Entry.{
  PolicyGuardedSigningError, decode_failed, denied, queued, ceremony_failed,
  sign_transaction_with_policy,
}
use fortresswallet.Ceremony.Guarded.{Meaning, sign_transaction_with_policy-Meaning}

module _ (B : Backend) where
  pub record Request : Type 0 where
    pub raw_tx : List ℕ
    pub shares : List Share
    pub expected : PublicKey B
    pub now : ℕ

  abbrev pub Ending : Type 0
  Ending = Result B.Signature PolicyGuardedSigningError

  abbrev pub submit : Request → PolicyEngine → Ending × PolicyEngine
  submit r = sign_transaction_with_policy B r.raw_tx r.shares r.expected r.now

  -- Requests one after the other on one engine, with their results.
  abbrev pub serve : PolicyEngine → List Request → List Ending × PolicyEngine
  serve policy [] = ([], policy)
  serve policy (r ∷ requests) =
      let (end, after) = submit r policy in
      let (ends, last) = serve after requests in (end ∷ ends, last)

  abbrev pub IsUnsigned : Ending → Type 0
  IsUnsigned (ok signature) = ⊥
  IsUnsigned (err e) = Unit
  IsUnsigned panic = Unit

  nothing_known :
      (policy : PolicyEngine) (tx : DecodedTransaction) (now : ℕ)
      → policy.known_destinations ≡ []
      → evaluate policy tx now ≢ some approved
  nothing_known policy tx now e = unknown-evaluate policy tx now (rw e (unfold contains in refl))

  unsigned :
      (r : Request) (policy : PolicyEngine) (end : Ending) (after : PolicyEngine)
      → policy.known_destinations ≡ []
      → Meaning B r.raw_tx r.shares r.expected r.now policy (end, after)
      → IsUnsigned end × (after ≡ policy)
  unsigned r policy (ok signature) after k m = absurd (nothing_known policy m.0 r.now k m.2)
  unsigned r policy (err (decode_failed e)) after k m = (tt, m.1)
  unsigned r policy (err (denied reason)) after k m = (tt, m.3)
  unsigned r policy (err (queued release_at)) after k m = (tt, m.3)
  unsigned r policy (err (ceremony_failed e)) after k m = (tt, m.4)
  unsigned r policy panic after k m = (tt, m)

  serve_stalls :
      (policy : PolicyEngine) (requests : List Request)
      → policy.known_destinations ≡ []
      → All IsUnsigned (serve policy requests).0 × ((serve policy requests).1 ≡ policy)
  serve_stalls policy [] k = (tt, refl)
  serve_stalls policy (r ∷ requests) k =
      let (no_signature, same) =
        unsigned r policy (submit r policy).0 (submit r policy).1 k
          (sign_transaction_with_policy-Meaning B r.raw_tx r.shares r.expected r.now policy) in
      let (rest, last) =
        serve_stalls (submit r policy).1 requests (ap (λ p. p.known_destinations) same ∙ k) in
      ((no_signature, rest), last ∙ same)

  -- From a new engine the guarded entry point never signs: whatever transactions are submitted, at
  -- whatever times, as often as the caller retries, each is refused, queued or fails, and the
  -- engine stays as it was.
  pub new-never_signs :
      (config : PolicyConfig) (requests : List Request)
      → All IsUnsigned (serve (new config) requests).0
        × ((serve (new config) requests).1 ≡ new config)
  new-never_signs config requests = serve_stalls (new config) requests (unfold new in refl)
