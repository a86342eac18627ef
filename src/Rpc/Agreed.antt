-- ===== src/Rpc/Agreed.antt =====
-- What several nodes agree on.
use fortresswallet.Base.{
  ℕ, ◌≡◌, sym, ap, subst, Bool, Bool-cases, inl, inr, not, List, ◌==◌, ==_iff, ok, map_err-ok,
  fail_if, arith,
}
use fortresswallet.Base.Action.{Action, pure, lift, ◌>>=◌, map_action, map_action-ok, bind-eq-ok}
use fortresswallet.Rpc.{
  Endpoint, Untrusted, CrossCheckError, trust, trusted, try_cross_check, corroborated,
}
use fortresswallet.Rpc.CrossCheck.{Corroborated, try_cross_check_iff}

module _ {S E A : Type 0} (query : Endpoint → Action S E (Untrusted A)) where
  -- The value is what the primary claimed, and every other endpoint, asked after it, gave the same.
  pub record IsAgreed (same : A → A → Bool) (primary : Endpoint) (rest : List Endpoint) (s : S)
      (v : A) (end : S) : Type 0 where
    pub claim : Untrusted A
    pub asked : (query primary s).0 ≡ ok claim
    pub value : v ≡ claim.value
    pub others : Corroborated same claim (λ e. trusted (query e)) rest (query primary s).1 end

pub trusted-ok :
    {S E A : Type 0} (query : Action S E (Untrusted A)) (s : S) (v : A)
    → (trusted query s).0 ≡ ok v
    → (u : Untrusted A) × ((query s).0 ≡ ok u) × (v ≡ u.value) × ((trusted query s).1 ≡ (query s).1)
trusted-ok query s v h =
    let (u, e, h1) =
      bind-eq-ok query (λ u. pure (trust u)) s (trusted query s).1 v
        (ap (λ r. (r, (trusted query s).1)) h) in
    (u, e, ground (arith, ap (λ p. p.0) h1), sym (ap (λ p. p.1) h1))

pub corroborated-IsAgreed :
    {S E X A : Type 0} (query_error : E → X) (check_error : CrossCheckError E → X)
    (same : A → A → Bool) (query : Endpoint → Action S E (Untrusted A)) (primary : Endpoint)
    (rest : List Endpoint) (s end : S) (v : A)
    → corroborated query_error check_error same query primary rest s ≡ (ok v, end)
    → IsAgreed query same primary rest s v end
unfolding corroborated
corroborated-IsAgreed {S} {E} {X} {A} query_error check_error same query primary rest s end v h =
    let check : Untrusted A → Action S X A =
      λ claim. map_action check_error (try_cross_check same claim rest (λ e. trusted (query e))) in
    let (claim, e1, h1) = bind-eq-ok (map_action query_error (query primary)) check s end v h in
    let (value, others) =
      (try_cross_check_iff same claim (λ e. trusted (query e)) rest (query primary s).1 end v).0 (
        map_action-ok check_error (try_cross_check same claim rest (λ e. trusted (query e))) _ end v
          h1) in
    record {
      claim = claim;
      asked = map_err-ok query_error (query primary s).0 claim e1;
      value = value;
      others = others;
    }

-- A check that goes on only with the expected number has that number agreed on.
pub expected-IsAgreed :
    {S E X : Type 0} (query_error : E → X) (check_error : CrossCheckError E → X) (error : ℕ → X)
    (query : Endpoint → Action S E (Untrusted ℕ)) (primary : Endpoint) (rest : List Endpoint)
    (expected : ℕ) (s end : S) (u : Unit {0})
    → (corroborated query_error check_error (λ a b. a == b) query primary rest >>= λ verified.
          lift (fail_if (not (verified == expected)) (error verified)))
        s
      ≡ (ok u, end)
    → IsAgreed query (λ a b. a == b) primary rest s expected end
expected-IsAgreed {S} {E} {X} query_error check_error error query primary rest expected s end u h =
    let compared : ℕ → Action S X (Unit {0}) =
      λ verified. lift (fail_if (not (verified == expected)) (error verified)) in
    let ask = corroborated query_error check_error (λ a b. a == b) query primary rest in
    let (verified, e1, h1) = bind-eq-ok ask compared s end u h in
    let same : verified ≡ expected = elim (Bool-cases (verified == expected)) [
      | inl equal ↦ (==_iff verified expected).0 equal
      | inr differs ↦ absurd (ground (arith, differs, h1))
    ] in
    let after = (ask s).1 in
    let agreed =
      corroborated-IsAgreed query_error check_error (λ a b. a == b) query primary rest s after
        verified (ap (λ r. (r, after)) e1) in
    subst (λ t. IsAgreed query (λ a b. a == b) primary rest s expected t) (ap (λ p. p.1) h1)
      (subst (λ v. IsAgreed query (λ a b. a == b) primary rest s v after) same agreed)
