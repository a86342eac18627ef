-- ===== src/Rpc.antt =====
-- crates/wallet-rpc/src/lib.rs: values that one node claims, and their check against other nodes.
-- The text of an endpoint is the list of its bytes. A query of a node is an action on the world,
-- since it goes over the network.
pub mod CrossCheck
pub mod Agreed
pub mod Encoding
pub mod Client
use fortresswallet.Base.{
  ℕ, Bool, true, false, not, List, [], ◌∷◌, if◌then◌else◌, Result, ok, err, panic,
}
use fortresswallet.Base.Action.{map_action, Action, pure, ◌>>=◌, ◌>>◌}

pub record Endpoint : Type 0 where
  pub url : List ℕ

pub record Untrusted (T : Type 0) : Type 0 where
  pub value : T
  pub source : Endpoint

pub record RpcDisagreement : Type 0 where
  pub primary : Endpoint
  pub disagreeing : Endpoint

pub data CrossCheckError (E : Type 0) : Type 0 where
  query_failed : Endpoint → E → CrossCheckError E
  disagreement : RpcDisagreement → CrossCheckError E

module _ {T : Type 0} where
  abbrev pub trust : Untrusted T → T
  trust u = u.value

  -- `same` is the `PartialEq` of the value's type.
  unfoldable pub cross_check :
      (T → T → Bool) → Untrusted T → List Endpoint → (Endpoint → T) → Result T RpcDisagreement
  cross_check same u [] query = ok u.value
  cross_check same u (e ∷ others) query =
      let rest = cross_check same u others query in
      if same (query e) u.value then rest else err (record { primary = u.source; disagreeing = e })

  -- `query(endpoint).map_err(…)?` and the comparison.
  abbrev pub confirm :
      {E : Type 0}
      → (T → T → Bool)
      → Untrusted T
      → Endpoint
      → Result T E
      → Result (Unit {0}) (CrossCheckError E)
  confirm same u e (err x) = err (query_failed e x)
  confirm same u e panic = panic
  confirm same u e (ok value) =
      if same value u.value
      then ok tt
      else err (disagreement (record { primary = u.source; disagreeing = e }))

  unfoldable pub try_cross_check :
      {S E : Type 0}
      → (T → T → Bool)
      → Untrusted T
      → List Endpoint
      → (Endpoint → Action S E T)
      → Action S (CrossCheckError E) T
  try_cross_check same u [] query = pure u.value
  try_cross_check same u (e ∷ others) query = do
    (λ s. let (r, after) = query e s in (confirm same u e r, after))
    try_cross_check same u others query

-- `.map(Untrusted::trust)`
abbrev pub trusted : {S E T : Type 0} → Action S E (Untrusted T) → Action S E T
trusted query = do u ← query; pure (trust u)

-- The primary's value, where every other endpoint gives the same, with the conversions of the
-- errors of the primary's query and of the check.
unfoldable pub corroborated :
    {S E X T : Type 0}
    → (E → X)
    → (CrossCheckError E → X)
    → (T → T → Bool)
    → (Endpoint → Action S E (Untrusted T))
    → Endpoint
    → List Endpoint
    → Action S X T
corroborated query_error check_error same query primary rest = do
  claim ← map_action query_error (query primary)
  map_action check_error (try_cross_check same claim rest (λ e. trusted (query e)))
