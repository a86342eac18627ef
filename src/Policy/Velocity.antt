-- ===== src/Policy/Velocity.antt =====
-- The velocity limit over whole runs of an engine.
use fortresswallet.Base.{
  ℕ, ◌+◌, ◌≤◌, ◌<◌, ◌≡◌, refl, sym, ap, ◌∙◌, List, [], ◌∷◌, ◌++◌, some, arith, ◌==◌, if◌then◌else◌,
}
use fortresswallet.Decoder.{DecodedTransaction}
use fortresswallet.Policy.{
  PolicyConfig, PolicyEngine, PolicyDecision, approved, denied, queued, Entry, new, counts,
  window_total, evaluate, record_approved,
}
use fortresswallet.Policy.Clock.{u128_max}
use fortresswallet.Policy.History.{
  spent, IsPast, IsPast-filter, window_total-spent, spent-append, spent_later, spent-within,
}
use fortresswallet.Policy.Prune.{entry_of, IsPast-record}

-- Not denied: signed at once, or held by the caller and then signed.
abbrev pub IsAllowed : PolicyDecision → Type 0
IsAllowed approved = Unit
IsAllowed (denied _) = ⊥
IsAllowed (queued _) = Unit

-- The life of an engine up to `clock`, with the log of everything that it was told of. A
-- transaction is recorded when an evaluation at that time allows it, and the clock never goes back.
pub data Run : ℕ → PolicyEngine → List Entry → Type 0 where
  start : (config : PolicyConfig) → config.max_value_per_window < u128_max → Run 0 (new config) []
  spend :
      {clock : ℕ} {engine : PolicyEngine} {log : List Entry}
      → Run clock engine log
      → (tx : DecodedTransaction) (now : ℕ) (decision : PolicyDecision) → clock ≤ now
      → evaluate engine tx now ≡ some decision
      → IsAllowed decision
      → Run now (record_approved engine tx now) (log ++ (entry_of tx now ∷ []))

record Invariant (clock : ℕ) (engine : PolicyEngine) (log : List Entry) : Type 0 where
  limit : engine.config.max_value_per_window < u128_max
  past : IsPast clock engine.history
  past_log : IsPast clock log
  same :
      (chain_id now : ℕ)
      → clock ≤ now
      → spent engine.config chain_id now engine.history ≡ spent engine.config chain_id now log
  bounded :
      (chain_id : ℕ) → spent engine.config chain_id clock log ≤ engine.config.max_value_per_window

module _ {clock : ℕ} {engine : PolicyEngine} {log : List Entry}
    (inv : Invariant clock engine log) where
  bounded_later :
      (chain_id now : ℕ)
      → clock ≤ now
      → spent engine.config chain_id now log ≤ engine.config.max_value_per_window
  bounded_later chain_id now le = omega (
    arith,
    inv.bounded chain_id,
    spent_later engine.config chain_id clock now log le inv.past_log,
  )

  total_known :
      (chain_id now : ℕ)
      → clock ≤ now
      → window_total engine chain_id now ≡ some (spent engine.config chain_id now log)
  total_known chain_id now le =
      window_total-spent engine chain_id now
        (omega (arith, inv.limit, inv.same chain_id now le, bounded_later chain_id now le))
      ∙ ap some (inv.same chain_id now le)

-- What an evaluation allows fits under the limit.
allowed_fits :
    (engine : PolicyEngine) (tx : DecodedTransaction) (now total : ℕ) (decision : PolicyDecision)
    → window_total engine tx.chain_id now ≡ some total
    → engine.config.max_value_per_window < u128_max
    → evaluate engine tx now ≡ some decision
    → IsAllowed decision
    → total + tx.value ≤ engine.config.max_value_per_window
unfolding evaluate
allowed_fits engine tx now total approved t b e a = ground arith
allowed_fits engine tx now total (denied r) t b e a = absurd a
allowed_fits engine tx now total (queued r) t b e a = ground arith

-- A new entry adds its value on its own chain, and nothing on any other.
spent-entry_of :
    (config : PolicyConfig) (tx : DecodedTransaction) (now chain_id : ℕ)
    → spent config chain_id now (entry_of tx now ∷ [])
      ≡ (if tx.chain_id == chain_id then tx.value else 0)
unfolding counts
spent-entry_of config tx now chain_id = ground arith

spend-bounded :
    {clock : ℕ} {engine : PolicyEngine} {log : List Entry}
    → Invariant clock engine log
    → (tx : DecodedTransaction) (now : ℕ) (decision : PolicyDecision) → clock ≤ now
    → evaluate engine tx now ≡ some decision
    → IsAllowed decision
    → (chain_id : ℕ)
    → spent engine.config chain_id now (log ++ (entry_of tx now ∷ []))
      ≤ engine.config.max_value_per_window
spend-bounded {clock} {engine} {log} inv tx now decision le e a chain_id =
    let fits =
      allowed_fits engine tx now _ decision (total_known inv tx.chain_id now le) inv.limit e a in
    rw spent-append (rw spent-entry_of (cases fits))
  where
    cases :
        spent engine.config tx.chain_id now log + tx.value ≤ engine.config.max_value_per_window
        → spent engine.config chain_id now log + (if tx.chain_id == chain_id then tx.value else 0)
          ≤ engine.config.max_value_per_window
    cases fits = ground (arith, bounded_later inv chain_id now le)

spend-Invariant :
    {clock : ℕ} {engine : PolicyEngine} {log : List Entry}
    → Invariant clock engine log
    → (tx : DecodedTransaction) (now : ℕ) (decision : PolicyDecision) → clock ≤ now
    → evaluate engine tx now ≡ some decision
    → IsAllowed decision
    → Invariant now (record_approved engine tx now) (log ++ (entry_of tx now ∷ []))
unfolding record_approved
spend-Invariant {clock} {engine} {log} inv tx now decision le e a =
    let past = IsPast-record clock now engine.history tx le inv.past in
    record {
      limit = inv.limit;
      past = IsPast-filter now _ _ past;
      past_log = IsPast-record clock now log tx le inv.past_log;
      same = λ chain_id now' le'.
          spent-within engine.config chain_id now now' _ le' past
          ∙ spent-append engine.config chain_id now' engine.history (entry_of tx now ∷ [])
          ∙ rw (inv.same chain_id now' (omega arith))
              (sym (spent-append engine.config chain_id now' log (entry_of tx now ∷ [])));
      bounded = spend-bounded inv tx now decision le e a;
    }

Run-Invariant :
    {clock : ℕ} {engine : PolicyEngine} {log : List Entry}
    → Run clock engine log
    → Invariant clock engine log
unfolding new
Run-Invariant (start config b) = record {
  limit = b;
  past = tt;
  past_log = tt;
  same = λ _ _ _. refl;
  bounded = λ chain_id. omega arith;
}
Run-Invariant (spend run tx now decision le e a) =
    spend-Invariant (Run-Invariant run) tx now decision le e a

-- Over every run from a new engine, at every later time and on every chain, what was spent in the
-- window, counted over the whole log, is at most the limit, and it is the total that the next
-- evaluation reads: the pruned history has lost nothing, and the sum does not overflow.
pub velocity_limit :
    {clock : ℕ} {engine : PolicyEngine} {log : List Entry}
    → Run clock engine log
    → (chain_id now : ℕ) → clock ≤ now
    → (spent engine.config chain_id now log ≤ engine.config.max_value_per_window)
      × (window_total engine chain_id now ≡ some (spent engine.config chain_id now log))
velocity_limit run chain_id now le =
    let inv = Run-Invariant run in
    (bounded_later inv chain_id now le, total_known inv chain_id now le)
