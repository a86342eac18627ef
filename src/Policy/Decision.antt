-- ===== src/Policy/Decision.antt =====
-- The decisions of `evaluate`, and what `record_approved` makes known.
use fortresswallet.Base.{
  ℕ, ◌+◌, ◌≤◌, ◌<◌, ◌≡◌, ◌↔◌, ◌⊎◌, Bool, true, false, ◌&&◌, some, List, ◌∷◌, ◌==◌, bytes_eq,
  bytes_eq_refl, bytes_eq→eq, Bool-cases, inl, inr, arith,
}
use fortresswallet.Decoder.{DecodedTransaction}
use fortresswallet.Policy.{
  PolicyConfig, PolicyEngine, PolicyDecision, Destination, approved, denied, queued,
  exceeds_single_tx_cap, exceeds_velocity_limit, contains, insert, window_total, evaluate,
  record_approved,
}
use fortresswallet.Policy.Clock.{u128_max, time_end}

abbrev pub destination : DecodedTransaction → Destination
destination tx = (tx.chain_id, tx.to)

-- The limits are `u128` values.
abbrev pub IsConfig : PolicyConfig → Type 0
IsConfig config = config.max_value_per_window ≤ u128_max

-- What each decision says of the transaction, with `total` spent in the window.
abbrev pub Grounds : PolicyEngine → DecodedTransaction → ℕ → ℕ → PolicyDecision → Type 0
Grounds engine tx now total approved =
    (tx.value ≤ engine.config.max_single_tx_value)
    × (total + tx.value ≤ engine.config.max_value_per_window)
    × (tx.value < engine.config.timelock_threshold)
    × (contains (destination tx) engine.known_destinations ≡ true)
Grounds engine tx now total (denied exceeds_single_tx_cap) =
    engine.config.max_single_tx_value < tx.value
Grounds engine tx now total (denied exceeds_velocity_limit) =
    (tx.value ≤ engine.config.max_single_tx_value)
    × (engine.config.max_value_per_window < total + tx.value)
Grounds engine tx now total (queued release_at) =
    (tx.value ≤ engine.config.max_single_tx_value)
    × (total + tx.value ≤ engine.config.max_value_per_window)
    × ((engine.config.timelock_threshold ≤ tx.value)
        ⊎ (contains (destination tx) engine.known_destinations ≡ false))
    × (release_at ≡ now + engine.config.timelock_delay)

-- Each decision is made exactly on its grounds: the cap first, then the velocity limit, then the
-- timelock on large values and unknown destinations, and approval only when none of them applies.
-- The window's total does not overflow, the velocity limit is below the largest `u128`, and the
-- release time can be represented.
pub evaluate-Grounds :
    (engine : PolicyEngine) (tx : DecodedTransaction) (now total : ℕ) (decision : PolicyDecision)
    → window_total engine tx.chain_id now ≡ some total
    → engine.config.max_value_per_window < u128_max
    → now + engine.config.timelock_delay < time_end
    → (evaluate engine tx now ≡ some decision) ↔ Grounds engine tx now total decision
unfolding evaluate
evaluate-Grounds engine tx now total approved e b t = ground arith
evaluate-Grounds engine tx now total (denied exceeds_single_tx_cap) e b t = ground arith
evaluate-Grounds engine tx now total (denied exceeds_velocity_limit) e b t = ground arith
evaluate-Grounds engine tx now total (queued release_at) e b t = ground arith

abbrev same_destination : Destination → Destination → Bool
same_destination d k = d.0 == k.0 && bytes_eq d.1 k.1

same_destination_iff : (d k : Destination) → (same_destination d k ≡ true) ↔ (d ≡ k)
same_destination_iff d k = (
  λ h.
      let chain : d.0 ≡ k.0 = ground arith in
      let address = bytes_eq→eq d.1 k.1 (ground arith) in λ i. (chain i, address i),
  λ e. rw e (ground (arith, bytes_eq_refl k.1)),
)

contains-cons :
    (d k : Destination) (ks : List Destination)
    → (contains d (k ∷ ks) ≡ true) ↔ ((d ≡ k) ⊎ (contains d ks ≡ true))
unfolding contains
contains-cons d k ks = elim (Bool-cases (same_destination d k)) [
  | inl same ↦ (λ _. inl ((same_destination_iff d k).0 same), λ _. rw same)
  | inr other ↦ (
    λ h. inr (rw other at h),
    elim [ inl e ↦ cc ((same_destination_iff d k).1 e) | inr h ↦ rw other h ],
  )
]

contains-insert :
    (d k : Destination) (ks : List Destination)
    → (contains d (insert k ks) ≡ true) ↔ ((d ≡ k) ⊎ (contains d ks ≡ true))
unfolding insert
contains-insert d k ks = elim (Bool-cases (contains k ks)) [
  | inl old ↦ rw old (λ h. inr h, elim [ inl e ↦ rw e old | inr h ↦ h ])
  | inr new ↦ rw new (contains-cons d k ks)
]

-- `record_approved` makes the transaction's destination known on its chain, and no other one.
contains-record_approved :
    (engine : PolicyEngine) (tx : DecodedTransaction) (now : ℕ) (d : Destination)
    → (contains d (record_approved engine tx now).known_destinations ≡ true)
      ↔ ((d ≡ destination tx) ⊎ (contains d engine.known_destinations ≡ true))
unfolding record_approved
contains-record_approved engine tx now d =
    contains-insert d (destination tx) engine.known_destinations
