-- ===== src/Policy.antt =====
-- crates/wallet-core/src/policy.rs: the spending policy. Times and durations are nanoseconds, a
-- time counted from the earliest `SystemTime`; `none` is a panic, since the workspace builds with
-- overflow checks.
pub mod Clock
pub mod History
pub mod Decision
pub mod Prune
pub mod Velocity
pub mod Edges
use fortresswallet.Base.{
  ℕ, ◌+◌, ◌-◌, ◌^◌, Bool, true, false, not, ◌&&◌, ◌||◌, Option, none, some, List, [], ◌∷◌, ◌++◌,
  map, filter, ltb, leb, ◌==◌, if◌then◌else◌, bytes_eq,
}
use fortresswallet.Decoder.{DecodedTransaction}
use Clock.{within, checked_add_u128, saturating_add_u128, checked_add_time}

pub record PolicyConfig : Type 0 where
  pub max_single_tx_value : ℕ
  pub max_value_per_window : ℕ
  pub window : ℕ
  pub timelock_threshold : ℕ
  pub timelock_delay : ℕ

pub data DenialReason : Type 0 where
  exceeds_single_tx_cap exceeds_velocity_limit : DenialReason

pub data PolicyDecision : Type 0 where
  approved : PolicyDecision
  denied : DenialReason → PolicyDecision
  queued : ℕ → PolicyDecision

-- (approval time, chain id, value)
abbrev pub Entry : Type 0
Entry = ℕ × ℕ × ℕ

-- (chain id, address)
abbrev pub Destination : Type 0
Destination = ℕ × List ℕ

pub record PolicyEngine : Type 0 where
  pub config : PolicyConfig
  pub history : List Entry
  pub known_destinations : List Destination

unfoldable pub new : PolicyConfig → PolicyEngine
new config = record { config = config; history = []; known_destinations = [] }

-- `HashSet::contains` and `HashSet::insert` on destinations.
unfoldable pub contains : Destination → List Destination → Bool
contains d [] = false
contains d (k ∷ ks) = (d.0 == k.0 && bytes_eq d.1 k.1) || contains d ks

unfoldable pub insert : Destination → List Destination → List Destination
unfolding contains
insert d ks = if contains d ks then ks else d ∷ ks

-- `Iterator::sum` of `u128` values, from the left.
unfoldable pub sum_u128 : ℕ → List ℕ → Option ℕ
sum_u128 acc [] = some acc
sum_u128 acc (v ∷ vs) = elim (checked_add_u128 acc v) [ none ↦ none | some acc' ↦ sum_u128 acc' vs ]

-- The closure of the `filter` in `evaluate`.
unfoldable pub counts : PolicyConfig → ℕ → ℕ → Entry → Bool
counts config chain_id now (t, c, _) = c == chain_id && within config.window now t

abbrev pub entry_value : Entry → ℕ
entry_value (_, _, v) = v

unfoldable pub window_total : PolicyEngine → ℕ → ℕ → Option ℕ
window_total engine chain_id now =
    sum_u128 0 (map entry_value (filter (counts engine.config chain_id now) engine.history))

unfoldable pub evaluate : PolicyEngine → DecodedTransaction → ℕ → Option PolicyDecision
evaluate engine tx now =
    if ltb engine.config.max_single_tx_value tx.value
    then some (denied exceeds_single_tx_cap)
    else elim (window_total engine tx.chain_id now) [
      | none ↦ none
      | some total ↦
          if ltb engine.config.max_value_per_window (saturating_add_u128 total tx.value)
          then some (denied exceeds_velocity_limit)
          else if leb engine.config.timelock_threshold tx.value
              || not (contains (tx.chain_id, tx.to) engine.known_destinations)
          then elim (checked_add_time now engine.config.timelock_delay) [
            | none ↦ none
            | some release_at ↦ some (queued release_at)
          ]
          else some approved
    ]

unfoldable pub record_approved : PolicyEngine → DecodedTransaction → ℕ → PolicyEngine
unfolding insert
record_approved engine tx now = record engine {
  history =
      filter (λ (t, _, _). within engine.config.window now t)
        (engine.history ++ ((now, tx.chain_id, tx.value) ∷ []));
  known_destinations = insert (tx.chain_id, tx.to) engine.known_destinations;
}
