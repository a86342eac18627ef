-- ===== src/Policy/Edges.antt =====
-- The policy at its edges: a clock that goes back, a limit at the largest `u128`, and
-- destinations that are not known.
use fortresswallet.Base.{
  ℕ, ◌+◌, ◌≤◌, ◌<◌, ◌≡◌, ◌≢◌, refl, ap, ◌∙◌, Bool, false, List, [], ◌∷◌, ◌++◌, map, filter,
  filter-append, All, none, some, arith,
}
use mathlib.Core.List.{map-append}
use fortresswallet.Decoder.{DecodedTransaction}
use fortresswallet.Policy.{
  PolicyConfig, PolicyEngine, approved, denied, exceeds_velocity_limit, Entry, entry_value,
  sum_u128, counts, window_total, contains, evaluate, record_approved,
}
use fortresswallet.Policy.Clock.{u128_max, within, checked_add_u128}
use fortresswallet.Policy.History.{IsPast, filter-counts-within}
use fortresswallet.Policy.Prune.{entry_of, IsPast-record}

-- Every entry is later than `now`.
abbrev pub IsFuture : ℕ → List Entry → Type 0
IsFuture now h = All (λ e. now < e.0) h

filter-future :
    (keep : Entry → Bool) (now : ℕ) (h : List Entry)
    → ((e : Entry) → now < e.0 → keep e ≡ false)
    → IsFuture now h
    → filter keep h ≡ []
filter-future keep now [] no_future f = refl
filter-future keep now (e ∷ h) no_future f =
    rw (no_future e f.0) (filter-future keep now h no_future f.1)

future-not-within : (window now : ℕ) (e : Entry) → now < e.0 → within window now e.0 ≡ false
future-not-within window now e f = ground arith

future-not-counts :
    (config : PolicyConfig) (chain_id now : ℕ) (e : Entry)
    → now < e.0
    → counts config chain_id now e ≡ false
unfolding counts
future-not-counts config chain_id now e f = ground arith

-- When the clock has gone back to before every recorded approval, the velocity limit no longer
-- sees them: a transaction's window total is 0, and the next approval that is recorded deletes
-- them for good.
pub rollback-forgets :
    (engine : PolicyEngine) (tx : DecodedTransaction) (now : ℕ)
    → IsFuture now engine.history
    → (window_total engine tx.chain_id now ≡ some 0)
      × ((record_approved engine tx now).history ≡ entry_of tx now ∷ [])
unfolding window_total record_approved
rollback-forgets engine tx now f = (
  rw (filter-future _ now engine.history (future-not-counts engine.config tx.chain_id now) f)
      (unfold sum_u128 in refl),
  filter-append _ engine.history (entry_of tx now ∷ [])
      ∙ rw (filter-future _ now engine.history (future-not-within engine.config.window now) f)
          (ground arith),
)

sum_u128-append :
    (acc total v : ℕ) (vs : List ℕ)
    → sum_u128 acc vs ≡ some total
    → sum_u128 acc (vs ++ (v ∷ [])) ≡ checked_add_u128 total v
unfolding sum_u128
sum_u128-append acc total v [] e = ground arith
sum_u128-append acc total v (w ∷ vs) e = ground (arith, sum_u128-append (acc + w) total v vs)

-- The entries that count right after `tx` is recorded on its chain.
counted-record_approved :
    (engine : PolicyEngine) (tx : DecodedTransaction) (now : ℕ)
    → IsPast now engine.history
    → filter (counts engine.config tx.chain_id now) (record_approved engine tx now).history
      ≡ filter (counts engine.config tx.chain_id now) engine.history ++ (entry_of tx now ∷ [])
unfolding record_approved
counted-record_approved engine tx now past =
    filter-counts-within engine.config tx.chain_id now now _ (omega arith)
      (IsPast-record now now engine.history tx (omega arith) past)
    ∙ filter-append (counts engine.config tx.chain_id now) engine.history (entry_of tx now ∷ [])
    ∙ ap (◌++◌ (filter (counts engine.config tx.chain_id now) engine.history)) itself
  where
    itself :
        filter (counts engine.config tx.chain_id now) (entry_of tx now ∷ []) ≡ entry_of tx now ∷ []
    itself = unfold counts in ground arith

window_total-record_approved :
    (engine : PolicyEngine) (tx : DecodedTransaction) (now total : ℕ)
    → IsPast now engine.history
    → window_total engine tx.chain_id now ≡ some total
    → window_total (record_approved engine tx now) tx.chain_id now ≡ checked_add_u128 total tx.value
unfolding window_total record_approved
window_total-record_approved engine tx now total past e =
    ap (λ h. sum_u128 0 (map entry_value h)) (counted-record_approved engine tx now past)
    ∙ ap (sum_u128 0) (map-append entry_value _ (entry_of tx now ∷ []))
    ∙ sum_u128-append 0 total tx.value _ e

config_kept :
    (engine : PolicyEngine) (tx : DecodedTransaction) (now : ℕ)
    → (record_approved engine tx now).config ≡ engine.config
unfolding record_approved
config_kept engine tx now = refl

-- With the velocity limit at the largest `u128`, a transaction that overflows the window's total
-- is not refused for it, because the saturated sum equals the limit; and once it is recorded, the
-- next evaluation on that chain panics for every transaction within the cap.
pub unlimited-overflow :
    (engine : PolicyEngine) (tx next : DecodedTransaction) (now total : ℕ)
    → engine.config.max_value_per_window ≡ u128_max
    → IsPast now engine.history
    → window_total engine tx.chain_id now ≡ some total
    → u128_max < total + tx.value
    → next.chain_id ≡ tx.chain_id
    → next.value ≤ engine.config.max_single_tx_value
    → (evaluate engine tx now ≢ some (denied exceeds_velocity_limit))
      × (evaluate (record_approved engine tx now) next now ≡ none)
unfolding evaluate
unlimited-overflow engine tx next now total limit past e over same_chain small =
    (λ h. ground arith, ground (arith, next_total, config_kept engine tx now))
  where
    next_total : window_total (record_approved engine tx now) next.chain_id now ≡ none
    next_total =
        rw same_chain (window_total-record_approved engine tx now total past e ∙ ground arith)

-- Only a transaction to a known destination is approved.
pub unknown-evaluate :
    (engine : PolicyEngine) (tx : DecodedTransaction) (now : ℕ)
    → contains (tx.chain_id, tx.to) engine.known_destinations ≡ false
    → evaluate engine tx now ≢ some approved
unfolding evaluate
unknown-evaluate engine tx now e h = ground arith
