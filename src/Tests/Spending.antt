-- ===== src/Tests/Spending.antt =====
-- The policy on concrete transactions.
use fortresswallet.Base.{ℕ, ◌≤◌, ◌≡◌, ◌≢◌, ◌↔◌, refl, none, some, [], ◌∷◌, replicate, arith}
use fortresswallet.Decoder.{DecodedTransaction}
use fortresswallet.Policy.{
  PolicyConfig, PolicyEngine, approved, denied, queued, exceeds_single_tx_cap,
  exceeds_velocity_limit, new, contains, sum_u128, counts, window_total, evaluate, record_approved,
}
use fortresswallet.Policy.Clock.{u128_max}
use fortresswallet.Policy.History.{spent}
use fortresswallet.Policy.Decision.{Grounds, evaluate-Grounds}
use fortresswallet.Policy.Prune.{run_with, record_unpruned, prune-evaluate}
use fortresswallet.Policy.Velocity.{Run, start, spend, velocity_limit}
use fortresswallet.Policy.Edges.{rollback-forgets, unlimited-overflow}

abbrev pub config : PolicyConfig
config = record {
  max_single_tx_value = 1000;
  max_value_per_window = 2000;
  window = 3600;
  timelock_threshold = 500;
  timelock_delay = 86400;
}

abbrev to_alice : ℕ → DecodedTransaction
to_alice value = record { chain_id = 1; to = replicate 20 0xaa; value = value }

abbrev pub engine : PolicyEngine
engine = record {
  config = config;
  history = (100, 1, 400) ∷ (200, 1, 400) ∷ (200, 5, 900) ∷ [];
  known_destinations = (1, replicate 20 0xaa) ∷ [];
}

small_approved : evaluate engine (to_alice 200) 300 ≡ some approved
unfolding evaluate window_total sum_u128 counts contains
small_approved = refl

large_queued : evaluate engine (to_alice 600) 300 ≡ some (queued 86700)
unfolding evaluate window_total sum_u128 counts contains
large_queued = refl

over_cap : evaluate engine (to_alice 1001) 300 ≡ some (denied exceeds_single_tx_cap)
unfolding evaluate
over_cap = refl

over_limit :
    evaluate (record engine { history = (250, 1, 900) ∷ engine.history }) (to_alice 400) 300
    ≡ some (denied exceeds_velocity_limit)
unfolding evaluate window_total sum_u128 counts
over_limit = refl

old_entries_are_pruned : (record_approved engine (to_alice 10) 5000).history ≡ (5000, 1, 10) ∷ []
unfolding record_approved
old_entries_are_pruned = refl

engine_total : window_total engine 1 300 ≡ some 800
unfolding window_total sum_u128 counts
engine_total = refl

evaluate-Grounds_example :
    (evaluate engine (to_alice 600) 300 ≡ some (queued 86700))
    ↔ Grounds engine (to_alice 600) 300 800 (queued 86700)
evaluate-Grounds_example =
    evaluate-Grounds engine (to_alice 600) 300 800 (queued 86700) engine_total (omega arith)
      (omega arith)

prune-evaluate_example :
    evaluate
      (run_with record_approved engine ((to_alice 10, 400) ∷ (to_alice 20, 4000) ∷ []))
      (to_alice 30)
      4100
    ≡ evaluate
        (run_with record_unpruned engine ((to_alice 10, 400) ∷ (to_alice 20, 4000) ∷ []))
        (to_alice 30)
        4100
prune-evaluate_example =
    prune-evaluate engine 300 ((to_alice 10, 400) ∷ (to_alice 20, 4000) ∷ []) (to_alice 30) 4100
      (omega arith) (omega arith)

first_queued : evaluate (new config) (to_alice 400) 50 ≡ some (queued 86450)
unfolding evaluate window_total sum_u128 counts contains new
first_queued = refl

one_spend : Run 50 (record_approved (new config) (to_alice 400) 50) ((50, 1, 400) ∷ [])
one_spend =
    spend (start config (omega arith)) (to_alice 400) 50 (queued 86450) (omega arith) first_queued
      tt

velocity_limit_example :
    let after = record_approved (new config) (to_alice 400) 50 in
    (spent after.config 1 60 ((50, 1, 400) ∷ []) ≤ after.config.max_value_per_window)
    × (window_total after 1 60 ≡ some (spent after.config 1 60 ((50, 1, 400) ∷ [])))
velocity_limit_example = velocity_limit one_spend 1 60 (omega arith)

rollback-forgets_example :
    (window_total engine 1 50 ≡ some 0)
    × ((record_approved engine (to_alice 10) 50).history ≡ (50, 1, 10) ∷ [])
rollback-forgets_example = rollback-forgets engine (to_alice 10) 50 (omega arith)

abbrev unlimited : PolicyEngine
unlimited = record {
  config = record {
    max_single_tx_value = u128_max;
    max_value_per_window = u128_max;
    window = 3600;
    timelock_threshold = u128_max;
    timelock_delay = 1;
  };
  history = (100, 1, 400) ∷ [];
  known_destinations = (1, replicate 20 0xaa) ∷ [];
}

unlimited_total : window_total unlimited 1 300 ≡ some 400
unfolding window_total sum_u128 counts
unlimited_total = refl

unlimited-overflow_example :
    (evaluate unlimited (to_alice u128_max) 300 ≢ some (denied exceeds_velocity_limit))
    × (evaluate (record_approved unlimited (to_alice u128_max) 300) (to_alice 1) 300 ≡ none)
unlimited-overflow_example =
    unlimited-overflow unlimited (to_alice u128_max) (to_alice 1) 300 400 refl (omega arith)
      unlimited_total (omega arith) refl (omega arith)
