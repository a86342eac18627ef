-- ===== src/Policy/History.antt =====
-- What the entries of a history sum to, as plain numbers.
use fortresswallet.Base.{
  ℕ, ◌+◌, ◌≤◌, ◌≡◌, refl, Bool, some, List, [], ◌∷◌, ◌++◌, map, filter, All, if◌then◌else◌, ap, ◌∙◌,
  arith,
}
use fortresswallet.Policy.{
  PolicyConfig, PolicyEngine, Entry, entry_value, sum_u128, counts, window_total,
}
use fortresswallet.Policy.Clock.{within, u128_max}

-- What was spent on a chain in the window that ends at `now`.
abbrev pub spent : PolicyConfig → ℕ → ℕ → List Entry → ℕ
spent config chain_id now [] = 0
spent config chain_id now (e ∷ h) =
    let rest = spent config chain_id now h in
    if counts config chain_id now e then e.2 + rest else rest

-- No entry is later than `now`.
abbrev pub IsPast : ℕ → List Entry → Type 0
IsPast now h = All (λ e. e.0 ≤ now) h

sum_u128-spent :
    (config : PolicyConfig) (chain_id now acc : ℕ) (h : List Entry)
    → acc + spent config chain_id now h ≤ u128_max
    → sum_u128 acc (map entry_value (filter (counts config chain_id now) h))
      ≡ some (acc + spent config chain_id now h)
unfolding sum_u128
sum_u128-spent config chain_id now acc [] b = ap some (omega arith)
sum_u128-spent config chain_id now acc (e ∷ h) b = ground (
  arith,
  sum_u128-spent config chain_id now (acc + e.2) h,
  sum_u128-spent config chain_id now acc h,
)

-- Below the largest `u128` the sum in `evaluate` does not panic, and it is the plain sum.
pub window_total-spent :
    (engine : PolicyEngine) (chain_id now : ℕ)
    → spent engine.config chain_id now engine.history ≤ u128_max
    → window_total engine chain_id now ≡ some (spent engine.config chain_id now engine.history)
unfolding window_total
window_total-spent engine chain_id now b =
    sum_u128-spent engine.config chain_id now 0 engine.history (omega arith) ∙ ap some (omega arith)

pub spent-append :
    (config : PolicyConfig) (chain_id now : ℕ) (h k : List Entry)
    → spent config chain_id now (h ++ k) ≡ spent config chain_id now h + spent config chain_id now k
spent-append config chain_id now [] k = omega arith
spent-append config chain_id now (e ∷ h) k = ground (arith, spent-append config chain_id now h k)

-- As time passes, past entries only leave the window.
pub spent_later :
    (config : PolicyConfig) (chain_id past now : ℕ) (h : List Entry)
    → past ≤ now
    → IsPast past h
    → spent config chain_id now h ≤ spent config chain_id past h
unfolding counts
spent_later config chain_id past now [] le p = omega arith
spent_later config chain_id past now (e ∷ h) le p =
    ground (arith, spent_later config chain_id past now h le p.1)

-- Dropping what has left the window by `past` changes nothing that a later evaluation reads.
pub filter-counts-within :
    (config : PolicyConfig) (chain_id past now : ℕ) (h : List Entry)
    → past ≤ now
    → IsPast past h
    → filter (counts config chain_id now) (filter (λ e. within config.window past e.0) h)
      ≡ filter (counts config chain_id now) h
unfolding counts
filter-counts-within config chain_id past now [] le p = refl
filter-counts-within config chain_id past now (e ∷ h) le p =
    ground (arith, filter-counts-within config chain_id past now h le p.1)

pub spent-within :
    (config : PolicyConfig) (chain_id past now : ℕ) (h : List Entry)
    → past ≤ now
    → IsPast past h
    → spent config chain_id now (filter (λ e. within config.window past e.0) h)
      ≡ spent config chain_id now h
unfolding counts
spent-within config chain_id past now [] le p = refl
spent-within config chain_id past now (e ∷ h) le p =
    ground (arith, spent-within config chain_id past now h le p.1)

pub IsPast-later : (past now : ℕ) (h : List Entry) → past ≤ now → IsPast past h → IsPast now h
IsPast-later past now [] le p = tt
IsPast-later past now (e ∷ h) le p = (omega arith, IsPast-later past now h le p.1)

pub IsPast-filter :
    (now : ℕ) (keep : Entry → Bool) (h : List Entry) → IsPast now h → IsPast now (filter keep h)
IsPast-filter now keep [] p = tt
IsPast-filter now keep (e ∷ h) p = ground (arith, IsPast-filter now keep h p.1)
