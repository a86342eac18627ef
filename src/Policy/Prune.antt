-- ===== src/Policy/Prune.antt =====
-- The eager pruning of `record_approved` against an engine that keeps every entry.
use fortresswallet.Base.{
  ℕ, ◌≤◌, ◌≡◌, refl, sym, ap, ◌∙◌, List, [], ◌∷◌, ◌++◌, filter, filter-append, All-append, map,
  arith,
}
use fortresswallet.Decoder.{DecodedTransaction}
use fortresswallet.Policy.{
  PolicyEngine, Entry, insert, counts, entry_value, sum_u128, window_total, evaluate,
  record_approved,
}
use fortresswallet.Policy.History.{IsPast, IsPast-later, IsPast-filter, filter-counts-within}

abbrev pub entry_of : DecodedTransaction → ℕ → Entry
entry_of tx now = (now, tx.chain_id, tx.value)

-- `record_approved` without its last statement, the `retain`.
abbrev pub record_unpruned : PolicyEngine → DecodedTransaction → ℕ → PolicyEngine
record_unpruned engine tx now = record engine {
  history = engine.history ++ (entry_of tx now ∷ []);
  known_destinations = insert (tx.chain_id, tx.to) engine.known_destinations;
}

abbrev pub Call : Type 0
Call = DecodedTransaction × ℕ

abbrev pub run_with :
    (PolicyEngine → DecodedTransaction → ℕ → PolicyEngine) → PolicyEngine → List Call → PolicyEngine
run_with step engine [] = engine
run_with step engine ((tx, t) ∷ calls) = run_with step (step engine tx t) calls

-- The calls are made one after the other, none before `clock` or after `now`.
abbrev pub Ordered : ℕ → List Call → ℕ → Type 0
Ordered clock [] now = clock ≤ now
Ordered clock ((tx, t) ∷ calls) now = (clock ≤ t) × Ordered t calls now

pub IsPast-record :
    (past now : ℕ) (h : List Entry) (tx : DecodedTransaction)
    → past ≤ now
    → IsPast past h
    → IsPast now (h ++ (entry_of tx now ∷ []))
IsPast-record past now h tx le p =
    All-append (λ (e : Entry). e.0 ≤ now) h (entry_of tx now ∷ []) (IsPast-later past now h le p)
      (omega arith, tt)

-- Two engines that every evaluation from `clock` on takes for one.
pub record Same (clock : ℕ) (a b : PolicyEngine) : Type 0 where
  pub config : a.config ≡ b.config
  pub known : a.known_destinations ≡ b.known_destinations
  pub past_a : IsPast clock a.history
  pub past_b : IsPast clock b.history
  pub counted :
      (chain_id now : ℕ)
      → clock ≤ now
      → filter (counts a.config chain_id now) a.history
        ≡ filter (counts b.config chain_id now) b.history

Same-window_total :
    {clock : ℕ} {a b : PolicyEngine} (chain_id now : ℕ)
    → Same clock a b
    → clock ≤ now
    → window_total a chain_id now ≡ window_total b chain_id now
unfolding window_total
Same-window_total chain_id now s le =
    ap (λ h. sum_u128 0 (map entry_value h)) (s.counted chain_id now le)

-- `evaluate` reads the configuration, the known destinations and the window's total.
evaluate-cong :
    (a b : PolicyEngine) (tx : DecodedTransaction) (now : ℕ)
    → a.config ≡ b.config
    → a.known_destinations ≡ b.known_destinations
    → window_total a tx.chain_id now ≡ window_total b tx.chain_id now
    → evaluate a tx now ≡ evaluate b tx now
unfolding evaluate
evaluate-cong a b tx now config known total = ground arith

pub Same-evaluate :
    {clock : ℕ} {a b : PolicyEngine} (tx : DecodedTransaction) (now : ℕ)
    → Same clock a b
    → clock ≤ now
    → evaluate a tx now ≡ evaluate b tx now
Same-evaluate {a} {b} tx now s le =
    evaluate-cong a b tx now s.config s.known (Same-window_total tx.chain_id now s le)

pub Same-record :
    {clock : ℕ} {a b : PolicyEngine} (tx : DecodedTransaction) (t : ℕ)
    → Same clock a b
    → clock ≤ t
    → Same t (record_approved a tx t) (record_unpruned b tx t)
unfolding record_approved
Same-record {clock} {a} {b} tx t s le =
    let past_a = IsPast-record clock t a.history tx le s.past_a in
    record {
      config = s.config;
      known = ap (insert (tx.chain_id, tx.to)) s.known;
      past_a = IsPast-filter t _ _ past_a;
      past_b = IsPast-record clock t b.history tx le s.past_b;
      counted = λ chain_id now le'.
          filter-counts-within a.config chain_id t now _ le' past_a
          ∙ filter-append (counts a.config chain_id now) a.history (entry_of tx t ∷ [])
          ∙ rw (s.counted chain_id now (omega arith), s.config)
              (sym (filter-append (counts b.config chain_id now) b.history (entry_of tx t ∷ [])));
    }

pub Same-later :
    {clock : ℕ} {a b : PolicyEngine} (now : ℕ) → Same clock a b → clock ≤ now → Same now a b
Same-later {clock} {a} {b} now s le = record {
  config = s.config;
  known = s.known;
  past_a = IsPast-later clock now a.history le s.past_a;
  past_b = IsPast-later clock now b.history le s.past_b;
  counted = λ chain_id now' le'. s.counted chain_id now' (omega arith);
}

pub Same-refl :
    (engine : PolicyEngine) (clock : ℕ) → IsPast clock engine.history → Same clock engine engine
Same-refl engine clock past = record {
  config = refl;
  known = refl;
  past_a = past;
  past_b = past;
  counted = λ _ _ _. refl;
}

Same-run :
    (calls : List Call) (clock : ℕ) (a b : PolicyEngine) (tx : DecodedTransaction) (now : ℕ)
    → Same clock a b
    → Ordered clock calls now
    → evaluate (run_with record_approved a calls) tx now
      ≡ evaluate (run_with record_unpruned b calls) tx now
Same-run [] clock a b tx now s le = Same-evaluate tx now s le
Same-run ((call, t) ∷ calls) clock a b tx now s (le, rest) =
    Same-run calls t (record_approved a call t) (record_unpruned b call t) tx now
      (Same-record call t s le) rest

-- While the clock does not go back, an engine that prunes as it records decides every transaction
-- as one that keeps its whole history would.
pub prune-evaluate :
    (engine : PolicyEngine) (clock : ℕ) (calls : List Call) (tx : DecodedTransaction) (now : ℕ)
    → IsPast clock engine.history
    → Ordered clock calls now
    → evaluate (run_with record_approved engine calls) tx now
      ≡ evaluate (run_with record_unpruned engine calls) tx now
prune-evaluate engine clock calls tx now past ordered =
    Same-run calls clock engine engine tx now (Same-refl engine clock past) ordered
