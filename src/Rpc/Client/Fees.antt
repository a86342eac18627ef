-- ===== src/Rpc/Client/Fees.antt =====
-- The fee that the client suggests.
use fortresswallet.Base.{err, panic, subst, ℕ, ◌≤◌, ◌≡◌, ap, List, ok, Result, false, arith}
use fortresswallet.Base.Action.{bind-eq-ok, ◌>>=◌}
use fortresswallet.Base.Json.{Json, pair, string, codes, boolean}
use fortresswallet.Policy.Clock.{u128_max}
use fortresswallet.Rpc.{Endpoint, Untrusted}
use fortresswallet.Rpc.Encoding.{no_base_fee, parse_hex_u128}
use fortresswallet.Rpc.Client.{
  Net, RpcError, Call, FeeSuggestion, call, text_field, or_malformed, untrusted, suggestion_for,
  fee_suggestion,
}

-- A fee cap that a type 2 transaction can carry: 128 bits, and no less than the tip.
pub record IsPayable (fees : FeeSuggestion) : Type 0 where
  pub tip_within : fees.max_priority_fee_per_gas ≤ fees.max_fee_per_gas
  pub fits : fees.max_fee_per_gas ≤ u128_max

suggestion_for-IsPayable : (base_fee : ℕ) → IsPayable (suggestion_for base_fee)
suggestion_for-IsPayable base_fee = record { tip_within = ground arith; fits = ground arith }

module _ {State : Type 0} (N : Net State) where
  -- The fees of a result, none where it is no success.
  abbrev value_of : Result (Untrusted FeeSuggestion) (RpcError N.Code N.Message) → FeeSuggestion
  value_of (ok u) = u.value
  value_of (err e) = suggestion_for 0
  value_of panic = suggestion_for 0

  -- Whatever base fee a node reports, a suggested fee cap fits 128 bits and is no less than the tip.
  pub fee_suggestion-IsPayable :
      (endpoint : Endpoint) (s end : State) (u : Untrusted FeeSuggestion)
      → fee_suggestion N endpoint s ≡ (ok u, end)
      → IsPayable u.value
  unfolding fee_suggestion
  fee_suggestion-IsPayable endpoint s end u h =
      let last : ℕ → Call N (Untrusted FeeSuggestion) =
        λ base_fee. untrusted N endpoint (suggestion_for base_fee) in
      let second : List ℕ → Call N (Untrusted FeeSuggestion) =
        λ hex. or_malformed N (parse_hex_u128 hex) >>= last in
      let first : Json → Call N (Untrusted FeeSuggestion) =
        λ block. text_field N "baseFeePerGas" no_base_fee block >>= second in
      let (block, e1, h1) =
        bind-eq-ok
          (call N endpoint "eth_getBlockByNumber" (pair (string (codes "latest")) (boolean false)))
          first s end u h in
      let (hex, e2, h2) =
        bind-eq-ok (text_field N "baseFeePerGas" no_base_fee block) second _ end u h1 in
      let (base_fee, e3, h3) = bind-eq-ok (or_malformed N (parse_hex_u128 hex)) last _ end u h2 in
      subst IsPayable (ap value_of (ap (λ p. p.0) h3)) (suggestion_for-IsPayable base_fee)
