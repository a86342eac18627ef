-- ===== src/Rpc/Client/Answers.antt =====
-- What the client makes of the answers of a node.
use Prim.Native.String.{String}
use fortresswallet.Base.{
  ℕ, ◌==◌, ◌≡◌, ◌≢◌, refl, sym, ap, ◌∙◌, true, Bool-cases, inl, inr, Option, none, some, List, ok,
  map_err, ok_or, map_err-ok, ok_or-ok, Option-cases,
}
use fortresswallet.Base.Action.{lift, ◌>>=◌, bind-eq-ok}
use fortresswallet.Base.Json.{
  Json, null, is_null, single, string, other_number, boolean, number, array, object,
}
use fortresswallet.Rpc.{Endpoint, Untrusted}
use fortresswallet.Rpc.Encoding.{
  no_status, no_block_number, parse_hex_u64, no_result, not_json, rpc_to_hex,
}
use fortresswallet.Rpc.Client.{
  Call, untrusted, text_field, Net, transport, malformed, JsonRpcResponse, TransactionReceipt, body,
  request, or_malformed, outcome, read_response, call, receipt_or_pending, receipt_of,
  transaction_receipt,
}

-- `serde` reads `null` for an `Option` as `None`.
pub record NetLaws {State : Type 0} (N : Net State) : Type 0 where
  pub null_is_none :
      (text : List ℕ) (r : JsonRpcResponse N.Code N.Message)
      → N.from_str text ≡ ok r
      → r.result ≢ some null

module _ {State : Type 0} (N : Net State) where
  outcome-result :
      (r : JsonRpcResponse N.Code N.Message) (v : Json)
      → outcome N r ≡ ok v
      → (r.error ≡ none) × (r.result ≡ some v)
  outcome-result r v h = elim (Option-cases r.error) [
    | inl e ↦
        let result : ok_or r.result (malformed no_result) ≡ ok v = rw (e) at h in
        (e, ok_or-ok r.result (malformed no_result) v result)
    | inr ((code, message), e) ↦ absurd (cc (e, h))
  ]

  -- What a call returns is the result of a response that carries no error object.
  pub call-response :
      (endpoint : Endpoint) (method : String) (params v : Json) (s end : State)
      → call N endpoint method params s ≡ (ok v, end)
      → (text : List ℕ) × (r : JsonRpcResponse N.Code N.Message) × ((N.post endpoint.url
            (body N method params)
            s).0
          ≡ ok text)
        × (N.from_str text ≡ ok r)
        × (r.error ≡ none)
        × (r.result ≡ some v)
        × (end ≡ (N.post endpoint.url (body N method params) s).1)
  unfolding call
  call-response endpoint method params v s end h =
      let (text, answered, h1) =
        bind-eq-ok (request N endpoint (body N method params)) (read_response N) s end v h in
      let after = (N.post endpoint.url (body N method params) s).1 in
      let (r, parsed, h2) =
        bind-eq-ok (or_malformed N (map_err not_json (N.from_str text)))
          (λ parsed. lift (outcome N parsed)) after end v h1 in
      let (no_error, result) = outcome-result r v (ap (λ p. p.0) h2) in
      (
        text,
        r,
        map_err-ok transport _ text answered,
        map_err-ok not_json _ r (map_err-ok malformed _ r parsed),
        no_error,
        result,
        sym (ap (λ p. p.1) h2),
      )

  is_null-null : (v : Json) → is_null v ≡ true → v ≡ null
  unfolding is_null
  is_null-null null h = refl
  is_null-null other_number h = cc
  is_null-null (boolean b) h = cc
  is_null-null (number n) h = cc
  is_null-null (string text) h = cc
  is_null-null (array vs) h = cc
  is_null-null (object ps) h = cc

  -- A receipt that is read is of a mined transaction.
  receipt_of-mined :
      (endpoint : Endpoint) (result : Json) (s end : State)
      (u : Untrusted (Option TransactionReceipt))
      → receipt_of N endpoint result s ≡ (ok u, end)
      → u.value ≢ none
  receipt_of-mined endpoint result s end u h pending =
      let last : ℕ → ℕ → Call N (Untrusted (Option TransactionReceipt)) = λ status block_number.
        untrusted N endpoint
          (some (record { success = status == 1; block_number = block_number })) in
      let third : ℕ → List ℕ → Call N (Untrusted (Option TransactionReceipt)) =
        λ status hex. or_malformed N (parse_hex_u64 hex) >>= last status in
      let second : ℕ → Call N (Untrusted (Option TransactionReceipt)) =
        λ status. text_field N "blockNumber" no_block_number result >>= third status in
      let first : List ℕ → Call N (Untrusted (Option TransactionReceipt)) =
        λ hex. or_malformed N (parse_hex_u64 hex) >>= second in
      let (status_hex, e1, h1) =
        bind-eq-ok (text_field N "status" no_status result) first s end u h in
      let (status, e2, h2) =
        bind-eq-ok (or_malformed N (parse_hex_u64 status_hex)) second s end u h1 in
      let (block_hex, e3, h3) =
        bind-eq-ok (text_field N "blockNumber" no_block_number result) (third status) s end u h2 in
      let (block_number, e4, h4) =
        bind-eq-ok (or_malformed N (parse_hex_u64 block_hex)) (last status) s end u h3 in
      cc (ap (λ p. p.0) h4, pending)

  -- A receipt that was returned is of a mined transaction, or the answer was null.
  receipt_pending :
      (endpoint : Endpoint) (result : Json) (s end : State)
      (u : Untrusted (Option TransactionReceipt))
      → receipt_or_pending N endpoint result s ≡ (ok u, end)
      → u.value ≡ none
      → result ≡ null
  receipt_pending endpoint result s end u h pending = elim (Bool-cases (is_null result)) [
    | inl null_result ↦ is_null-null result null_result
    | inr other ↦ absurd (receipt_of-mined endpoint result s end u (rw (other) at h) pending)
  ]

  -- A transaction that is not mined is never reported as pending: where the parser reads a null
  -- result as no result, the client's test for null is not reached.
  pub transaction_receipt-not_pending :
      (laws : NetLaws N) (endpoint : Endpoint) (tx_hash : List ℕ) (s end : State)
      (u : Untrusted (Option TransactionReceipt))
      → transaction_receipt N endpoint tx_hash s ≡ (ok u, end)
      → u.value ≢ none
  unfolding transaction_receipt
  transaction_receipt-not_pending laws endpoint tx_hash s end u h pending =
      let params = single (string (rpc_to_hex tx_hash)) in
      let (v, answered, rest) =
        bind-eq-ok (call N endpoint "eth_getTransactionReceipt" params)
          (receipt_or_pending N endpoint) s end u h in
      let after = (call N endpoint "eth_getTransactionReceipt" params s).1 in
      let (text, r, posted, parsed, no_error, result, moved) =
        call-response endpoint "eth_getTransactionReceipt" params v s after
          (ap (λ r. (r, after)) answered) in
      laws.null_is_none text r parsed
        (result ∙ ap some (receipt_pending endpoint v after end u rest pending))
