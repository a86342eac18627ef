-- ===== src/Rpc/Client.antt =====
-- crates/wallet-rpc/src/evm.rs: the JSON-RPC client, over the network as a parameter.
pub mod Answers
pub mod Fees
use Prim.Native.String.{String}
use fortresswallet.Base.{
  ℕ, ◌+◌, ◌*◌, ◌-◌, ◌^◌, Bool, true, false, not, Option, none, some, List, [], ◌∷◌, leb, ◌==◌,
  if◌then◌else◌, Result, ok, err, map_err, ok_or,
}
use fortresswallet.Base.Action.{Action, pure, raise, lift, ◌>>=◌, ◌>>◌}
use fortresswallet.Base.Json.{
  Json, string, number, array, object, boolean, nil, end, prop, codes, pair, single, as_str,
  is_null, get,
}
use fortresswallet.Policy.Clock.{u128_max, saturating_add_u128}
use fortresswallet.Rpc.{Endpoint, Untrusted}
use fortresswallet.Rpc.Encoding.{
  Malformed, not_json, no_result, no_hex_string, no_base_fee, no_status, no_block_number,
  invalid_hex, rpc_to_hex, to_hex_address, to_hex_u128, parse_hex_u64, parse_hex_u128,
  parse_hex_bytes32, parse_hex_bytes,
}

pub record JsonRpcResponse (Code : Type 0) (Message : Type 0) : Type 0 where
  pub result : Option Json
  pub error : Option (Code × Message)

-- The network, on a world of type `State`, with `serde_json`: `post` is the request with its
-- timeout and the read of the answer up to the size cap, `from_str` is the parse of the response.
pub record Net (State : Type 0) : Type 1 where
  pub Code : Type 0
  pub Message : Type 0
  pub post : List ℕ → Json → Action State Message (List ℕ)
  pub from_str : List ℕ → Result (JsonRpcResponse Code Message) Message

pub data RpcError (Code : Type 0) (Message : Type 0) : Type 0 where
  transport : Message → RpcError Code Message
  malformed : Malformed Message → RpcError Code Message
  node : Code → Message → RpcError Code Message

pub record FeeSuggestion : Type 0 where
  pub max_priority_fee_per_gas : ℕ
  pub max_fee_per_gas : ℕ

pub record TransactionReceipt : Type 0 where
  pub success : Bool
  pub block_number : ℕ

abbrev pub saturating_mul_u128 : ℕ → ℕ → ℕ
saturating_mul_u128 a b = if leb (a * b) u128_max then a * b else u128_max

-- 1.5 gwei, in wei.
abbrev pub priority_fee : ℕ
priority_fee = 1_500_000_000

abbrev pub suggestion_for : ℕ → FeeSuggestion
suggestion_for base_fee = record {
  max_priority_fee_per_gas = priority_fee;
  max_fee_per_gas = saturating_add_u128 (saturating_mul_u128 base_fee 2) priority_fee;
}

module _ {State : Type 0} (N : Net State) where
  open N use {Code, Message}

  abbrev pub Call : Type 0 → Type 0
  Call A = Action State (RpcError Code Message) A

  -- `r.map_err(RpcError::Malformed)?`
  abbrev pub or_malformed : {A : Type 0} → Result A (Malformed Message) → Call A
  or_malformed r = lift (map_err malformed r)

  abbrev pub body : String → Json → Json
  body method params = object (
      prop "jsonrpc" (string (codes "2.0"))
        (prop "id" (number 1) (prop "method" (string (codes method)) (prop "params" params end))))

  abbrev pub request : Endpoint → Json → Call (List ℕ)
  request endpoint bytes s =
      let (r, after) = N.post endpoint.url bytes s in (map_err transport r, after)

  -- The error object first, then the result.
  abbrev pub outcome : JsonRpcResponse Code Message → Result Json (RpcError Code Message)
  outcome parsed = elim parsed.error [
    | some (code, message) ↦ err (node code message)
    | none ↦ ok_or parsed.result (malformed no_result)
  ]

  abbrev pub read_response : List ℕ → Call Json
  read_response text = do
    parsed ← or_malformed (map_err not_json (N.from_str text))
    lift (outcome parsed)

  unfoldable pub call : Endpoint → String → Json → Call Json
  call endpoint method params = do text ← request endpoint (body method params); read_response text

  abbrev pub hex_string : Json → Call (List ℕ)
  hex_string v = or_malformed (ok_or (as_str v) no_hex_string)

  unfoldable pub call_hex_u64 : Endpoint → String → Json → Call ℕ
  unfolding call
  call_hex_u64 endpoint method params = do
    result ← call endpoint method params
    hex ← hex_string result
    or_malformed (parse_hex_u64 hex)

  unfoldable pub call_hex_u128 : Endpoint → String → Json → Call ℕ
  unfolding call
  call_hex_u128 endpoint method params = do
    result ← call endpoint method params
    hex ← hex_string result
    or_malformed (parse_hex_u128 hex)

  abbrev pub untrusted : {T : Type 0} → Endpoint → T → Call (Untrusted T)
  untrusted endpoint value = pure (record { value = value; source = endpoint })

  unfoldable pub chain_id : Endpoint → Call (Untrusted ℕ)
  unfolding call_hex_u64
  chain_id endpoint = do
    value ← call_hex_u64 endpoint "eth_chainId" (array nil)
    untrusted endpoint value

  unfoldable pub balance : Endpoint → List ℕ → Call (Untrusted ℕ)
  unfolding call_hex_u128
  balance endpoint address = do
    value ←
        call_hex_u128 endpoint "eth_getBalance"
          (pair (string (to_hex_address address)) (string (codes "latest")))
    untrusted endpoint value

  unfoldable pub call_contract : Endpoint → List ℕ → List ℕ → Call (Untrusted (List ℕ))
  unfolding call
  call_contract endpoint to call_data = do
    value ← call endpoint "eth_call" (
        pair
          (object (
            prop "to" (string (to_hex_address to))
              (prop "data" (string (rpc_to_hex call_data)) end)))
          (string (codes "latest")))
    hex ← hex_string value
    bytes ← or_malformed (map_err invalid_hex (parse_hex_bytes hex))
    untrusted endpoint bytes

  unfoldable pub transaction_count : Endpoint → List ℕ → Call (Untrusted ℕ)
  unfolding call_hex_u64
  transaction_count endpoint address = do
    value ←
        call_hex_u64 endpoint "eth_getTransactionCount"
          (pair (string (to_hex_address address)) (string (codes "latest")))
    untrusted endpoint value

  unfoldable pub block_number : Endpoint → Call (Untrusted ℕ)
  unfolding call_hex_u64
  block_number endpoint = do
    value ← call_hex_u64 endpoint "eth_blockNumber" (array nil)
    untrusted endpoint value

  -- `.get(key).and_then(Value::as_str).ok_or_else(…)?`
  abbrev pub text_field : String → Malformed Message → Json → Call (List ℕ)
  text_field key missing v =
      or_malformed (elim (get key v) [ none ↦ err missing | some w ↦ ok_or (as_str w) missing ])

  unfoldable pub fee_suggestion : Endpoint → Call (Untrusted FeeSuggestion)
  unfolding call
  fee_suggestion endpoint = do
    block ← call endpoint "eth_getBlockByNumber" (pair (string (codes "latest")) (boolean false))
    base_fee_hex ← text_field "baseFeePerGas" no_base_fee block
    base_fee ← or_malformed (parse_hex_u128 base_fee_hex)
    untrusted endpoint (suggestion_for base_fee)

  unfoldable pub estimate_gas : Endpoint → List ℕ → ℕ → Call (Untrusted ℕ)
  unfolding call_hex_u64
  estimate_gas endpoint to value = do
    gas ← call_hex_u64 endpoint "eth_estimateGas" (
        single (
          object (
            prop "to" (string (to_hex_address to))
              (prop "value" (string (to_hex_u128 value)) end))))
    untrusted endpoint gas

  unfoldable pub send_raw_transaction : Endpoint → List ℕ → Call (Untrusted (List ℕ))
  unfolding call
  send_raw_transaction endpoint raw = do
    result ← call endpoint "eth_sendRawTransaction" (single (string (rpc_to_hex raw)))
    hash_hex ← hex_string result
    hash ← or_malformed (map_err invalid_hex (parse_hex_bytes32 hash_hex))
    untrusted endpoint hash

  abbrev pub receipt_of : Endpoint → Json → Call (Untrusted (Option TransactionReceipt))
  receipt_of endpoint result = do
    status_hex ← text_field "status" no_status result
    status ← or_malformed (parse_hex_u64 status_hex)
    block_number_hex ← text_field "blockNumber" no_block_number result
    block_number ← or_malformed (parse_hex_u64 block_number_hex)
    untrusted endpoint (some (record { success = status == 1; block_number = block_number }))

  abbrev pub receipt_or_pending : Endpoint → Json → Call (Untrusted (Option TransactionReceipt))
  receipt_or_pending endpoint result =
      if is_null result then untrusted endpoint none else receipt_of endpoint result

  unfoldable pub transaction_receipt :
      Endpoint → List ℕ → Call (Untrusted (Option TransactionReceipt))
  unfolding call
  transaction_receipt endpoint tx_hash = do
    result ← call endpoint "eth_getTransactionReceipt" (single (string (rpc_to_hex tx_hash)))
    receipt_or_pending endpoint result
