-- ===== src/Tests/Asking.antt =====
-- Hexadecimal, and a network whose nodes echo.
use fortresswallet.Base.{
  ℕ, ◌≡◌, ◌≢◌, ◌↔◌, refl, ap, ◌∙◌, true, Option, none, some, List, [], ◌∷◌, length, Result, ok, err,
  panic, ◌==◌, ◌+◌, zero, suc, arith,
}
use fortresswallet.Base.Json.{
  Json, null, string, object, prop, end, codes, is_null, get, get_prop, as_str,
}
use fortresswallet.Hex.{parse_hex, to_hex, strip_0x, hex_digits}
use fortresswallet.Hex.Digits.{digit_value, digits_value, from_str_radix_16}
use fortresswallet.Hex.RoundTrip.{parse_hex-to_hex}
use fortresswallet.Rpc.{Endpoint, Untrusted, try_cross_check}
use fortresswallet.Rpc.CrossCheck.{Corroborated, try_cross_check_iff}
use fortresswallet.Rpc.Encoding.{rpc_to_hex, parse_hex_u128, parse_hex_u64}
use fortresswallet.Rpc.Client.{
  Net, JsonRpcResponse, TransactionReceipt, FeeSuggestion, call, fee_suggestion,
  transaction_receipt,
}
use fortresswallet.Rpc.Client.Answers.{NetLaws, transaction_receipt-not_pending}
use fortresswallet.Rpc.Client.Fees.{IsPayable, fee_suggestion-IsPayable}

parse_hex-to_hex_example : parse_hex (to_hex (1 ∷ 255 ∷ [])) ≡ ok (1 ∷ 255 ∷ [])
parse_hex-to_hex_example = parse_hex-to_hex (1 ∷ 255 ∷ []) (omega arith, (omega arith, tt))

abbrev node : ℕ → Endpoint
node i = record { url = i ∷ [] }

abbrev claim : Untrusted ℕ
claim = record { value = 5; source = node 0 }

abbrev peers : List Endpoint
peers = node 1 ∷ node 2 ∷ []

abbrev ask : Endpoint → ℕ → Result ℕ (Unit {0}) × ℕ
ask e s = (ok (length e.url + 4), s + 1)

try_cross_check_iff_example :
    (try_cross_check (λ a b. a == b) claim peers ask 0 ≡ (ok 5, 2))
    ↔ ((5 ≡ claim.value) × Corroborated (λ a b. a == b) claim ask peers 0 2)
try_cross_check_iff_example = try_cross_check_iff (λ a b. a == b) claim ask peers 0 2 5

-- A receipt, a block, or the text itself; nothing where there is no text.
abbrev answer : List ℕ → Option Json
answer [] = none
answer (zero ∷ text) =
    some (
      object (prop "status" (string (codes "0x1")) (prop "blockNumber" (string (codes "0x7")) end)))
answer (suc zero ∷ text) = some (object (prop "baseFeePerGas" (string (codes "0x64")) end))
answer (suc (suc c) ∷ text) = some (string (c ∷ text))

abbrev echo : Net ℕ
echo = record {
  Code = Unit {0};
  Message = Unit {0};
  post = λ url body s. (ok url, s + 1);
  from_str = λ text. ok (record { result = answer text; error = none });
}

answer-not_null : (text : List ℕ) → answer text ≢ some null
answer-not_null [] h = cc
answer-not_null (zero ∷ text) h = cc
answer-not_null (suc zero ∷ text) h = cc
answer-not_null (suc (suc c) ∷ text) h = cc

abbrev result_of : Result (JsonRpcResponse (Unit {0}) (Unit {0})) (Unit {0}) → Option Json
result_of (ok r) = r.result
result_of (err e) = none
result_of panic = none

echo_laws : NetLaws echo
echo_laws = record { null_is_none = λ text r h bad. answer-not_null text (ap result_of h ∙ bad) }

abbrev receipt : Untrusted (Option TransactionReceipt)
receipt = record { value = some (record { success = true; block_number = 7 }); source = node 0 }

receipt_ok : transaction_receipt echo (node 0) [] 4 ≡ (ok receipt, 5)
unfolding transaction_receipt call is_null get get_prop as_str rpc_to_hex hex_digits parse_hex_u64
    strip_0x from_str_radix_16 digits_value digit_value
receipt_ok = refl

transaction_receipt-not_pending_example : receipt.value ≢ none
transaction_receipt-not_pending_example =
    transaction_receipt-not_pending echo echo_laws (node 0) [] 4 5 receipt receipt_ok

abbrev suggested : Untrusted FeeSuggestion
suggested = record {
  value = record { max_priority_fee_per_gas = 1_500_000_000; max_fee_per_gas = 1_500_000_200 };
  source = node 1;
}

suggested_ok : fee_suggestion echo (node 1) 4 ≡ (ok suggested, 5)
unfolding fee_suggestion call get get_prop as_str parse_hex_u128 strip_0x from_str_radix_16
    digits_value digit_value
suggested_ok = refl

fee_suggestion-IsPayable_example : IsPayable suggested.value
fee_suggestion-IsPayable_example = fee_suggestion-IsPayable echo (node 1) 4 5 suggested suggested_ok

abbrev capital : List ℕ
capital = b'0' ∷ b'x' ∷ b'F' ∷ b'f' ∷ []
