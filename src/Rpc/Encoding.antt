-- ===== src/Rpc/Encoding.antt =====
-- crates/wallet-rpc/src/evm.rs: hexadecimal of requests and answers. The texts of errors are not
-- modelled; each message of the source is a constructor.
pub mod Numbers
pub mod RoundTrip
use fortresswallet.Base.{
  ℕ, ◌*◌, ◌%◌, ◌^◌, not, List, [], ◌∷◌, length, ◌==◌, Result, ok, err, ◌>>=◌, ◌>>◌, ok_or, fail_if,
}
use fortresswallet.Hex.Digits.{from_str_radix_16}
use fortresswallet.Hex.{
  HexParseError, not_prefixed, odd_length, wrong_length, strip_0x, parse_pairs, hex_digits,
}
use Numbers.{number_digits}

-- What the source calls a malformed response for.
pub data Malformed (Message : Type 0) : Type 0 where
  not_json : Message → Malformed Message
  no_result no_hex_string no_base_fee no_status no_block_number invalid_number : Malformed Message
  invalid_hex : HexParseError → Malformed Message

unfoldable pub rpc_to_hex : List ℕ → List ℕ
rpc_to_hex bytes = b'0' ∷ b'x' ∷ hex_digits bytes

abbrev pub to_hex_address : List ℕ → List ℕ
to_hex_address address = rpc_to_hex address

-- `{value:#x}`
unfoldable pub to_hex_u128 : ℕ → List ℕ
to_hex_u128 value = b'0' ∷ b'x' ∷ number_digits 32 value

module _ {Message : Type 0} where
  unfoldable pub parse_hex_u64 : List ℕ → Result ℕ (Malformed Message)
  parse_hex_u64 hex = do
    stripped ← ok_or (strip_0x hex) (invalid_hex not_prefixed)
    ok_or (from_str_radix_16 (2 ^ 64) stripped) invalid_number

  unfoldable pub parse_hex_u128 : List ℕ → Result ℕ (Malformed Message)
  parse_hex_u128 hex = do
    stripped ← ok_or (strip_0x hex) (invalid_hex not_prefixed)
    ok_or (from_str_radix_16 (2 ^ 128) stripped) invalid_number

unfoldable pub parse_hex_bytes32 : List ℕ → Result (List ℕ) HexParseError
parse_hex_bytes32 hex = do
  stripped ← ok_or (strip_0x hex) not_prefixed
  fail_if (not (length stripped == 64)) (wrong_length (length stripped))
  parse_pairs stripped

unfoldable pub parse_hex_bytes : List ℕ → Result (List ℕ) HexParseError
parse_hex_bytes hex = do
  stripped ← ok_or (strip_0x hex) not_prefixed
  fail_if (not (length stripped % 2 == 0)) odd_length
  parse_pairs stripped
