-- ===== src/Decoder.antt =====
-- crates/wallet-decoder/src/lib.rs: the wire format of a plain transfer,
-- `version(1) || chain_id(8) || to(20) || value(16) || data_len(2) || data`.
-- A byte slice is a list of numbers, and an address is such a list of length 20.
mod Frame
mod Verdict
pub mod RoundTrip
pub mod Rejects
pub mod Evm
use fortresswallet.Base.{
  ℕ, ◌+◌, ◌*◌, ◌^◌, Bool, not, Option, none, some, List, [], ◌∷◌, ◌++◌, length, slice, ltb, leb,
  ◌==◌, if◌then◌else◌, Result, ok, err, ◌>>=◌, ◌>>◌, fail_if, ok_or,
}
use fortresswallet.Base.Bytes.{to_be_bytes, from_be_bytes}

abbrev pub current_version : ℕ
current_version = 1

-- version + chain_id + to + value + data_len
abbrev pub header_len : ℕ
header_len = 1 + 8 + 20 + 16 + 2

abbrev pub max_input_len : ℕ
max_input_len = 64 * 1024

pub record DecodedTransaction : Type 0 where
  pub chain_id : ℕ
  pub to : List ℕ
  pub value : ℕ

unfoldable pub canonical_bytes : DecodedTransaction → List ℕ
canonical_bytes tx = to_be_bytes 8 tx.chain_id ++ (tx.to ++ to_be_bytes 16 tx.value)

pub data DecodeError : Type 0 where
  empty oversized truncated : DecodeError
  unsupported_version : ℕ → DecodeError
  unrecognized_calldata : DecodeError

-- `usize::checked_add` on a 64-bit target.
abbrev checked_add : ℕ → ℕ → Option ℕ
checked_add a b = if ltb (a + b) (2 ^ 64) then some (a + b) else none

-- The tests on `raw` in the source's order; the first clause is `raw.is_empty()`.
unfoldable pub decode : List ℕ → Result DecodedTransaction DecodeError
decode [] = err empty
decode (version ∷ rest) = do
  let raw = version ∷ rest
  fail_if (ltb max_input_len (length raw)) oversized
  fail_if (ltb (length raw) header_len) truncated
  fail_if (not (version == current_version)) (unsupported_version version)
  let chain_id = from_be_bytes (slice raw 1 (1 + 8))
  let to = slice raw 9 (9 + 20)
  let value = from_be_bytes (slice raw 29 (29 + 16))
  let data_len = from_be_bytes (slice raw 45 (45 + 2))
  expected_len ← ok_or (checked_add 47 data_len) truncated
  fail_if (not (length raw == expected_len)) truncated
  fail_if (ltb 0 data_len) unrecognized_calldata
  ok (record { chain_id = chain_id; to = to; value = value })

unfoldable pub encode_transfer : ℕ → List ℕ → ℕ → List ℕ
encode_transfer chain_id to value =
    current_version ∷ (to_be_bytes 8 chain_id ++ (to ++ (to_be_bytes 16 value ++ to_be_bytes 2 0)))
