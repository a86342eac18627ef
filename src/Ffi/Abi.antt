-- ===== src/Ffi/Abi.antt =====
-- crates/wallet-ffi/src/lib.rs: the words of contract calls, and addresses.

use fortresswallet.Base.{
  ℕ, not, Bool, true, false, List, [], ◌∷◌, ◌++◌, length, take, drop, replicate, ltb, ◌==◌,
  if◌then◌else◌, Result, ok, err, ◌>>=◌, ◌>>◌, fail_if, ok_or,
}
use fortresswallet.Base.Bytes.{to_be_bytes, from_be_bytes}
use fortresswallet.Hex.{HexParseError, not_prefixed, wrong_length, strip_0x, parse_pairs}

-- The kind of the error is forgotten by its callers.
unfoldable pub parse_address_hex : List ℕ → Result (List ℕ) HexParseError
parse_address_hex s = do
  stripped ← ok_or (strip_0x s) not_prefixed
  fail_if (not (length stripped == 40)) (wrong_length (length stripped))
  parse_pairs stripped

-- `balanceOf(address)`
unfoldable pub construct_balance_of_data : List ℕ → List ℕ
construct_balance_of_data address = (0x70 ∷ 0xa0 ∷ 0x82 ∷ 0x31 ∷ []) ++ (replicate 12 0 ++ address)

-- `transfer(address,uint256)`
unfoldable pub construct_transfer_data : List ℕ → ℕ → List ℕ
construct_transfer_data to value =
    (0xa9 ∷ 0x05 ∷ 0x9c ∷ 0xbb ∷ [])
    ++ (replicate 12 0 ++ (to ++ (replicate 16 0 ++ to_be_bytes 16 value)))

unfoldable pub all_zero : List ℕ → Bool
all_zero [] = true
all_zero (b ∷ bytes) = if b == 0 then all_zero bytes else false

-- The value does not fit a `u128`.
pub data Oversized : Type 0 where
  oversized : Oversized

unfoldable pub decode_uint256_result : List ℕ → Result ℕ Oversized
unfolding all_zero
decode_uint256_result result =
    if ltb (length result) 32
    then ok 0
    else if all_zero (take 16 result)
    then ok (from_be_bytes (take 16 (drop 16 result)))
    else err oversized
