-- ===== src/Decoder/Verdict.antt =====
-- `decode` on a frame, as a function of the frame's fields.
use fortresswallet.Base.{
  ℕ, suc, ◌⊎◌, ◌≤◌, ◌∷◌, ◌+◌, ◌^◌, ◌<◌, ◌≡◌, true, not, List, length, ltb, ◌==◌, Result, some,
  false, ok, err, ◌>>◌, fail_if, arith,
}
use fortresswallet.Base.Bytes.{IsBytes, from_be_bytes, from_be_bytes-lt}
use fortresswallet.Decoder.{
  DecodedTransaction, DecodeError, oversized, truncated, unsupported_version, unrecognized_calldata,
  max_input_len, current_version, header_len, checked_add, decode,
}
use fortresswallet.Decoder.Frame.{
  frame, length-frame, slice-chain, slice-to, slice-value, slice-len,
}

-- The tests that are left once the header is known to be there.
abbrev pub verdict :
    ℕ → List ℕ → List ℕ → List ℕ → List ℕ → List ℕ → Result DecodedTransaction DecodeError
verdict version chain to value len calldata = do
  fail_if (ltb max_input_len (47 + length calldata)) oversized
  fail_if (not (version == current_version)) (unsupported_version version)
  fail_if (not (length calldata == from_be_bytes len)) truncated
  fail_if (ltb 0 (from_be_bytes len)) unrecognized_calldata
  ok (record { chain_id = from_be_bytes chain; to = to; value = from_be_bytes value })

header_there : (n : ℕ) → ltb (47 + n) header_len ≡ false
header_there n = ground arith

-- `data_len` is a `u16`, so `checked_add` never fails.
checked_add_small : (d : ℕ) → d < 256 ^ 2 → checked_add 47 d ≡ some (47 + d)
checked_add_small d h = ground arith

same_len : (n d : ℕ) → (47 + n == 47 + d) ≡ (n == d)
same_len n d = ground arith

pub decode-frame :
    (version : ℕ) (chain to value len calldata : List ℕ)
    → IsBytes 8 chain
    → IsBytes 20 to
    → IsBytes 16 value
    → IsBytes 2 len
    → decode (frame version chain to value len calldata)
      ≡ verdict version chain to value len calldata
unfolding decode
decode-frame version chain to value len calldata (_, c8) (_, t20) (_, v16) l2 =
    let total = length-frame version chain to value len calldata c8 t20 v16 l2.1 in
    let s1 = slice-chain version chain to value len calldata c8 t20 v16 l2.1 in
    let s2 = slice-to version chain to value len calldata c8 t20 v16 l2.1 in
    let s3 = slice-value version chain to value len calldata c8 t20 v16 l2.1 in
    let s4 = slice-len version chain to value len calldata c8 t20 v16 l2.1 in
    let no_overflow = checked_add_small (from_be_bytes len) (from_be_bytes-lt 2 len l2) in
    rw (total, s1, s2, s3, s4) (rw (header_there (length calldata), no_overflow, same_len _ _))

short_total : (n : ℕ) → n < 46 → ltb max_input_len (suc n) ≡ false
short_total n h = ground arith

short_header : (n : ℕ) → n < 46 → ltb (suc n) header_len ≡ true
short_header n h = ground arith

-- An input that ends inside the header is truncated, whatever its bytes.
pub decode_short :
    (version : ℕ) (rest : List ℕ) → length rest < 46 → decode (version ∷ rest) ≡ err truncated
unfolding decode
decode_short version rest h = rw (short_total _ h, short_header _ h)

pub long_or_short : (n : ℕ) → (n < 46) ⊎ (46 ≤ n)
long_or_short n = omega arith
