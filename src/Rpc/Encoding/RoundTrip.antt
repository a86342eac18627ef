-- ===== src/Rpc/Encoding/RoundTrip.antt =====
-- What the client writes in hexadecimal, it reads back.
use fortresswallet.Base.{ℕ, ◌^◌, ◌<◌, ◌≡◌, true, List, length, ◌==◌, ok, ◌%◌, All, arith}
use fortresswallet.Base.Bytes.{IsByte}
use fortresswallet.Hex.{strip_0x, hex_digits}
use fortresswallet.Hex.RoundTrip.{parse_pairs-hex_digits, length-hex_digits}
use fortresswallet.Rpc.Encoding.{
  rpc_to_hex, to_hex_u128, parse_hex_u128, parse_hex_bytes32, parse_hex_bytes,
}
use fortresswallet.Rpc.Encoding.Numbers.{from_str_radix_16-number_digits}

-- Every 128-bit amount that the client writes in hexadecimal is read back as that amount.
pub parse_hex_u128-to_hex_u128 :
    {Message : Type 0} (value : ℕ)
    → value < 2 ^ 128
    → parse_hex_u128 {Message = Message} (to_hex_u128 value) ≡ ok value
unfolding parse_hex_u128 to_hex_u128 strip_0x
parse_hex_u128-to_hex_u128 value h = rw (from_str_radix_16-number_digits (2 ^ 128) 31 value h h)

-- Every byte string that the client writes in hexadecimal is read back, and one of 32 bytes is
-- read back as a hash.
pub parse_hex_bytes-rpc_to_hex :
    (bytes : List ℕ)
    → All IsByte bytes
    → (parse_hex_bytes (rpc_to_hex bytes) ≡ ok bytes)
      × (length bytes ≡ 32 → parse_hex_bytes32 (rpc_to_hex bytes) ≡ ok bytes)
unfolding parse_hex_bytes parse_hex_bytes32 rpc_to_hex strip_0x
parse_hex_bytes-rpc_to_hex bytes h =
    let even : (length (hex_digits bytes) % 2 == 0) ≡ true =
      ground (arith, length-hex_digits bytes) in
    (
      rw (even, parse_pairs-hex_digits bytes h),
      λ whole.
          let full : (length (hex_digits bytes) == 64) ≡ true =
            ground (arith, length-hex_digits bytes, whole) in
          rw (full, parse_pairs-hex_digits bytes h),
    )
