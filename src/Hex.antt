-- ===== src/Hex.antt =====
-- Hexadecimal text: crates/wallet-cli/src/hex.rs, and the loops that its copies in wallet-rpc and
-- wallet-ffi share. A string is the list of its UTF-8 bytes. The text of an error is not modelled:
-- each message of the source is a constructor.
pub mod Digits
pub mod RoundTrip
pub mod Accepts
use fortresswallet.Base.{
  ℕ, zero, suc, ◌+◌, ◌*◌, ◌/◌, ◌%◌, ◌^◌, Bool, true, false, not, ◌||◌, ◌&&◌, Option, none, some,
  List, [], ◌∷◌, ◌++◌, length, ltb, leb, ◌==◌, if◌then◌else◌, Result, ok, err, panic, ◌>>=◌, ◌>>◌,
  fail_if, ok_or,
}
use Digits.{from_str_radix_16, hex_byte, digit_char}

pub data HexParseError : Type 0 where
  not_prefixed odd_length invalid_byte : HexParseError
  wrong_length : ℕ → HexParseError

-- `s.strip_prefix("0x")`
unfoldable pub strip_0x : List ℕ → Option (List ℕ)
strip_0x [] = none
strip_0x (a ∷ []) = none
strip_0x (a ∷ b ∷ rest) = if a == b'0' && b == b'x' then some rest else none

-- A byte inside a character: slicing a string before it panics.
unfoldable pub is_continuation : ℕ → Bool
is_continuation b = leb 128 b && ltb b 192

unfoldable pub starts_inside : List ℕ → Bool
unfolding is_continuation
starts_inside [] = false
starts_inside (b ∷ rest) = is_continuation b

-- The loop over `&stripped[i * 2..i * 2 + 2]`, for a string with an even number of bytes.
unfoldable pub parse_pairs : List ℕ → Result (List ℕ) HexParseError
unfolding starts_inside
parse_pairs [] = ok []
parse_pairs (a ∷ []) = ok []
parse_pairs (a ∷ b ∷ rest) =
    let later = parse_pairs rest in
    if starts_inside (a ∷ []) || starts_inside rest then panic else do
      byte ← ok_or (from_str_radix_16 256 (a ∷ b ∷ [])) invalid_byte
      bytes ← later
      ok (byte ∷ bytes)

unfoldable pub parse_hex : List ℕ → Result (List ℕ) HexParseError
parse_hex s = do
  stripped ← ok_or (strip_0x s) not_prefixed
  fail_if (not (length stripped % 2 == 0)) odd_length
  parse_pairs stripped

unfoldable pub parse_fixed : ℕ → List ℕ → Result (List ℕ) HexParseError
unfolding parse_hex
parse_fixed n s = do
  parsed ← parse_hex s
  fail_if (not (length parsed == n)) (wrong_length (length parsed * 2))
  ok parsed

abbrev pub parse_address : List ℕ → Result (List ℕ) HexParseError
parse_address s = parse_fixed 20 s

abbrev pub parse_tx_hash : List ℕ → Result (List ℕ) HexParseError
parse_tx_hash s = parse_fixed 32 s

-- The loop over the bytes, each written as `{byte:02x}`.
unfoldable pub hex_digits : List ℕ → List ℕ
hex_digits [] = []
hex_digits (byte ∷ bytes) = hex_byte byte ++ hex_digits bytes

unfoldable pub to_hex : List ℕ → List ℕ
unfolding hex_digits
to_hex bytes = b'0' ∷ b'x' ∷ hex_digits bytes
