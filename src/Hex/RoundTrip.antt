-- ===== src/Hex/RoundTrip.antt =====
-- What is written in hexadecimal is read back.
use fortresswallet.Base.{
  ℕ, ◌+◌, ◌*◌, ◌/◌, ◌%◌, ◌<◌, ◌≡◌, refl, ap, ◌∙◌, true, false, some, List, [], ◌∷◌, length, All,
  ◌==◌, ok, arith,
}
use fortresswallet.Base.Bytes.{IsByte}
use fortresswallet.Hex.Digits.{
  digit_char, hex_byte, from_str_radix_16, digit_value-digit_char, digit_char-not_plus,
  from_str_radix_16_pair,
}
use fortresswallet.Hex.{
  strip_0x, is_continuation, starts_inside, parse_pairs, parse_hex, hex_digits, to_hex,
}

-- Two digits are a byte.
two_digits :
    (byte : ℕ)
    → byte < 256
    → from_str_radix_16 256 (digit_char (byte / 16) ∷ digit_char (byte % 16) ∷ []) ≡ some byte
two_digits byte h =
    let whole : byte / 16 * 16 + byte % 16 ≡ byte = omega arith in
    from_str_radix_16_pair _ _ (byte / 16) (byte % 16) (digit_char-not_plus (byte / 16))
      (digit_value-digit_char (byte / 16) (omega (arith, h)))
      (digit_value-digit_char (byte % 16) (omega arith)) (omega (arith, h)) (omega arith)
    ∙ ap some whole

digit_char-boundary : (d : ℕ) → d < 16 → is_continuation (digit_char d) ≡ false
unfolding is_continuation digit_char
digit_char-boundary d h = ground arith

hex_digits-boundary : (bytes : List ℕ) → All IsByte bytes → starts_inside (hex_digits bytes) ≡ false
unfolding starts_inside hex_digits hex_byte
hex_digits-boundary [] h = refl
hex_digits-boundary (byte ∷ bytes) h = digit_char-boundary (byte / 16) (omega (arith, h.0))

pub parse_pairs-hex_digits :
    (bytes : List ℕ) → All IsByte bytes → parse_pairs (hex_digits bytes) ≡ ok bytes
unfolding parse_pairs hex_digits hex_byte starts_inside
parse_pairs-hex_digits [] h = refl
parse_pairs-hex_digits (byte ∷ bytes) h =
    let start = digit_char-boundary (byte / 16) (omega (arith, h.0)) in
    let end = hex_digits-boundary bytes h.1 in
    rw (start, end, two_digits byte h.0, parse_pairs-hex_digits bytes h.1)

pub length-hex_digits : (bytes : List ℕ) → length (hex_digits bytes) ≡ 2 * length bytes
unfolding hex_digits hex_byte
length-hex_digits [] = refl
length-hex_digits (byte ∷ bytes) = omega (arith, length-hex_digits bytes)

-- Every byte string is read back from its hexadecimal form.
pub parse_hex-to_hex : (bytes : List ℕ) → All IsByte bytes → parse_hex (to_hex bytes) ≡ ok bytes
unfolding parse_hex to_hex strip_0x
parse_hex-to_hex bytes h =
    let even : (length (hex_digits bytes) % 2 == 0) ≡ true =
      ground (arith, length-hex_digits bytes) in
    rw (even, parse_pairs-hex_digits bytes h)
