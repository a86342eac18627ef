-- ===== src/Hex/Digits.antt =====
-- Rust's `from_str_radix` at radix 16 and its hexadecimal formatting.
use fortresswallet.Base.{
  ℕ, ◌+◌, ◌-◌, ◌*◌, ◌/◌, ◌%◌, ◌<◌, ◌≡◌, refl, true, false, ◌&&◌, Option, none, some, List, [], ◌∷◌,
  Option-cases, Bool-cases, inl, inr, ltb, leb, ◌==◌, if◌then◌else◌, arith,
}

-- `char::to_digit(16)` on an ASCII byte.
unfoldable pub digit_value : ℕ → Option ℕ
digit_value c =
    if leb b'0' c && leb c b'9'
    then some (c - b'0')
    else if leb b'a' c && leb c b'f'
    then some (c - b'a' + 10)
    else if leb b'A' c && leb c b'F'
    then some (c - b'A' + 10)
    else none

-- The digits on from `acc`, as long as the value is below `limit`.
unfoldable pub digits_value : ℕ → ℕ → List ℕ → Option ℕ
digits_value limit acc [] = some acc
digits_value limit acc (c ∷ cs) = elim (digit_value c) [
  | none ↦ none
  | some d ↦
      let rest = digits_value limit (acc * 16 + d) cs in
      if ltb (acc * 16 + d) limit then rest else none
]

-- For an unsigned type of the values below `limit`: an optional `+`, then at least one digit.
unfoldable pub from_str_radix_16 : ℕ → List ℕ → Option ℕ
unfolding digits_value
from_str_radix_16 limit [] = none
from_str_radix_16 limit (c ∷ []) = digits_value limit 0 (c ∷ [])
from_str_radix_16 limit (c ∷ d ∷ cs) =
    if c == b'+' then digits_value limit 0 (d ∷ cs) else digits_value limit 0 (c ∷ d ∷ cs)

-- The lowercase digit of a number below 16.
unfoldable pub digit_char : ℕ → ℕ
digit_char d = if ltb d 10 then d + b'0' else d + 87

-- `{byte:02x}`
unfoldable pub hex_byte : ℕ → List ℕ
unfolding digit_char
hex_byte byte = digit_char (byte / 16) ∷ digit_char (byte % 16) ∷ []

pub digit_value-digit_char : (d : ℕ) → d < 16 → digit_value (digit_char d) ≡ some d
unfolding digit_value digit_char
digit_value-digit_char d h = ground arith

pub digit_char-not_plus : (d : ℕ) → (digit_char d == b'+') ≡ false
unfolding digit_char
digit_char-not_plus d = ground arith

digits_value-pair :
    (a b d e : ℕ)
    → digit_value a ≡ some d
    → digit_value b ≡ some e
    → d < 16
    → e < 16
    → digits_value 256 0 (a ∷ b ∷ []) ≡ some (d * 16 + e)
unfolding digits_value
digits_value-pair a b d e high low hd he =
    let first : ltb d 256 ≡ true = ground (arith, hd) in
    let second : ltb (d * 16 + e) 256 ≡ true = ground (arith, hd, he) in
    ground (arith, high, first, low, second)

-- Two characters that are no sign and a digit are read as two digits.
pub from_str_radix_16_pair :
    (a b d e : ℕ)
    → (a == b'+') ≡ false
    → digit_value a ≡ some d
    → digit_value b ≡ some e
    → d < 16
    → e < 16
    → from_str_radix_16 256 (a ∷ b ∷ []) ≡ some (d * 16 + e)
unfolding from_str_radix_16
from_str_radix_16_pair a b d e no_sign high low hd he =
    rw (no_sign) (digits_value-pair a b d e high low hd he)

-- A digit was read wherever the rest could be.
pub digits_value-digit :
    (limit acc c v : ℕ) (cs : List ℕ)
    → digits_value limit acc (c ∷ cs) ≡ some v
    → (d : ℕ) × (digit_value c ≡ some d) × (digits_value limit (acc * 16 + d) cs ≡ some v)
unfolding digits_value
digits_value-digit limit acc c v cs h = elim (Option-cases (digit_value c)) [
  | inl e ↦ absurd (cc (e, h))
  | inr (d, e) ↦ elim (Bool-cases (ltb (acc * 16 + d) limit)) [
    | inl small ↦ (d, e, ground (arith, e, small, h))
    | inr big ↦ absurd (ground (arith, e, big, h))
  ]
]

pub digits_value-nil : (limit acc : ℕ) → digits_value limit acc [] ≡ some acc
unfolding digits_value
digits_value-nil limit acc = refl

pub from_str_radix_16_unsigned :
    (a b v : ℕ)
    → (a == b'+') ≡ false
    → from_str_radix_16 256 (a ∷ b ∷ []) ≡ some v
    → digits_value 256 0 (a ∷ b ∷ []) ≡ some v
unfolding from_str_radix_16
from_str_radix_16_unsigned a b v no_sign h = ground (arith, no_sign, h)
