-- ===== src/Hex/Accepts.antt =====
-- Which strings are read as hexadecimal, and that reading ASCII does not panic.
use fortresswallet.Base.{
  ℕ, ◌+◌, ◌*◌, ◌/◌, ◌%◌, ◌<◌, ◌≡◌, ◌≢◌, refl, sym, ap, ap₂, subst, ◌∙◌, true, false, not, ◌||◌,
  ◌&&◌, Bool-cases, inl, inr, Option-cases, some, List, [], ◌∷◌, ◌++◌, map, length, All, ltb, leb,
  ◌==◌, if◌then◌else◌, Result-cases, done, failed, panics, ok, panic, ◌>>◌, fail_if, arith,
}
use fortresswallet.Hex.Digits.{
  digit_value, digits_value, digit_char, hex_byte, from_str_radix_16, from_str_radix_16_unsigned,
  digits_value-digit, digits_value-nil,
}
use fortresswallet.Hex.{
  odd_length, strip_0x, is_continuation, starts_inside, parse_pairs, parse_hex, hex_digits, to_hex,
}

abbrev pub IsAscii : ℕ → Type 0
IsAscii b = b < 128

-- `to_ascii_lowercase`
abbrev lower : ℕ → ℕ
lower c = if leb b'A' c && leb c b'Z' then c + 32 else c

digit_char-digit_value : (c d : ℕ) → digit_value c ≡ some d → (digit_char d ≡ lower c) × (d < 16)
unfolding digit_value digit_char
digit_char-digit_value c d h = ground arith

-- Without a sign two characters are a byte only as its two digits.
pair_value :
    (a b byte : ℕ)
    → a ≢ b'+'
    → from_str_radix_16 256 (a ∷ b ∷ []) ≡ some byte
    → hex_byte byte ≡ lower a ∷ lower b ∷ []
unfolding hex_byte
pair_value a b byte no_sign h =
    let unsigned : (a == b'+') ≡ false = ground (arith, no_sign) in
    let (d, high, later) =
      digits_value-digit 256 0 a byte (b ∷ []) (from_str_radix_16_unsigned a b byte unsigned h) in
    let (e, low, last) = digits_value-digit 256 (0 * 16 + d) b byte [] later in
    let (high_char, hd) = digit_char-digit_value a d high in
    let (low_char, he) = digit_char-digit_value b e low in
    let value : byte ≡ d * 16 + e =
      ground (arith, last, digits_value-nil 256 ((0 * 16 + d) * 16 + e)) in
    let first : byte / 16 ≡ d = omega (arith, value, he) in
    let second : byte % 16 ≡ e = omega (arith, value, he) in
    ap₂ (λ x y. x ∷ y ∷ []) (ap digit_char first ∙ high_char) (ap digit_char second ∙ low_char)

-- The first pair and the others, of a string that was read.
parse_pairs-cons :
    (a b : ℕ) (rest bytes : List ℕ)
    → parse_pairs (a ∷ b ∷ rest) ≡ ok bytes
    → (byte : ℕ) × (later : List ℕ) × (from_str_radix_16 256 (a ∷ b ∷ []) ≡ some byte)
      × (parse_pairs rest ≡ ok later)
      × (bytes ≡ byte ∷ later)
unfolding parse_pairs
parse_pairs-cons a b rest bytes h =
    elim (Bool-cases (starts_inside (a ∷ []) || starts_inside rest)) [
      | inl inside ↦ absurd (ground (arith, inside, h))
      | inr aligned ↦ elim (Option-cases (from_str_radix_16 256 (a ∷ b ∷ []))) [
        | inl e ↦ absurd (ground (arith, aligned, e, h))
        | inr (byte, e) ↦ elim (Result-cases (parse_pairs rest)) [
          | done later l ↦ (byte, later, e, l, ground (arith, aligned, e, l, h))
          | failed x l ↦ absurd (ground (arith, aligned, e, l, h))
          | panics l ↦ absurd (ground (arith, aligned, e, l, h))
        ]
      ]
    ]

-- A string of pairs without a sign is read only to the bytes whose digits it is, in either case.
pub parse_pairs-lower :
    (s bytes : List ℕ)
    → All (λ c. c ≢ b'+') s
    → length s % 2 ≡ 0
    → parse_pairs s ≡ ok bytes
    → hex_digits bytes ≡ map lower s
unfolding parse_pairs hex_digits
parse_pairs-lower [] [] no_sign even h = refl
parse_pairs-lower [] (b ∷ bytes) no_sign even h = absurd (ground (arith, h))
parse_pairs-lower (a ∷ []) bytes no_sign even h = absurd (omega (arith, even))
parse_pairs-lower (a ∷ b ∷ rest) bytes no_sign even h =
    let (byte, later, here, there, whole) = parse_pairs-cons a b rest bytes h in
    ap hex_digits whole
    ∙ ap₂ ◌++◌ (pair_value a b byte no_sign.0 here)
        (parse_pairs-lower rest later no_sign.1.1 (omega (arith, even)) there)

ascii_boundary : (s : List ℕ) → All IsAscii s → starts_inside s ≡ false
unfolding starts_inside is_continuation
ascii_boundary [] h = refl
ascii_boundary (b ∷ s) h = ground (arith, h.0)

-- Reading ASCII never panics.
parse_pairs-total : (s : List ℕ) → All IsAscii s → parse_pairs s ≢ panic
unfolding parse_pairs
parse_pairs-total [] h e = cc
parse_pairs-total (a ∷ []) h e = cc
parse_pairs-total (a ∷ b ∷ rest) h e =
    let start = ascii_boundary (a ∷ []) (h.0, tt) in
    let end = ascii_boundary rest h.1.1 in
    elim (Option-cases (from_str_radix_16 256 (a ∷ b ∷ []))) [
      | inl x ↦ ground (arith, start, end, x, e)
      | inr (byte, x) ↦ elim (Result-cases (parse_pairs rest)) [
        | done later l ↦ ground (arith, start, end, x, l, e)
        | failed y l ↦ ground (arith, start, end, x, l, e)
        | panics l ↦ parse_pairs-total rest h.1.1 l
      ]
    ]

strip_0x-some : (s rest : List ℕ) → strip_0x s ≡ some rest → s ≡ b'0' ∷ b'x' ∷ rest
unfolding strip_0x
strip_0x-some [] rest h = cc
strip_0x-some (a ∷ []) rest h = cc
strip_0x-some (a ∷ b ∷ s) rest h = ground (arith, h)

-- A string without a sign that is read is, but for the case of its digits, the hexadecimal form of
-- the bytes that are returned.
to_hex-parse_hex :
    (s bytes : List ℕ) → All (λ c. c ≢ b'+') s → parse_hex s ≡ ok bytes → to_hex bytes ≡ map lower s
unfolding parse_hex to_hex
to_hex-parse_hex s bytes no_sign h = elim (Option-cases (strip_0x s)) [
  | inl e ↦ absurd (ground (arith, e, h))
  | inr (rest, e) ↦
      let whole = strip_0x-some s rest e in
      let (even, pairs) = checked_pairs rest bytes (ground (arith, e, h)) in
      let unsigned = subst (All (λ c. c ≢ b'+')) whole no_sign in
      ap (λ ds. b'0' ∷ b'x' ∷ ds) (parse_pairs-lower rest bytes unsigned.1.1 even pairs)
      ∙ ap (map lower) (sym whole)
]
  where
    checked_pairs :
        (r bs : List ℕ)
        → (fail_if (not (length r % 2 == 0)) odd_length >> parse_pairs r) ≡ ok bs
        → (length r % 2 ≡ 0) × (parse_pairs r ≡ ok bs)
    checked_pairs r bs e = ground arith

-- Reading an ASCII string never panics, whatever it is.
parse_hex-total : (s : List ℕ) → All IsAscii s → parse_hex s ≢ panic
unfolding parse_hex
parse_hex-total s ascii h = elim (Option-cases (strip_0x s)) [
  | inl e ↦ ground (arith, e, h)
  | inr (rest, e) ↦
      let whole = strip_0x-some s rest e in
      let ascii_rest = subst (All IsAscii) whole ascii in
      parse_pairs-total rest ascii_rest.1.1 (ground (arith, e, h))
]

-- A sign is read as if it were a digit 0: `0x+d` is the byte of the one digit `d`.
pub parse_hex-plus :
    (c v : ℕ) → digit_value c ≡ some v → parse_hex (b'0' ∷ b'x' ∷ b'+' ∷ c ∷ []) ≡ ok (v ∷ [])
unfolding parse_hex strip_0x parse_pairs starts_inside is_continuation from_str_radix_16
    digits_value
parse_hex-plus c v h =
    let (_, small) = digit_char-digit_value c v h in
    let fits : ltb v 256 ≡ true = ground (arith, small) in
    let plain : is_continuation 43 ≡ false = ground arith in ground (arith, h, fits)
