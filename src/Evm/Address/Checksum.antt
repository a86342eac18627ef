-- ===== src/Evm/Address/Checksum.antt =====
-- The checksummed form of an address is one of its hexadecimal forms.
use fortresswallet.Base.{
  ℕ, suc, ◌+◌, ◌*◌, ◌/◌, ◌%◌, ◌<◌, ◌≡◌, ◌≢◌, refl, ap, ◌∙◌, true, false, List, [], ◌∷◌, length, All,
  ◌==◌, some, ok, arith,
}
use fortresswallet.Base.Bytes.{IsByte}
use fortresswallet.Hex.{
  is_continuation, starts_inside, parse_pairs, parse_hex, parse_address, parse_fixed, hex_digits,
  strip_0x,
}
use fortresswallet.Hex.Digits.{digit_value, digit_char, hex_byte, from_str_radix_16_pair}
use fortresswallet.Hex.RoundTrip.{length-hex_digits}
use fortresswallet.Crypto.{keccak256, Backend}
use fortresswallet.Evm.Address.{cased, checksummed, nibbles, to_checksummed_hex}

-- Either case of a digit has its value.
cased-digit :
    (d n : ℕ)
    → d < 16
    → (digit_value (cased (digit_char d) n) ≡ some d)
      × (cased (digit_char d) n ≢ b'+')
      × (is_continuation (cased (digit_char d) n) ≡ false)
unfolding digit_value digit_char is_continuation
cased-digit d n h = (ground arith, ground arith, ground arith)

-- A character that stands for a digit.
abbrev IsDigit : ℕ → ℕ → Type 0
IsDigit d c = (digit_value c ≡ some d) × (c ≢ b'+') × (is_continuation c ≡ false)

digit_char-IsDigit : (d : ℕ) → d < 16 → IsDigit d (digit_char d)
unfolding digit_value digit_char is_continuation
digit_char-IsDigit d h = (ground arith, ground arith, ground arith)

checksummed-uncons :
    (d : ℕ) (cs ns : List ℕ)
    → d < 16
    → (c : ℕ) × (rest : List ℕ) × (checksummed (digit_char d ∷ cs) ns ≡ c ∷ checksummed cs rest)
      × IsDigit d c
unfolding checksummed
checksummed-uncons d cs [] h = (digit_char d, [], refl, digit_char-IsDigit d h)
checksummed-uncons d cs (n ∷ ns) h = (cased (digit_char d) n, ns, refl, cased-digit d n h)

checksummed-boundary :
    (bytes ns : List ℕ)
    → All IsByte bytes
    → starts_inside (checksummed (hex_digits bytes) ns) ≡ false
unfolding checksummed hex_digits hex_byte starts_inside
checksummed-boundary [] ns h = refl
checksummed-boundary (byte ∷ bytes) ns (small, h) =
    let (c, rest, e, is_digit) =
      checksummed-uncons (byte / 16) (digit_char (byte % 16) ∷ hex_digits bytes) ns
        (omega (arith, small)) in
    ap starts_inside e ∙ is_digit.2

length-checksummed : (cs ns : List ℕ) → length (checksummed cs ns) ≡ length cs
unfolding checksummed
length-checksummed [] ns = refl
length-checksummed (c ∷ cs) [] = ap suc (length-checksummed cs [])
length-checksummed (c ∷ cs) (n ∷ ns) = ap suc (length-checksummed cs ns)

parse_pairs-checksummed :
    (bytes ns : List ℕ)
    → All IsByte bytes
    → parse_pairs (checksummed (hex_digits bytes) ns) ≡ ok bytes
unfolding parse_pairs starts_inside hex_digits hex_byte checksummed
parse_pairs-checksummed [] ns h = refl
parse_pairs-checksummed (byte ∷ bytes) ns (small, h) =
    let whole : byte / 16 * 16 + byte % 16 ≡ byte = omega arith in
    let (a, ns1, e1, (high, no_sign, start)) =
      checksummed-uncons (byte / 16) (digit_char (byte % 16) ∷ hex_digits bytes) ns
        (omega (arith, small)) in
    let (b, ns2, e2, (low, _, _)) =
      checksummed-uncons (byte % 16) (hex_digits bytes) ns1 (omega arith) in
    let value =
      from_str_radix_16_pair a b (byte / 16) (byte % 16) (ground (arith, no_sign)) high low
        (omega (arith, small)) (omega arith)
      ∙ ap some whole in
    let split : checksummed (hex_digits (byte ∷ bytes)) ns
        ≡ a ∷ b ∷ checksummed (hex_digits bytes) ns2 =
      e1 ∙ ap (λ cs. a ∷ cs) e2 in
    ap parse_pairs split
    ∙ rw (start, checksummed-boundary bytes ns2 h, value, parse_pairs-checksummed bytes ns2 h)

-- Whatever the hash, the checksummed form of an address of 20 bytes is read back as that address.
pub parse_address-to_checksummed_hex :
    (B : Backend) (address : List ℕ)
    → All IsByte address
    → length address ≡ 20
    → parse_address (to_checksummed_hex B address) ≡ ok address
unfolding parse_fixed parse_hex strip_0x to_checksummed_hex
parse_address-to_checksummed_hex B address h size =
    let ns = nibbles (keccak256 B (hex_digits address)) in
    let digits = checksummed (hex_digits address) ns in
    let even : (length digits % 2 == 0) ≡ true =
      ground (arith, length-checksummed (hex_digits address) ns, length-hex_digits address) in
    let full : (length address == 20) ≡ true = ground (arith, size) in
    rw (even, parse_pairs-checksummed address ns h, full) refl
