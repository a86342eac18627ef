-- ===== src/Ffi/Words.antt =====
-- The words of contract calls.
use fortresswallet.Base.{
  ℕ, suc, zero, ◌+◌, ◌*◌, ◌^◌, ◌≤◌, ◌≡◌, refl, sym, ap, ap₂, ◌∙◌, true, false, Bool-cases, inl, inr,
  List, [], ◌∷◌, ◌++◌, All, length, take, drop, replicate, ltb, ◌==◌, ==_iff, Result, ok, err,
  length-take, length-append, ◌≢◌, if◌then◌else◌, length-drop, take-append-drop, ◌↔◌, take-append,
  All-take, All-drop, arith,
}
use mathlib.Core.List.{append_assoc}
use fortresswallet.Base.Bytes.{
  IsByte, IsBytes, to_be_bytes, from_be_bytes, to-from_be_bytes, from_be_bytes-append,
  from_be_bytes-lt,
}
use fortresswallet.Ffi.Abi.{all_zero, decode_uint256_result, Oversized, oversized}

all_zero-replicate : (n : ℕ) → all_zero (replicate n 0) ≡ true
unfolding all_zero
all_zero-replicate zero = refl
all_zero-replicate (suc n) = all_zero-replicate n

all_zero-eq : (bytes : List ℕ) → all_zero bytes ≡ true → bytes ≡ replicate (length bytes) 0
unfolding all_zero
all_zero-eq [] h = refl
all_zero-eq (b ∷ bytes) h = elim (Bool-cases (b == 0)) [
  | inl z ↦
      let zero_byte : b ≡ 0 = (==_iff b 0).0 z in
      ap₂ (λ c cs. c ∷ cs) zero_byte (all_zero-eq bytes (ground (arith, z, h)))
  | inr z ↦ absurd (ground (arith, z, h))
]

zeros : from_be_bytes (replicate 16 0) ≡ 0
unfolding from_be_bytes
zeros = refl

no_bits : all_zero (to_be_bytes 16 0) ≡ true
unfolding to_be_bytes all_zero
no_bits = refl

all_zero-value :
    (bytes : List ℕ) → IsBytes 16 bytes → (all_zero bytes ≡ true) ↔ (from_be_bytes bytes ≡ 0)
all_zero-value bytes whole = (
  λ h.
      ap from_be_bytes (all_zero-eq bytes h)
      ∙ ap (λ n. from_be_bytes (replicate n 0)) whole.1
      ∙ zeros,
  λ h.
      ap all_zero (sym (to-from_be_bytes 16 bytes whole))
      ∙ ap (λ v. all_zero (to_be_bytes 16 v)) h
      ∙ no_bits,
)

-- The first 32 bytes are two halves.
halves :
    (r : List ℕ)
    → All IsByte r
    → 32 ≤ length r
    → IsBytes 16 (take 16 r)
      × IsBytes 16 (take 16 (drop 16 r))
      × (from_be_bytes (take 32 r)
          ≡ from_be_bytes (take 16 (drop 16 r)) + 256 ^ 16 * from_be_bytes (take 16 r))
halves r bs long =
    let a = take 16 r in
    let b = take 16 (drop 16 r) in
    let rest = drop 16 (drop 16 r) in
    let high : length a ≡ 16 = omega (arith, length-take 16 r, long) in
    let low : length b ≡ 16 = omega (arith, length-take 16 (drop 16 r), length-drop 16 r, long) in
    let parts : (a ++ b) ++ rest ≡ r =
      append_assoc a b rest
      ∙ ap (λ t. a ++ t) (take-append-drop 16 (drop 16 r))
      ∙ take-append-drop 16 r in
    let front : take 32 r ≡ a ++ b =
      ap (take 32) (sym parts)
      ∙ take-append 32 (a ++ b) rest (omega (arith, length-append a b, high, low)) in
    (
      (All-take IsByte 16 r bs, high),
      (All-take IsByte 16 (drop 16 r) (All-drop IsByte 16 r bs), low),
      ap from_be_bytes front
          ∙ from_be_bytes-append a b
          ∙ ap (λ n. from_be_bytes b + 256 ^ n * from_be_bytes a) low,
    )

-- The big-endian number of the first 32 bytes, if it fits 128 bits.
abbrev pub word_of : List ℕ → Result ℕ Oversized
word_of bytes =
    if ltb (from_be_bytes (take 32 bytes)) (2 ^ 128)
    then ok (from_be_bytes (take 32 bytes))
    else err oversized

-- The answer to a call is read as the big-endian number of its first 32 bytes, which is an error
-- where it does not fit 128 bits, and as 0 where the answer is shorter.
pub decode_uint256_result-word_of :
    (result : List ℕ)
    → All IsByte result
    → decode_uint256_result result ≡ (if ltb (length result) 32 then ok 0 else word_of result)
unfolding decode_uint256_result
decode_uint256_result-word_of result bytes = elim (Bool-cases (ltb (length result) 32)) [
  | inl short ↦ rw (short) refl
  | inr long ↦
      let (high, low, value) = halves result bytes (ground (arith, long)) in
      let small_low = from_be_bytes-lt 16 (take 16 (drop 16 result)) low in
      elim (Bool-cases (all_zero (take 16 result))) [
        | inl clear ↦
            let none_high = (all_zero-value (take 16 result) high).0 clear in
            let same : from_be_bytes (take 32 result) ≡ from_be_bytes (take 16 (drop 16 result)) =
              omega (arith, value, none_high) in
            let fits : ltb (from_be_bytes (take 32 result)) (2 ^ 128) ≡ true =
              ground (arith, same, small_low) in
            rw (long, clear, fits) (ap ok (sym same))
        | inr some_high ↦
            let not_zero : from_be_bytes (take 16 result) ≢ 0 =
              λ z. cc ((all_zero-value (take 16 result) high).1 z, some_high) in
            let large : ltb (from_be_bytes (take 32 result)) (2 ^ 128) ≡ false =
              ground (arith, value, not_zero) in
            rw (long, some_high, large) refl
      ]
]
