-- ===== src/Decoder/Rejects.antt =====
-- What `decode` refuses, and why.
use fortresswallet.Base.{
  ℕ, suc, ◌+◌, ◌^◌, ◌<◌, ◌≤◌, ◌≡◌, ◌≢◌, ◌↔◌, ◌⊎◌, inl, inr, refl, List, [], ◌∷◌, length, slice,
  Result, ok, err, ◌>>◌, fail_if, not, ltb, ◌==◌, All, All-take, some, ◌∙◌, All-drop, length-take,
  length-drop, arith,
}
use fortresswallet.Base.Bytes.{IsByte, IsBytes, from_be_bytes, from_be_bytes-lt}
use fortresswallet.Decoder.{
  DecodedTransaction, DecodeError, empty, oversized, truncated, unsupported_version,
  unrecognized_calldata, max_input_len, header_len, checked_add, decode,
}
use fortresswallet.Decoder.Verdict.{decode_short, long_or_short}

abbrev len_field : List ℕ → ℕ
len_field raw = from_be_bytes (slice raw 45 47)

-- An input of `version` and `rest` with a whole header, within the size cap.
abbrev HasHeader : List ℕ → Type 0
HasHeader rest = (46 ≤ length rest) × (length rest < max_input_len)

-- What each error says of the input.
abbrev pub Reason : DecodeError → List ℕ → Type 0
Reason empty raw = length raw ≡ 0
Reason oversized raw = max_input_len < length raw
Reason truncated [] = ⊥
Reason truncated (version ∷ rest) =
    (length rest < 46)
    ⊎ (HasHeader rest × (version ≡ 1) × (length rest ≢ 46 + len_field (version ∷ rest)))
Reason (unsupported_version v) [] = ⊥
Reason (unsupported_version v) (version ∷ rest) = HasHeader rest × (version ≢ 1) × (v ≡ version)
Reason unrecognized_calldata [] = ⊥
Reason unrecognized_calldata (version ∷ rest) =
    HasHeader rest
    × (version ≡ 1)
    × (length rest ≡ 46 + len_field (version ∷ rest))
    × (0 < len_field (version ∷ rest))

-- The five tests on the numbers that they read.
judge : ℕ → ℕ → ℕ → DecodedTransaction → Result DecodedTransaction DecodeError
judge version n len tx = do
  fail_if (ltb max_input_len (suc n)) oversized
  fail_if (ltb (suc n) header_len) truncated
  fail_if (not (version == 1)) (unsupported_version version)
  fail_if (not (suc n == 47 + len)) truncated
  fail_if (ltb 0 len) unrecognized_calldata
  ok tx

len_field-IsBytes :
    (version : ℕ) (rest : List ℕ)
    → All IsByte rest
    → 46 ≤ length rest
    → IsBytes 2 (slice (version ∷ rest) 45 47)
len_field-IsBytes version rest h long = (
  All-take IsByte 2 _ (All-drop IsByte 44 rest h),
  length-take 2 _ ∙ omega (arith, length-drop 44 rest),
)

fits_usize : (d : ℕ) → d < 256 ^ 2 → checked_add 47 d ≡ some (47 + d)
fits_usize d h = ground arith

decode-judge :
    (version : ℕ) (rest : List ℕ)
    → All IsByte rest
    → 46 ≤ length rest
    → decode (version ∷ rest)
      ≡ judge version (length rest) (len_field (version ∷ rest)) (record {
        chain_id = from_be_bytes (slice (version ∷ rest) 1 9);
        to = slice (version ∷ rest) 9 29;
        value = from_be_bytes (slice (version ∷ rest) 29 45);
      })
unfolding decode judge
decode-judge version rest h long =
    rw (fits_usize _ (from_be_bytes-lt 2 _ (len_field-IsBytes version rest h long)))

judge-Reason :
    (version : ℕ) (rest : List ℕ) (tx : DecodedTransaction) (e : DecodeError)
    → 46 ≤ length rest
    → (judge version (length rest) (len_field (version ∷ rest)) tx ≡ err e)
      ↔ Reason e (version ∷ rest)
unfolding judge
judge-Reason version rest tx empty long = ground arith
judge-Reason version rest tx oversized long = ground arith
judge-Reason version rest tx truncated long = ground arith
judge-Reason version rest tx (unsupported_version v) long = ground arith
judge-Reason version rest tx unrecognized_calldata long = ground arith

short-Reason :
    (version : ℕ) (rest : List ℕ) (e : DecodeError)
    → length rest < 46
    → (◌≡◌ {A = Result DecodedTransaction DecodeError} (err truncated) (err e))
      ↔ Reason e (version ∷ rest)
short-Reason version rest empty h = ground arith
short-Reason version rest oversized h = ground arith
short-Reason version rest truncated h = ground arith
short-Reason version rest (unsupported_version v) h = ground arith
short-Reason version rest unrecognized_calldata h = ground arith

-- Each error is returned exactly on the inputs that it describes: an empty input, an input above
-- the size cap, a short header or a length field that does not match what follows the header, a
-- version other than 1, and well-framed calldata that is not empty.
pub decode-Reason :
    (raw : List ℕ) (e : DecodeError) → All IsByte raw → (decode raw ≡ err e) ↔ Reason e raw
decode-Reason [] empty h = (λ _. refl, λ _. unfold decode in refl)
decode-Reason [] oversized h = (λ p. unfold decode in cc, λ p. absurd (omega arith))
decode-Reason [] truncated h = (λ p. unfold decode in cc, λ p. absurd p)
decode-Reason [] (unsupported_version v) h = (λ p. unfold decode in cc, λ p. absurd p)
decode-Reason [] unrecognized_calldata h = (λ p. unfold decode in cc, λ p. absurd p)
decode-Reason (version ∷ rest) e (_, h) = elim (long_or_short (length rest)) [
  | inl short ↦ rw (decode_short version rest short) (short-Reason version rest e short)
  | inr long ↦ rw (decode-judge version rest h long) (judge-Reason version rest _ e long)
]
