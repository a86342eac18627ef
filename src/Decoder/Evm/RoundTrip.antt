-- ===== src/Decoder/Evm/RoundTrip.antt =====
-- A signed EIP-1559 transaction is read back as it was written.
use fortresswallet.Base.{
  ℕ, suc, ◌+◌, ◌-◌, ◌^◌, ◌≤◌, ◌<◌, ◌≡◌, refl, sym, ap, ap₂, subst, ◌∙◌, true, false, some, List, [],
  ◌∷◌, ◌++◌, length, replicate, length-append, append-nil, ok, arith, ltb, ◌==◌, Bool-cases, inl,
  inr,
}
use fortresswallet.Decoder.Evm.{
  Rlp, UnsignedEip1559Tx, SignedEip1559Tx, empty_list_code, trimmed_quantity, encode_fields,
  fields_length, encode_signed, decode_quantity_32, decode_signed,
}

-- RLP as `alloy-rlp` documents it: the lengths are those of the encodings, and a decoder takes
-- back what an encoder wrote, whatever follows.
pub record RlpLaws (R : Rlp) : Type 0 where
  pub length_uint_eq : (n : ℕ) → R.length_uint n ≡ length (R.encode_uint n)
  pub length_bytes_eq : (b : List ℕ) → R.length_bytes b ≡ length (R.encode_bytes b)
  pub empty_list : R.encode_list_header 0 ≡ empty_list_code ∷ []
  pub uint_back :
      (bits n : ℕ) (after : List ℕ)
      → n < 2 ^ bits
      → R.decode_uint bits (R.encode_uint n ++ after) ≡ some (n, after)
  pub array_back :
      (b after : List ℕ) → R.decode_array (length b) (R.encode_bytes b ++ after) ≡ some (b, after)
  pub bytes_back :
      (b after : List ℕ) → R.decode_bytes false (R.encode_bytes b ++ after) ≡ some (b, after)
  pub list_back :
      (payload after : List ℕ)
      → R.decode_bytes true (R.encode_list_header (length payload) ++ (payload ++ after))
        ≡ some (payload, after)

-- The fields fit their types.
pub record IsFitting (tx : UnsignedEip1559Tx) : Type 0 where
  pub chain_id_bound : tx.chain_id < 2 ^ 64
  pub nonce_bound : tx.nonce < 2 ^ 64
  pub priority_bound : tx.max_priority_fee_per_gas < 2 ^ 128
  pub fee_bound : tx.max_fee_per_gas < 2 ^ 128
  pub gas_bound : tx.gas_limit < 2 ^ 64
  pub to_length : length tx.to ≡ 20
  pub value_bound : tx.value < 2 ^ 128

pub record IsSigned (signed : SignedEip1559Tx) : Type 0 where
  pub fits : IsFitting signed.tx
  pub y_parity_bound : signed.y_parity ≤ 1
  pub r_length : length signed.r ≡ 32
  pub s_length : length signed.s ≡ 32

-- Zeros put back in front of what was trimmed.
pad-trimmed :
    (bytes : List ℕ)
    → (length (trimmed_quantity bytes) ≤ length bytes)
      × (replicate (length bytes - length (trimmed_quantity bytes)) 0 ++ trimmed_quantity bytes
          ≡ bytes)
unfolding trimmed_quantity
pad-trimmed [] = (omega arith, refl)
pad-trimmed (b ∷ bytes) =
    let (short, back) = pad-trimmed bytes in
    elim (Bool-cases (b == 0)) [
      | inl z ↦
          let more : suc (length bytes) - length (trimmed_quantity bytes)
              ≡ suc (length bytes - length (trimmed_quantity bytes)) =
            omega (arith, short) in
          let nought : 0 ≡ b = ground (arith, z) in
          rw (z) (omega (arith, short), rw (more) (ap₂ (λ x xs. x ∷ xs) nought back))
      | inr z ↦
          let none_left : suc (length bytes) - suc (length bytes) ≡ 0 = omega arith in
          rw (z) (omega arith, rw (none_left) refl)
    ]

module _ (R : Rlp) (laws : RlpLaws R) where
  quantity_back :
      (bytes after : List ℕ)
      → length bytes ≡ 32
      → decode_quantity_32 R (R.encode_bytes (trimmed_quantity bytes) ++ after) ≡ ok (bytes, after)
  unfolding decode_quantity_32
  quantity_back bytes after h =
      let (short, back) = pad-trimmed bytes in
      let fits : ltb 32 (length (trimmed_quantity bytes)) ≡ false = ground (arith, short, h) in
      let padded =
        ap (λ n. replicate (n - length (trimmed_quantity bytes)) 0 ++ trimmed_quantity bytes)
          (sym h)
        ∙ back in
      rw (laws.bytes_back (trimmed_quantity bytes) after, fits, padded)

  length-encode_fields :
      (tx : UnsignedEip1559Tx) (after : List ℕ)
      → length (encode_fields R tx after) ≡ fields_length R tx + length after
  unfolding encode_fields fields_length
  length-encode_fields tx after =
      simp (length-append, laws.length_uint_eq, laws.length_bytes_eq) (omega arith)

  framed :
      (payload : List ℕ) (n : ℕ)
      → n ≡ length payload
      → R.decode_bytes true (R.encode_list_header n ++ payload) ≡ some (payload, [])
  framed payload n h =
      ap (λ p. R.decode_bytes true (R.encode_list_header n ++ p)) (sym (append-nil payload))
      ∙ ap (λ k. R.decode_bytes true (R.encode_list_header k ++ (payload ++ []))) h
      ∙ laws.list_back payload []

  last_quantity_back :
      (bytes : List ℕ)
      → length bytes ≡ 32
      → decode_quantity_32 R (R.encode_bytes (trimmed_quantity bytes)) ≡ ok (bytes, [])
  last_quantity_back bytes h =
      ap (decode_quantity_32 R) (sym (append-nil (R.encode_bytes (trimmed_quantity bytes))))
      ∙ quantity_back bytes [] h

  access_list_back :
      (after : List ℕ) → R.decode_bytes true (empty_list_code ∷ after) ≡ some ([], after)
  access_list_back after =
      ap (λ front. R.decode_bytes true (front ++ after)) (sym laws.empty_list)
      ∙ laws.list_back [] after

  address_back :
      (b after : List ℕ)
      → length b ≡ 20
      → R.decode_array 20 (R.encode_bytes b ++ after) ≡ some (b, after)
  address_back b after h =
      subst (λ n. R.decode_array n (R.encode_bytes b ++ after) ≡ some (b, after)) h
        (laws.array_back b after)

  signature_of : SignedEip1559Tx → List ℕ
  signature_of signed =
      R.encode_uint signed.y_parity
      ++ (R.encode_bytes (trimmed_quantity signed.r) ++ R.encode_bytes (trimmed_quantity signed.s))

  signed_framed :
      (signed : SignedEip1559Tx)
      → R.decode_bytes true (
          R.encode_list_header (
            fields_length R signed.tx
            + R.length_uint signed.y_parity
            + R.length_bytes (trimmed_quantity signed.r)
            + R.length_bytes (trimmed_quantity signed.s))
          ++ encode_fields R signed.tx (signature_of signed))
        ≡ some (encode_fields R signed.tx (signature_of signed), [])
  unfolding signature_of
  signed_framed signed = framed (encode_fields R signed.tx (signature_of signed)) _ (
      simp (length-encode_fields, length-append, laws.length_uint_eq, laws.length_bytes_eq)
        (omega arith))

  -- Under the laws of RLP, the bytes that are written for a signed transaction whose fields fit
  -- their types decode to it, whatever its call data are.
  pub decode_signed-encode_signed :
      (signed : SignedEip1559Tx)
      → IsSigned signed
      → decode_signed R (encode_signed R signed) ≡ ok signed
  unfolding decode_signed encode_signed encode_fields signature_of
  decode_signed-encode_signed signed w =
      let parity : ltb 1 signed.y_parity ≡ false = ground (arith, w.y_parity_bound) in
      rw (
        signed_framed signed,
        laws.uint_back 64 signed.tx.chain_id _ w.fits.chain_id_bound,
        laws.uint_back 64 signed.tx.nonce _ w.fits.nonce_bound,
        laws.uint_back 128 signed.tx.max_priority_fee_per_gas _ w.fits.priority_bound,
        laws.uint_back 128 signed.tx.max_fee_per_gas _ w.fits.fee_bound,
        laws.uint_back 64 signed.tx.gas_limit _ w.fits.gas_bound,
        address_back signed.tx.to _ w.fits.to_length,
        laws.uint_back 128 signed.tx.value _ w.fits.value_bound,
        laws.bytes_back signed.tx.call_data _,
        access_list_back _,
        laws.uint_back 8 signed.y_parity _ (omega (arith, w.y_parity_bound)),
        parity,
        quantity_back signed.r _ w.r_length,
        last_quantity_back signed.s w.s_length,
      )
