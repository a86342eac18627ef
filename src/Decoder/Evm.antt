-- ===== src/Decoder/Evm.antt =====
-- crates/wallet-decoder/src/evm.rs: the EIP-1559 wire format, over the RLP framing of `alloy-rlp`.
pub mod RoundTrip
use fortresswallet.Base.{
  ℕ, ◌+◌, ◌-◌, Bool, true, false, not, Option, none, some, List, [], ◌∷◌, ◌++◌, length, replicate,
  ltb, ◌==◌, if◌then◌else◌, Result, ok, err, ◌>>=◌, ◌>>◌, fail_if, ok_or,
}

-- What `alloy-rlp` gives. A decoder takes an item off the front of a buffer, and is `none` on an
-- error; `decode_uint` has the width of the integer in bits, `decode_bytes` whether it wants a list.
pub record Rlp : Type 0 where
  pub encode_uint : ℕ → List ℕ
  pub length_uint : ℕ → ℕ
  pub encode_bytes : List ℕ → List ℕ
  pub length_bytes : List ℕ → ℕ
  pub encode_list_header : ℕ → List ℕ
  pub decode_uint : ℕ → List ℕ → Option (ℕ × List ℕ)
  pub decode_array : ℕ → List ℕ → Option (List ℕ × List ℕ)
  pub decode_bytes : Bool → List ℕ → Option (List ℕ × List ℕ)

-- `call_data` is the field `data`.
pub record UnsignedEip1559Tx : Type 0 where
  pub chain_id : ℕ
  pub nonce : ℕ
  pub max_priority_fee_per_gas : ℕ
  pub max_fee_per_gas : ℕ
  pub gas_limit : ℕ
  pub to : List ℕ
  pub value : ℕ
  pub call_data : List ℕ

pub record SignedEip1559Tx : Type 0 where
  pub tx : UnsignedEip1559Tx
  pub y_parity : ℕ
  pub r : List ℕ
  pub s : List ℕ

pub data EvmDecodeError : Type 0 where
  empty : EvmDecodeError
  unsupported_type : ℕ → EvmDecodeError
  malformed trailing_bytes unrecognized_access_list : EvmDecodeError
  invalid_y_parity : ℕ → EvmDecodeError

abbrev pub type_byte : ℕ
type_byte = 2

-- `alloy_rlp::EMPTY_LIST_CODE`
abbrev pub empty_list_code : ℕ
empty_list_code = 0xc0

abbrev pub is_empty : List ℕ → Bool
is_empty [] = true
is_empty (b ∷ bytes) = false

unfoldable pub trimmed_quantity : List ℕ → List ℕ
trimmed_quantity [] = []
trimmed_quantity (b ∷ bytes) =
    let rest = trimmed_quantity bytes in if b == 0 then rest else b ∷ bytes

module _ (R : Rlp) where
  -- What the source appends to `out`, which here stands behind.
  unfoldable pub encode_fields : UnsignedEip1559Tx → List ℕ → List ℕ
  encode_fields tx after =
      R.encode_uint tx.chain_id
      ++ (R.encode_uint tx.nonce
          ++ (R.encode_uint tx.max_priority_fee_per_gas
              ++ (R.encode_uint tx.max_fee_per_gas
                  ++ (R.encode_uint tx.gas_limit
                      ++ (R.encode_bytes tx.to
                          ++ (R.encode_uint tx.value
                              ++ (R.encode_bytes tx.call_data ++ (empty_list_code ∷ after))))))))

  unfoldable pub fields_length : UnsignedEip1559Tx → ℕ
  fields_length tx =
      R.length_uint tx.chain_id
      + R.length_uint tx.nonce
      + R.length_uint tx.max_priority_fee_per_gas
      + R.length_uint tx.max_fee_per_gas
      + R.length_uint tx.gas_limit
      + R.length_bytes tx.to
      + R.length_uint tx.value
      + R.length_bytes tx.call_data
      + 1

  unfoldable pub encode_unsigned : UnsignedEip1559Tx → List ℕ
  encode_unsigned tx = type_byte ∷ (R.encode_list_header (fields_length tx) ++ encode_fields tx [])

  unfoldable pub encode_signed : SignedEip1559Tx → List ℕ
  encode_signed signed =
      let r_trimmed = trimmed_quantity signed.r in
      let s_trimmed = trimmed_quantity signed.s in
      let payload_length =
        fields_length signed.tx
        + R.length_uint signed.y_parity
        + R.length_bytes r_trimmed
        + R.length_bytes s_trimmed in
      type_byte
      ∷ (R.encode_list_header payload_length
          ++ encode_fields signed.tx (
              R.encode_uint signed.y_parity
              ++ (R.encode_bytes r_trimmed ++ R.encode_bytes s_trimmed)))

  -- `out[32 - bytes.len()..].copy_from_slice(bytes)` on zeros.
  unfoldable pub decode_quantity_32 : List ℕ → Result (List ℕ × List ℕ) EvmDecodeError
  decode_quantity_32 buf = do
    (bytes, rest) ← ok_or (R.decode_bytes false buf) malformed
    fail_if (ltb 32 (length bytes)) malformed
    ok (replicate (32 - length bytes) 0 ++ bytes, rest)

  unfoldable pub decode_signed : List ℕ → Result SignedEip1559Tx EvmDecodeError
  unfolding decode_quantity_32
  decode_signed [] = err empty
  decode_signed (first ∷ raw) = do
    fail_if (not (first == type_byte)) (unsupported_type first)
    (body, rest) ← ok_or (R.decode_bytes true raw) malformed
    fail_if (not (is_empty rest)) trailing_bytes
    (chain_id, body) ← ok_or (R.decode_uint 64 body) malformed
    (nonce, body) ← ok_or (R.decode_uint 64 body) malformed
    (max_priority_fee_per_gas, body) ← ok_or (R.decode_uint 128 body) malformed
    (max_fee_per_gas, body) ← ok_or (R.decode_uint 128 body) malformed
    (gas_limit, body) ← ok_or (R.decode_uint 64 body) malformed
    (to, body) ← ok_or (R.decode_array 20 body) malformed
    (value, body) ← ok_or (R.decode_uint 128 body) malformed
    (data_bytes, body) ← ok_or (R.decode_bytes false body) malformed
    (access_list, body) ← ok_or (R.decode_bytes true body) malformed
    fail_if (not (is_empty access_list)) unrecognized_access_list
    (y_parity, body) ← ok_or (R.decode_uint 8 body) malformed
    fail_if (ltb 1 y_parity) (invalid_y_parity y_parity)
    (r, body) ← decode_quantity_32 body
    (s, body) ← decode_quantity_32 body
    fail_if (not (is_empty body)) trailing_bytes
    ok (record {
      tx = record {
        chain_id = chain_id;
        nonce = nonce;
        max_priority_fee_per_gas = max_priority_fee_per_gas;
        max_fee_per_gas = max_fee_per_gas;
        gas_limit = gas_limit;
        to = to;
        value = value;
        call_data = data_bytes;
      };
      y_parity = y_parity;
      r = r;
      s = s;
    })
