-- ===== src/Tests/Sending.antt =====
-- EVM transfers on the small backend and framing.
use fortresswallet.Base.{◌≡◌, refl, [], ◌∷◌, replicate, ok, err, arith}
use fortresswallet.Base.Bytes.{to_be_bytes, from_be_bytes}
use fortresswallet.Decoder.Evm.{
  UnsignedEip1559Tx, SignedEip1559Tx, encode_unsigned, encode_signed, encode_fields, fields_length,
  decode_signed,
}
use fortresswallet.Decoder.Evm.RoundTrip.{IsFitting, IsSigned, decode_signed-encode_signed}
use fortresswallet.Crypto.Shamir.{
  reconstruct, reconstruct_and_verify, interpolate, lagrange_coefficient, lagrange_loop,
  check_shares, is_in,
}
use fortresswallet.Ceremony.{sign_with_shares_recoverable}
use fortresswallet.Evm.{
  fee_cap_exceeded, build_unsigned_transfer, hash_for_signing, assemble, sign_and_encode,
}
use fortresswallet.Evm.Entry.{sign_evm_transfer_with_policy}
use fortresswallet.Evm.Guarded.{Judged, sign_evm_transfer_with_policy-Judged}
use fortresswallet.Evm.Broadcast.{IsBroadcast, sign_and_encode-IsBroadcast}
use fortresswallet.Tests.Toy.{toy, toy_widths}
use fortresswallet.Tests.Framing.{toy_rlp, toy_rlp_laws}
use fortresswallet.Tests.Spending.{engine}
use fortresswallet.Tests.Signing.{two_shares}

abbrev pub payment : UnsignedEip1559Tx
payment = record {
  chain_id = 1;
  nonce = 7;
  max_priority_fee_per_gas = 2;
  max_fee_per_gas = 30;
  gas_limit = 21000;
  to = replicate 20 0xaa;
  value = 200;
  call_data = [];
}

fee_refused :
    build_unsigned_transfer 1 (replicate 20 0xaa) 200 7 10_000_000_000_001 2 21000
    ≡ err (fee_cap_exceeded 10_000_000_000_001 10_000_000_000_000)
unfolding build_unsigned_transfer
fee_refused = refl

built : build_unsigned_transfer 1 (replicate 20 0xaa) 200 7 30 2 21000 ≡ ok payment
unfolding build_unsigned_transfer
built = refl

pub payment-IsFitting : IsFitting payment
payment-IsFitting = omega arith

abbrev pub signed_payment : SignedEip1559Tx
signed_payment = assemble toy toy_rlp payment (42 ∷ hash_for_signing toy toy_rlp payment) 0

abbrev contract_call : SignedEip1559Tx
contract_call = record {
  tx = record payment { call_data = 0xde ∷ 0xad ∷ [] };
  y_parity = 1;
  r = 0 ∷ replicate 31 5;
  s = replicate 32 6;
}

contract_call-IsSigned : IsSigned contract_call
contract_call-IsSigned = omega arith

decode_signed-encode_signed_example :
    decode_signed toy_rlp (encode_signed toy_rlp contract_call) ≡ ok contract_call
decode_signed-encode_signed_example =
    decode_signed-encode_signed toy_rlp toy_rlp_laws contract_call contract_call-IsSigned

pub payment_signed :
    sign_and_encode toy toy_rlp payment two_shares 42 ≡ ok (encode_signed toy_rlp signed_payment)
unfolding sign_and_encode sign_with_shares_recoverable reconstruct_and_verify reconstruct
    interpolate lagrange_coefficient lagrange_loop check_shares is_in to_be_bytes from_be_bytes
    encode_unsigned encode_fields fields_length
payment_signed = refl

sign_and_encode-IsBroadcast_example :
    IsBroadcast toy toy_rlp payment two_shares 42 (encode_signed toy_rlp signed_payment)
sign_and_encode-IsBroadcast_example =
    sign_and_encode-IsBroadcast toy toy_rlp toy_rlp_laws toy_widths payment two_shares 42
      (encode_signed toy_rlp signed_payment) payment-IsFitting payment_signed

sign_evm_transfer_with_policy-Judged_example :
    Judged toy toy_rlp payment two_shares 42 300 engine
      (sign_evm_transfer_with_policy toy toy_rlp payment two_shares 42 300 engine)
sign_evm_transfer_with_policy-Judged_example =
    sign_evm_transfer_with_policy-Judged toy toy_rlp payment two_shares 42 300 engine
