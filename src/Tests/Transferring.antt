-- ===== src/Tests/Transferring.antt =====
-- A token transfer that a host asks for, over the nodes of Tests/Commanding.
use fortresswallet.Base.{ℕ, ◌≡◌, refl, ap, some, List, ◌∷◌, replicate, Result, ok}
use fortresswallet.Base.Bytes.{from_be_bytes, to_be_bytes}
use fortresswallet.Base.Json.{
  Json, string, number, single, object, prop, end, codes, get, get_prop, at, as_str, as_u64,
  as_array,
}
use fortresswallet.Hex.{
  parse_hex, parse_fixed, parse_pairs, strip_0x, starts_inside, is_continuation, hex_digits, to_hex,
}
use fortresswallet.Hex.Digits.{from_str_radix_16, digits_value, digit_value, digit_char, hex_byte}
use fortresswallet.Storage.{open_share, open_bytes}
use fortresswallet.Storage.Sealed.{sealed_as}
use fortresswallet.Storage.Files.{load_share_from_file}
use fortresswallet.Decoder.Evm.{encode_unsigned, encode_signed, encode_fields, fields_length}
use fortresswallet.Crypto.Shamir.{
  reconstruct, reconstruct_and_verify, interpolate, lagrange_coefficient, lagrange_loop,
  check_shares, is_in,
}
use fortresswallet.Ceremony.{sign_with_shares_recoverable}
use fortresswallet.Evm.{address_from_public_key, build_unsigned_contract_call, sign_and_encode}
use fortresswallet.Wallet.{
  decimal, share_file_name, load_public_key, load_shares, load_external_shares,
}
use fortresswallet.Rpc.{try_cross_check, corroborated}
use fortresswallet.Rpc.Encoding.{rpc_to_hex, parse_hex_u64, parse_hex_u128, parse_hex_bytes32}
use fortresswallet.Rpc.Client.{
  call, call_hex_u64, chain_id, transaction_count, fee_suggestion, send_raw_transaction,
}
use fortresswallet.Ffi.{
  FfiError, strings, parse_u128, decimal_value, validate_dir, dir_param, decode_shares,
}
use fortresswallet.Ffi.Abi.{construct_transfer_data, parse_address_hex}
use fortresswallet.Ffi.Handlers.{Response, sent, verify_chain}
use fortresswallet.Ffi.Sending.{
  prepare_over, sign_and_broadcast, sign_and_send, handle_send_erc20_transaction,
}
use fortresswallet.Ffi.TokenSent.{IsTokenSent, handle_send_erc20_transaction-IsTokenSent}
use fortresswallet.Tests.Toy.{toy}
use fortresswallet.Tests.Framing.{toy_rlp}
use fortresswallet.Tests.Disk.{toy_vault, toy_disk, Files}
use fortresswallet.Tests.Creating.{toy_folders, salts, nonces, passphrase}
use fortresswallet.Tests.Commanding.{nodes, stored}
use fortresswallet.Tests.Hosting.{host}

-- The second share comes with the request.
abbrev second_share : List ℕ
second_share = sealed_as toy_vault (salts 2) (nonces 2) passphrase (2 ∷ 2 ∷ to_be_bytes 32 52)

abbrev address_of : ℕ → Json
address_of digit = string (b'0' ∷ b'x' ∷ replicate 40 digit)

abbrev request : Json
request = object (
    prop "dir" (string (codes "w")) (
      prop "passphrase" (string passphrase) (
        prop "chain_id" (number 1) (
          prop "rpc_urls" (single (string (codes "u"))) (
            prop "token_address" (address_of b'a') (
              prop "to" (address_of b'b') (
                prop "value_wei" (string (codes "200"))
                  (prop "shares" (single (string second_share)) end))))))))

abbrev sending : Result Response (FfiError (Unit {0}) (Unit {0}) (Unit {0})) × Files
sending =
    handle_send_erc20_transaction toy toy_vault toy_disk toy_folders nodes toy_rlp host (some 5)
      request stored

abbrev hash_sent : Response
hash_sent = sent (replicate 32 0)

sending_ok : sending.0 ≡ ok hash_sent
unfolding handle_send_erc20_transaction sign_and_send prepare_over sign_and_broadcast verify_chain
    corroborated try_cross_check chain_id transaction_count fee_suggestion send_raw_transaction
    call_hex_u64 call at get get_prop as_str as_u64 as_array strings parse_u128 decimal_value
    validate_dir dir_param decode_shares construct_transfer_data parse_address_hex parse_hex_u64
    parse_hex_u128 parse_hex_bytes32 rpc_to_hex parse_hex parse_fixed parse_pairs strip_0x
    starts_inside is_continuation hex_digits to_hex hex_byte digit_char from_str_radix_16
    digits_value digit_value open_share open_bytes load_share_from_file load_public_key load_shares
    load_external_shares share_file_name decimal address_from_public_key
    build_unsigned_contract_call sign_and_encode sign_with_shares_recoverable reconstruct_and_verify
    reconstruct interpolate lagrange_coefficient lagrange_loop check_shares is_in to_be_bytes
    from_be_bytes encode_unsigned encode_signed encode_fields fields_length
sending_ok = refl

handle_send_erc20_transaction-IsTokenSent_example :
    IsTokenSent toy toy_vault toy_disk toy_folders nodes toy_rlp host
      (some 5)
      request
      stored
      hash_sent
      sending.1
handle_send_erc20_transaction-IsTokenSent_example =
    handle_send_erc20_transaction-IsTokenSent toy toy_vault toy_disk toy_folders nodes toy_rlp host
      (some 5) request stored sending.1 hash_sent (ap (λ r. (r, sending.1)) sending_ok)
