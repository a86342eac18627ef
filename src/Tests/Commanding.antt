-- ===== src/Tests/Commanding.antt =====
-- A transfer sent from the command line, over nodes that answer by the method.
use fortresswallet.Base.{
  ℕ, ◌≡◌, refl, ap, none, some, Option, List, [], ◌∷◌, replicate, length, Result, ok, ◌==◌,
  if◌then◌else◌, arith,
}
use fortresswallet.Base.Bytes.{from_be_bytes, to_be_bytes}
use fortresswallet.Base.Json.{Json, string, object, prop, end, codes, get, get_prop, as_str}
use fortresswallet.Hex.{
  parse_hex, parse_fixed, parse_pairs, strip_0x, starts_inside, is_continuation, hex_digits, to_hex,
  parse_address,
}
use fortresswallet.Hex.Digits.{from_str_radix_16, digits_value, digit_value, digit_char, hex_byte}
use fortresswallet.Storage.{open_share, open_bytes}
use fortresswallet.Storage.Sealed.{sealed_as}
use fortresswallet.Storage.Files.{load_share_from_file}
use fortresswallet.Decoder.Evm.{encode_unsigned, encode_signed, encode_fields, fields_length}
use fortresswallet.Crypto.Shamir.{
  reconstruct, reconstruct_and_verify, interpolate, lagrange_coefficient, lagrange_loop,
  check_shares, is_in,
}
use fortresswallet.Ceremony.{sign_with_shares_recoverable}
use fortresswallet.Evm.{address_from_public_key, build_unsigned_transfer, sign_and_encode}
use fortresswallet.Evm.Address.{to_checksummed_hex}
use fortresswallet.Evm.Address.Checksum.{parse_address-to_checksummed_hex}
use fortresswallet.Wallet.{decimal, share_file_name, load_public_key, load_shares}
use fortresswallet.Rpc.{try_cross_check, corroborated}
use fortresswallet.Rpc.Encoding.{rpc_to_hex, parse_hex_u64, parse_hex_u128, parse_hex_bytes32}
use fortresswallet.Rpc.Client.{
  Net, call, call_hex_u64, chain_id, transaction_count, fee_suggestion, send_raw_transaction,
}
use fortresswallet.Cli.{Terminal, CliError, verify_chain_id}
use fortresswallet.Cli.Send.{paste_shares, gather_shares, prepare, send_over, cmd_send}
use fortresswallet.Cli.Sent.{IsSent, cmd_send-IsSent}
use fortresswallet.Tests.Toy.{toy}
use fortresswallet.Tests.Framing.{toy_rlp}
use fortresswallet.Tests.Disk.{toy_vault, toy_disk, Files, update}
use fortresswallet.Tests.Creating.{toy_folders, salts, nonces, passphrase}

parse_address-to_checksummed_hex_example :
    parse_address (to_checksummed_hex toy (replicate 20 0xab)) ≡ ok (replicate 20 0xab)
parse_address-to_checksummed_hex_example =
    parse_address-to_checksummed_hex toy (replicate 20 0xab) (omega arith) refl

-- The methods that a transfer calls differ in their length.
abbrev kind : Option Json → ℕ
kind none = 0
kind (some method) = elim (as_str method) [ none ↦ 0 | some text ↦ length text ]

abbrev reply : ℕ → Json
reply n =
    if n == 11
    then string (codes "0x1")
    else if n == 23
    then string (codes "0x7")
    else if n == 20
    then object (prop "baseFeePerGas" (string (codes "0x64")) end)
    else string (b'0' ∷ b'x' ∷ replicate 64 b'0')

abbrev first_of : List ℕ → ℕ
first_of [] = 0
first_of (n ∷ text) = n

abbrev pub nodes : Net Files
nodes = record {
  Code = Unit {0};
  Message = Unit {0};
  post = λ url body files. (ok (kind (get "method" body) ∷ []), files);
  from_str = λ text. ok (record { result = some (reply (first_of text)); error = none });
}

-- The second share is pasted.
abbrev terminal : Terminal Files
terminal = record {
  read_passphrase = λ files. (some passphrase, files);
  read_line = λ files. (
    some (to_hex (sealed_as toy_vault (salts 2) (nonces 2) passphrase (2 ∷ 2 ∷ to_be_bytes 32 52))),
    files,
  );
  print = λ out files. update 200 (some []) files;
}

-- The public key 42 and the first share.
abbrev pub stored : Files
stored p =
    if p == b'p'
    then some (to_be_bytes 33 42)
    else if p == b's'
    then some (sealed_as toy_vault (salts 1) (nonces 1) passphrase (1 ∷ 2 ∷ to_be_bytes 32 47))
    else none

abbrev recipient : List ℕ
recipient = b'0' ∷ b'x' ∷ replicate 40 b'a'

abbrev run : Result (Unit {0}) (CliError (Unit {0}) (Unit {0}) (Unit {0})) × Files
run =
    cmd_send toy toy_vault toy_disk toy_folders nodes terminal toy_rlp 7 1 recipient 200
      ((1 ∷ []) ∷ (2 ∷ []) ∷ []) (1 ∷ 2 ∷ []) 21000 stored

run_ok : run.0 ≡ ok tt
unfolding cmd_send send_over prepare gather_shares paste_shares verify_chain_id corroborated
    try_cross_check chain_id transaction_count fee_suggestion send_raw_transaction call_hex_u64 call
    get get_prop as_str parse_hex_u64 parse_hex_u128 parse_hex_bytes32 rpc_to_hex parse_hex
    parse_fixed parse_pairs strip_0x starts_inside is_continuation hex_digits to_hex hex_byte
    digit_char from_str_radix_16 digits_value digit_value open_share open_bytes load_share_from_file
    load_public_key load_shares share_file_name decimal address_from_public_key
    build_unsigned_transfer sign_and_encode sign_with_shares_recoverable reconstruct_and_verify
    reconstruct interpolate lagrange_coefficient lagrange_loop check_shares is_in to_be_bytes
    from_be_bytes encode_unsigned encode_signed encode_fields fields_length
run_ok = refl

cmd_send-IsSent_example :
    IsSent toy toy_vault toy_disk toy_folders nodes terminal toy_rlp 7 1 recipient 200
      ((1 ∷ []) ∷ (2 ∷ []) ∷ [])
      (1 ∷ 2 ∷ [])
      21000
      stored
      run.1
cmd_send-IsSent_example =
    cmd_send-IsSent toy toy_vault toy_disk toy_folders nodes terminal toy_rlp 7 1 recipient 200
      ((1 ∷ []) ∷ (2 ∷ []) ∷ []) (1 ∷ 2 ∷ []) 21000 stored run.1 (ap (λ r. (r, run.1)) run_ok)
