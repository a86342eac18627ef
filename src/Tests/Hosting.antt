-- ===== src/Tests/Hosting.antt =====
-- Requests of a host on the small disk.
use fortresswallet.Base.{
  ℕ, ◌≡◌, refl, ap, none, some, List, [], ◌∷◌, ◌++◌, replicate, length, leb, ltb, if◌then◌else◌,
  Result, ok, arith,
}
use fortresswallet.Base.Bytes.{from_be_bytes, to_be_bytes}
use fortresswallet.Base.Json.{Json, string, object, prop, end, codes, get, get_prop, at, as_str}
use fortresswallet.Storage.{open_share, open_bytes}
use fortresswallet.Storage.Files.{load_share_from_file}
use fortresswallet.Wallet.{decimal, share_file_name, load_public_key, load_shares}
use fortresswallet.Ffi.{
  Host, FfiError, set_base_dir, parse_u128, decimal_value, validate_dir, dir_param,
}
use fortresswallet.Ffi.Abi.{decode_uint256_result, construct_transfer_data}
use fortresswallet.Ffi.Handlers.{Response, address_is, checksummed_address, handle_unlock_wallet}
use fortresswallet.Ffi.Sandbox.{IsSandboxed, validate_dir-IsSandboxed}
use fortresswallet.Ffi.Words.{word_of, decode_uint256_result-word_of}
use fortresswallet.Ffi.Unlocked.{IsUnlocked, handle_unlock_wallet-IsUnlocked}
use fortresswallet.Tests.Toy.{toy}
use fortresswallet.Tests.Framing.{toy_rlp}
use fortresswallet.Tests.Disk.{toy_vault, toy_disk, Files}
use fortresswallet.Tests.Creating.{toy_folders, passphrase, path_of}
use fortresswallet.Tests.Commanding.{nodes, stored}

-- Greater paths lie under smaller ones; base64 is left out.
abbrev pub host : Host toy_disk
host = record {
  path_of = path_of;
  canonicalize = λ path files. ok path;
  starts_with = λ path root. leb root path;
  decode_base64 = λ text. some text;
  encode_base64 = λ bytes. bytes;
  from_str = λ text. none;
}

base_kept : set_base_dir {FilePath = ℕ} 9 (set_base_dir 5 none) ≡ some 5
unfolding set_base_dir
base_kept = refl

amount : parse_u128 (codes "+120") ≡ some 120
unfolding parse_u128 decimal_value
amount = refl

call_words :
    construct_transfer_data (replicate 20 0xaa) 258
    ≡ (0xa9 ∷ 0x05 ∷ 0x9c ∷ 0xbb ∷ [])
      ++ (replicate 12 0 ++ (replicate 20 0xaa ++ (replicate 30 0 ++ (1 ∷ 2 ∷ []))))
unfolding construct_transfer_data to_be_bytes
call_words = refl

validate_dir-IsSandboxed_example :
    IsSandboxed toy_disk toy_folders host nodes
      (some 5)
      3
      stored
      (validate_dir toy_disk toy_folders host (some 5) nodes 3 stored)
validate_dir-IsSandboxed_example =
    validate_dir-IsSandboxed toy_disk toy_folders host nodes (some 5) 3 stored

abbrev answer : List ℕ
answer = replicate 31 0 ++ (7 ∷ [])

decode_uint256_result-word_of_example :
    decode_uint256_result answer ≡ (if ltb (length answer) 32 then ok 0 else word_of answer)
decode_uint256_result-word_of_example = decode_uint256_result-word_of answer (omega arith)

abbrev params : Json
params = object (prop "dir" (string (codes "w")) (prop "passphrase" (string passphrase) end))

abbrev unlocked : Result Response (FfiError (Unit {0}) (Unit {0}) (Unit {0})) × Files
unlocked =
    handle_unlock_wallet toy toy_vault toy_disk toy_folders nodes toy_rlp host (some 5) params
      stored

abbrev our_address : Response
our_address =
    address_is
      (checksummed_address toy toy_vault toy_disk toy_folders nodes toy_rlp host (some 5) 42)

unlocked_ok : unlocked.0 ≡ ok our_address
unfolding handle_unlock_wallet dir_param validate_dir at get get_prop as_str load_public_key
    load_shares load_share_from_file open_share open_bytes share_file_name decimal from_be_bytes
    to_be_bytes
unlocked_ok = refl

handle_unlock_wallet-IsUnlocked_example :
    IsUnlocked toy toy_vault toy_disk toy_folders nodes toy_rlp host
      (some 5)
      params
      stored
      our_address
      unlocked.1
handle_unlock_wallet-IsUnlocked_example =
    handle_unlock_wallet-IsUnlocked toy toy_vault toy_disk toy_folders nodes toy_rlp host (some 5)
      params stored unlocked.1 our_address (ap (λ r. (r, unlocked.1)) unlocked_ok)
