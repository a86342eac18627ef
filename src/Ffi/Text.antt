-- ===== src/Ffi/Text.antt =====
-- crates/wallet-ffi/src/lib.rs: the texts of answers and errors, as bytes of UTF-8; with the texts of
-- `RpcError` in crates/wallet-rpc/src/evm.rs and of `EvmBuildError` in crates/wallet-core/src/evm.rs.
use fortresswallet.Base.{ℕ, List, [], ◌∷◌, ◌++◌}
use fortresswallet.Base.Json.{Json, Elems, string, array, object, nil, cons, end, prop, codes}
use fortresswallet.Hex.{to_hex}
use fortresswallet.Storage.{
  StorageError, decryption_failed, weak_passphrase, truncated, invalid_key_bytes,
  unsupported_version, io,
}
use fortresswallet.Wallet
use fortresswallet.Wallet.{WalletError, decimal, invalid_public_key}
use fortresswallet.Rpc.{CrossCheckError, query_failed, disagreement}
use fortresswallet.Rpc.Client.{RpcError, transport, malformed, node}
use fortresswallet.Rpc.Encoding.{Malformed}
use fortresswallet.Evm
use fortresswallet.Evm.{
  EvmBuildError, EvmCeremonyError, fee_cap_exceeded, unrepresentable_recovery_id,
}
use fortresswallet.Ffi
use fortresswallet.Ffi.{FfiError}
use fortresswallet.Ffi.Handlers.{Response, pong, version, created, address_is, balance_is, sent}

-- What `Display` gives for the errors of the libraries, `serde_json::to_string`, what a caught panic
-- says, and the details of a malformed response or request, which the model does not keep.
pub record Texts (IoError Code Message : Type 0) : Type 0 where
  pub io_error : IoError → List ℕ
  pub code : Code → List ℕ
  pub message : Message → List ℕ
  pub malformed_response : Malformed Message → List ℕ
  pub panic_message : List ℕ
  pub parse_error : List ℕ
  pub to_string : Json → List ℕ

abbrev em_dash : List ℕ
em_dash = codes " " ++ (0xe2 ∷ 0x80 ∷ 0x94 ∷ codes " ")

-- The digits of a `u64` and of a `u128`.
abbrev u64_text : ℕ → List ℕ
u64_text n = decimal 20 n

abbrev u128_text : ℕ → List ℕ
u128_text n = decimal 39 n

module _ {IoError Code Message : Type 0} (T : Texts IoError Code Message) where
  unfoldable pub json_error : List ℕ → List ℕ
  json_error message = T.to_string (object (prop "error" (string message) end))

  unfoldable pub describe_storage_error : StorageError IoError → List ℕ
  describe_storage_error decryption_failed =
      codes "wrong passphrase"
      ++ (em_dash
          ++ (codes "the passphrase you entered does not match "
              ++ codes "the one used to create this wallet"))
  describe_storage_error weak_passphrase =
      codes "passphrase too short" ++ (em_dash ++ codes "must be at least 12 characters")
  describe_storage_error truncated = codes "wallet file is corrupted or truncated"
  describe_storage_error invalid_key_bytes = codes "wallet file contains invalid key data"
  describe_storage_error (unsupported_version v) =
      codes "wallet file uses unsupported format version " ++ decimal 3 v
  describe_storage_error (io e) = codes "filesystem error: " ++ T.io_error e

  unfoldable pub describe_wallet_error : WalletError IoError → List ℕ
  unfolding describe_storage_error
  describe_wallet_error (Wallet.ceremony e) = codes "invalid threshold/share configuration"
  describe_wallet_error (Wallet.storage e) = describe_storage_error e
  describe_wallet_error (Wallet.io e) = codes "filesystem error: " ++ T.io_error e
  describe_wallet_error invalid_public_key = codes "internal error: generated an invalid public key"

  -- `impl Display for RpcError`
  unfoldable pub rpc_error_text : RpcError Code Message → List ℕ
  rpc_error_text (transport e) = codes "transport error: " ++ T.message e
  rpc_error_text (malformed e) = codes "malformed response: " ++ T.malformed_response e
  rpc_error_text (node code message) =
      codes "node returned error " ++ (T.code code ++ (codes ": " ++ T.message message))

  unfoldable pub describe_cross_check_error : CrossCheckError (RpcError Code Message) → List ℕ
  unfolding rpc_error_text
  describe_cross_check_error (query_failed endpoint e) =
      codes "RPC query to " ++ (endpoint.url ++ (codes " failed: " ++ rpc_error_text e))
  describe_cross_check_error (disagreement d) =
      codes "RPC endpoints disagree: "
      ++ (d.primary.url
          ++ (codes " and "
              ++ (d.disagreeing.url
                  ++ (codes " returned different values for the same query"
                      ++ (em_dash ++ codes "refusing to proceed")))))

  unfoldable pub describe_ceremony_error : EvmCeremonyError → List ℕ
  describe_ceremony_error (Evm.ceremony e) = codes "signing failed: invalid or insufficient shares"
  describe_ceremony_error unrepresentable_recovery_id =
      codes "signing failed: unrepresentable recovery id (astronomically unlikely"
      ++ (em_dash ++ codes "try again)")

  -- `impl Display for EvmBuildError`
  unfoldable pub build_error_text : EvmBuildError → List ℕ
  build_error_text (fee_cap_exceeded requested ceiling) =
      codes "max_fee_per_gas "
      ++ (u128_text requested
          ++ (codes " wei exceeds the hard ceiling of " ++ (u128_text ceiling ++ codes " wei")))

  -- What `json_error` is called with at each early return.
  unfoldable pub error_message : FfiError IoError Code Message → List ℕ
  unfolding describe_wallet_error rpc_error_text describe_cross_check_error describe_ceremony_error
      build_error_text
  error_message Ffi.not_json = codes "Failed to parse JSON: " ++ T.parse_error
  error_message (Ffi.request_too_large n) =
      codes "request too large: " ++ (u64_text n ++ codes " bytes exceeds 65536 byte limit")
  error_message (Ffi.too_many_shares n) =
      codes "too many shares: " ++ (u64_text n ++ codes " exceeds limit of 255")
  error_message (Ffi.share_too_large n) =
      codes "share string too large: " ++ (u64_text n ++ codes " bytes exceeds limit of 1024")
  error_message (Ffi.unknown_method method) = codes "Unknown method: " ++ method
  error_message Ffi.missing_dir = codes "missing or empty required field: dir"
  error_message Ffi.no_base_dir =
      codes "base directory not set" ++ (em_dash ++ codes "call set_base_dir first")
  error_message Ffi.sandbox_escape = codes "path escapes the wallet sandbox"
  error_message Ffi.missing_passphrase = codes "missing required field: passphrase"
  error_message Ffi.bad_threshold = codes "missing or out-of-range field: threshold"
  error_message Ffi.bad_n = codes "missing or out-of-range field: n"
  error_message Ffi.missing_rpc_urls = codes "missing required field: rpc_urls"
  error_message Ffi.no_rpc_url = codes "rpc_urls must contain at least one endpoint"
  error_message Ffi.bad_chain_id = codes "missing or out-of-range field: chain_id"
  error_message Ffi.missing_token = codes "missing required field: token_address"
  error_message Ffi.bad_token = codes "`token_address` must be a 0x-prefixed 20-byte address"
  error_message Ffi.missing_to = codes "missing required field: to"
  error_message Ffi.bad_to = codes "`to` must be a 0x-prefixed 20-byte address"
  error_message Ffi.bad_value =
      codes "missing or invalid field: value_wei (must be a decimal string)"
  error_message Ffi.missing_shares = codes "missing required field: shares"
  error_message Ffi.too_few_shares = codes "at least 2 shares are required to import a wallet"
  error_message Ffi.share_no_string = codes "each share must be a base64-encoded string"
  error_message Ffi.share_no_base64 = codes "a share was not valid base64"
  error_message Ffi.balance_too_large = codes "balance exceeds u128 capacity"
  error_message (Ffi.invalid_path e) = codes "invalid path: " ++ T.io_error e
  error_message (Ffi.invalid_base_path e) = codes "invalid base path: " ++ T.io_error e
  error_message (Ffi.wrong_chain requested reported) =
      codes "chain_id "
      ++ (u64_text requested
          ++ (codes " was requested, but the RPC endpoint(s) report chain ID "
              ++ u64_text reported))
  error_message (Ffi.wallet_error e) = describe_wallet_error e
  error_message (Ffi.rpc_error e) = codes "RPC error: " ++ rpc_error_text e
  error_message (Ffi.cross_check_error e) = describe_cross_check_error e
  error_message (Ffi.build_error e) = codes "transaction build error: " ++ build_error_text e
  error_message (Ffi.ceremony_error e) = describe_ceremony_error e

  abbrev status_ok : Json
  status_ok = string (codes "ok")

  abbrev strings_json : List (List ℕ) → Elems
  strings_json [] = nil
  strings_json (s ∷ ss) = cons (string s) (strings_json ss)

  -- The text that a handler builds where it succeeds. The two literals are no output of `serde_json`.
  unfoldable pub response_text : Response → List ℕ
  response_text pong = codes "{\"status\": \"ok\", \"message\": \"pong from rust\"}"
  response_text version = codes "{\"version\": \"0.1.0\"}"
  response_text (created address shares) = T.to_string (
      object (
        prop "status" status_ok
          (prop "address" (string address) (prop "shares" (array (strings_json shares)) end))))
  response_text (address_is address) =
      T.to_string (object (prop "status" status_ok (prop "address" (string address) end)))
  response_text (balance_is address balance) = T.to_string (
      object (
        prop "status" status_ok
          (prop "address" (string address) (prop "balance_wei" (string (u128_text balance)) end))))
  response_text (sent tx_hash) =
      T.to_string (object (prop "status" status_ok (prop "tx_hash" (string (to_hex tx_hash)) end)))
