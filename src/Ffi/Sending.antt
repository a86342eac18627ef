-- ===== src/Ffi/Sending.antt =====
-- crates/wallet-ffi/src/lib.rs: the handlers that send.
use fortresswallet.Base.{
  ℕ, Option, List, [], ◌∷◌, ◌++◌, length, ◌==◌, if◌then◌else◌, Result, ok, err, panic, map_err,
}
use fortresswallet.Base.Action.{map_action, pure, lift, ◌>>=◌, ◌>>◌}
use fortresswallet.Base.Json.{Json, as_str, as_array, at}
use fortresswallet.Crypto.{Backend, PublicKey}
use fortresswallet.Crypto.Shamir.{Share}
use fortresswallet.Storage.{Vault}
use fortresswallet.Storage.Files.{Disk}
use fortresswallet.Decoder.Evm.{Rlp, UnsignedEip1559Tx}
use fortresswallet.Wallet.{Folders, WalletError, load_shares, load_external_shares}
use fortresswallet.Rpc.{Endpoint, trusted, corroborated}
use fortresswallet.Rpc.Client.{
  Net, FeeSuggestion, transaction_count, fee_suggestion, send_raw_transaction,
}
use fortresswallet.Evm.{
  EvmBuildError, address_from_public_key, build_unsigned_transfer, build_unsigned_contract_call,
  sign_evm_transfer,
}
use fortresswallet.Ffi.Abi.{construct_transfer_data}
use fortresswallet.Ffi.{
  Host, dir_param, passphrase_param, chain_id_param, endpoints_param, address_param, value_param,
  gas_limit_param, optional_shares, missing_token, bad_token, missing_to, bad_to, wallet_error,
  rpc_error, cross_check_error, build_error, ceremony_error,
}
use fortresswallet.Ffi.Handlers.{Response, sent, Handling, key_in, verify_chain}

module _ (B : Backend) (V : Vault) (D : Disk) (F : Folders D) (N : Net D.State) (R : Rlp)
    (H : Host D) (base : Option D.FilePath) where
  open D use {State, FilePath, IoError}
  open N use {Code, Message}

  -- A missing local share is accepted where there are external ones.
  abbrev pub kept_local :
      List (List ℕ)
      → Result (List Share) (WalletError IoError)
      → Handling B V D F N R H base (List Share)
  kept_local external (ok shares) s = (ok shares, s)
  kept_local external (err e) s = (if length external == 0 then err (wallet_error e) else ok [], s)
  kept_local external panic s = (panic, s)

  abbrev pub local_or_none :
      FilePath → List ℕ → List (List ℕ) → Handling B V D F N R H base (List Share)
  local_or_none dir passphrase external s =
      kept_local external (load_shares B V D F dir passphrase (1 ∷ []) s) s

  abbrev pub open_external : List ℕ → List (List ℕ) → Handling B V D F N R H base (List Share)
  open_external passphrase external =
      lift (map_err wallet_error (load_external_shares B V D F passphrase external))

  -- The agreed nonce and the suggested fees, and the transaction that they make.
  unfoldable pub prepare_over :
      (ℕ → FeeSuggestion → Result UnsignedEip1559Tx EvmBuildError)
      → ℕ
      → List ℕ
      → Endpoint
      → List Endpoint
      → Handling B V D F N R H base UnsignedEip1559Tx
  unfolding verify_chain
  prepare_over build expected our_address primary rest = do
    verify_chain B V D F N R H base primary rest expected
    nonce ←
        corroborated rpc_error cross_check_error (λ a b. a == b)
          (λ e. transaction_count N e our_address) primary rest
    fees ← map_action rpc_error (trusted (fee_suggestion N primary))
    lift (map_err build_error (build nonce fees))

  unfoldable pub sign_and_broadcast :
      UnsignedEip1559Tx → List Share → PublicKey B → Endpoint → Handling B V D F N R H base Response
  sign_and_broadcast tx shares public_key primary = do
    raw ← lift (map_err ceremony_error (sign_evm_transfer B R tx shares public_key))
    tx_hash ← map_action rpc_error (trusted (send_raw_transaction N primary raw))
    pure (sent tx_hash)

  -- The end of both sending handlers, from the stored key on.
  unfoldable pub sign_and_send :
      (ℕ → FeeSuggestion → Result UnsignedEip1559Tx EvmBuildError)
      → FilePath
      → List ℕ
      → ℕ
      → Endpoint × List Endpoint
      → List (List ℕ)
      → Handling B V D F N R H base Response
  unfolding prepare_over sign_and_broadcast
  sign_and_send build dir passphrase expected (primary, rest) external = do
    public_key ← key_in B V D F N R H base dir
    tx ← prepare_over build expected (address_from_public_key B public_key) primary rest
    held ← local_or_none dir passphrase external
    others ← open_external passphrase external
    sign_and_broadcast tx (held ++ others) public_key primary

  unfoldable pub handle_send_transaction : Json → Handling B V D F N R H base Response
  unfolding sign_and_send
  handle_send_transaction params = do
    dir ← dir_param D F H base N params
    passphrase ← passphrase_param D F H base N params
    expected ← chain_id_param D F H base N params
    chosen ← endpoints_param D F H base N params
    to_address ← address_param D F H base N (as_str (at "to" params)) missing_to bad_to
    value ← value_param D F H base N params
    let gas_limit = gas_limit_param 21_000 params
    external ← optional_shares D F H base N (as_array (at "shares" params))
    sign_and_send
        (λ nonce fees.
          build_unsigned_transfer expected to_address value nonce fees.max_fee_per_gas
            fees.max_priority_fee_per_gas gas_limit)
        dir passphrase expected chosen external

  unfoldable pub handle_send_erc20_transaction : Json → Handling B V D F N R H base Response
  unfolding sign_and_send
  handle_send_erc20_transaction params = do
    dir ← dir_param D F H base N params
    passphrase ← passphrase_param D F H base N params
    expected ← chain_id_param D F H base N params
    chosen ← endpoints_param D F H base N params
    token_address ←
        address_param D F H base N (as_str (at "token_address" params)) missing_token bad_token
    to_address ← address_param D F H base N (as_str (at "to" params)) missing_to bad_to
    value ← value_param D F H base N params
    let gas_limit = gas_limit_param 100_000 params
    external ← optional_shares D F H base N (as_array (at "shares" params))
    let call_data = construct_transfer_data to_address value
    sign_and_send
        (λ nonce fees.
          build_unsigned_contract_call expected token_address 0 call_data nonce fees.max_fee_per_gas
            fees.max_priority_fee_per_gas gas_limit)
        dir passphrase expected chosen external
