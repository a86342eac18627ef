-- ===== src/Ffi/Handlers.antt =====
-- crates/wallet-ffi/src/lib.rs: the handlers of the requests.
use fortresswallet.Base.{
  ℕ, not, Bool, Option, none, some, List, [], ◌∷◌, ◌++◌, length, ltb, ◌==◌, bytes_eq, if◌then◌else◌,
  Result, ok, err, panic, map_err, ok_or, fail_if,
}
use fortresswallet.Base
use fortresswallet.Base.Action.{Action, map_action, pure, lift, ◌>>=◌, ◌>>◌}
use fortresswallet.Base.Json.{Json, as_str, as_array, at}
use fortresswallet.Crypto.{Backend, PublicKey}
use fortresswallet.Crypto.Shamir.{Share}
use fortresswallet.Storage.{Vault}
use fortresswallet.Storage.Files.{Disk}
use fortresswallet.Decoder.Evm.{Rlp}
use fortresswallet.Wallet.{Folders, create_wallet, load_public_key, load_shares, import_wallet}
use fortresswallet.Rpc.{Endpoint, corroborated}
use fortresswallet.Rpc.Client.{Net, chain_id, balance, call_contract}
use fortresswallet.Evm.{address_from_public_key}
use fortresswallet.Evm.Address.{to_checksummed_hex}
use fortresswallet.Ffi.Abi.{construct_balance_of_data, decode_uint256_result}
use fortresswallet.Ffi.{
  Host, FfiError, as_u8, dir_param, passphrase_param, chain_id_param, endpoints_param,
  address_param, bounded_shares, bad_threshold, bad_n, missing_token, bad_token, missing_shares,
  too_few_shares, balance_too_large, wrong_chain, wallet_error, rpc_error, cross_check_error,
}

-- What a request that succeeds answers.
pub data Response : Type 0 where
  pong version : Response
  created : List ℕ → List (List ℕ) → Response
  address_is : List ℕ → Response
  balance_is : List ℕ → ℕ → Response
  sent : List ℕ → Response

module _ (B : Backend) (V : Vault) (D : Disk) (F : Folders D) (N : Net D.State) (R : Rlp)
    (H : Host D) (base : Option D.FilePath) where
  open D use {State, FilePath, IoError}
  open N use {Code, Message}

  abbrev pub Handling : Type 0 → Type 0
  Handling A = Action State (FfiError IoError Code Message) A

  abbrev pub key_in : FilePath → Handling (PublicKey B)
  key_in dir s = (map_err wallet_error (load_public_key B V D F dir s), s)

  abbrev pub checksummed_address : PublicKey B → List ℕ
  checksummed_address public_key = to_checksummed_hex B (address_from_public_key B public_key)

  -- The key, the coefficients, the salts and the nonces are drawn.
  unfoldable pub handle_create_wallet :
      B.SigningKey → (ℕ → B.Scalar) → (ℕ → List ℕ) → (ℕ → List ℕ) → Json → Handling Response
  handle_create_wallet key draw salts nonces params = do
    dir ← dir_param D F H base N params
    passphrase ← passphrase_param D F H base N params
    threshold ← lift (ok_or (as_u8 (at "threshold" params)) bad_threshold)
    n ← lift (ok_or (as_u8 (at "n" params)) bad_n)
    (public_key, external_shares) ←
        map_action wallet_error
          (create_wallet B V D F salts nonces key draw dir passphrase threshold n)
    pure (created (checksummed_address public_key) (Base.map H.encode_base64 external_shares))

  unfoldable pub handle_get_address : Json → Handling Response
  handle_get_address params = do
    dir ← dir_param D F H base N params
    public_key ← key_in dir
    pure (address_is (checksummed_address public_key))

  unfoldable pub verify_chain : Endpoint → List Endpoint → ℕ → Handling (Unit {0})
  verify_chain primary rest expected = do
    verified ← corroborated rpc_error cross_check_error (λ a b. a == b) (chain_id N) primary rest
    lift (fail_if (not (verified == expected)) (wrong_chain expected verified))

  unfoldable pub handle_get_balance : Json → Handling Response
  unfolding verify_chain
  handle_get_balance params = do
    dir ← dir_param D F H base N params
    (primary, rest) ← endpoints_param D F H base N params
    expected ← chain_id_param D F H base N params
    public_key ← key_in dir
    let our_address = address_from_public_key B public_key
    verify_chain primary rest expected
    verified ←
        corroborated rpc_error cross_check_error (λ a b. a == b) (λ e. balance N e our_address)
          primary rest
    pure (balance_is (to_checksummed_hex B our_address) verified)

  -- The local share is read and dropped.
  abbrev pub unlock : FilePath → List ℕ → Handling (List Share)
  unlock dir passphrase s =
      (map_err wallet_error (load_shares B V D F dir passphrase (1 ∷ []) s), s)

  unfoldable pub handle_unlock_wallet : Json → Handling Response
  handle_unlock_wallet params = do
    dir ← dir_param D F H base N params
    passphrase ← passphrase_param D F H base N params
    share ← unlock dir passphrase
    public_key ← key_in dir
    pure (address_is (checksummed_address public_key))

  unfoldable pub handle_import_wallet : Json → Handling Response
  handle_import_wallet params = do
    dir ← dir_param D F H base N params
    passphrase ← passphrase_param D F H base N params
    shares ← lift (ok_or (as_array (at "shares" params)) missing_shares)
    lift (fail_if (ltb (length shares) 2) too_few_shares)
    sealed_shares ← bounded_shares D F H base N shares
    public_key ← map_action wallet_error (import_wallet B V D F dir passphrase sealed_shares)
    pure (address_is (checksummed_address public_key))

  unfoldable pub handle_get_erc20_balance : Json → Handling Response
  unfolding verify_chain
  handle_get_erc20_balance params = do
    dir ← dir_param D F H base N params
    (primary, rest) ← endpoints_param D F H base N params
    expected ← chain_id_param D F H base N params
    token_address ←
        address_param D F H base N (as_str (at "token_address" params)) missing_token bad_token
    public_key ← key_in dir
    let our_address = address_from_public_key B public_key
    verify_chain primary rest expected
    result ←
        corroborated rpc_error cross_check_error bytes_eq
          (λ e. call_contract N e token_address (construct_balance_of_data our_address)) primary
          rest
    verified ← lift (map_err (λ _. balance_too_large) (decode_uint256_result result))
    pure (balance_is (to_checksummed_hex B our_address) verified)
