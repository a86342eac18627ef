-- ===== src/Cli.antt =====
-- crates/wallet-cli/src/main.rs: the commands, over the network, the disk and the terminal as
-- parameters on one world. The texts of messages and prompts are not modelled; what is printed is
-- its values.
pub mod Send
pub mod Run
pub mod Agreed
pub mod Sent
use fortresswallet.Base.{
  ℕ, ◌+◌, ◌-◌, ◌^◌, Bool, not, Option, none, some, List, [], ◌∷◌, map, ltb, ◌==◌, if◌then◌else◌,
  bytes_eq, Result, ok, err, panic, map_err, or_panic, fail_if,
}
use fortresswallet.Base.Action.{map_action, Action, pure, lift, ◌>>=◌, ◌>>◌}
use fortresswallet.Hex.{HexParseError, parse_tx_hash, to_hex}
use fortresswallet.Crypto.{Backend, PublicKey}
use fortresswallet.Storage.{Vault}
use fortresswallet.Storage.Files.{Disk}
use fortresswallet.Decoder.Evm.{Rlp}
use fortresswallet.Wallet.{Folders, WalletError, create_wallet, load_public_key}
use fortresswallet.Rpc.{Endpoint, Untrusted, CrossCheckError, trusted, corroborated}
use fortresswallet.Rpc.Client.{
  Net, RpcError, TransactionReceipt, chain_id, balance, block_number, transaction_receipt,
}
use fortresswallet.Evm.{EvmBuildError, EvmCeremonyError, address_from_public_key}
use fortresswallet.Evm.Address.{to_checksummed_hex}

-- What a command prints.
pub data Output : Type 0 where
  address : List ℕ → Output
  external_share : ℕ → List ℕ → Output
  wei : ℕ → Output
  broadcast : List ℕ → Output
  not_yet_mined : Output
  mined : ℕ → ℕ → Bool → Output

-- What `rpassword`, the standard input and the standard output give. `none` is a failed read, which
-- panics. A line comes without the white space around it.
pub record Terminal (State : Type 0) : Type 0 where
  pub read_passphrase : State → Option (List ℕ) × State
  pub read_line : State → Option (List ℕ) × State
  pub print : Output → State → State

pub data CliError (IoError : Type 0) (Code : Type 0) (Message : Type 0) : Type 0 where
  passphrases_differ : CliError IoError Code Message
  wrong_chain : ℕ → ℕ → CliError IoError Code Message
  wallet_error : WalletError IoError → CliError IoError Code Message
  rpc_error : RpcError Code Message → CliError IoError Code Message
  cross_check_error : CrossCheckError (RpcError Code Message) → CliError IoError Code Message
  signing_failed : EvmCeremonyError → CliError IoError Code Message
  hex_error : HexParseError → CliError IoError Code Message
  build_error : EvmBuildError → CliError IoError Code Message

-- `current.saturating_sub(mined).saturating_add(1)` on `u64`.
unfoldable pub confirmations : ℕ → ℕ → ℕ
confirmations current mined_in =
    let depth = current - mined_in in if ltb (depth + 1) (2 ^ 64) then depth + 1 else depth

abbrev pub endpoints : List (List ℕ) → List Endpoint
endpoints urls = map (λ u. record { url = u }) urls

module _ (B : Backend) (V : Vault) (D : Disk) (F : Folders D) (N : Net D.State)
    (T : Terminal D.State) where
  open D use {State, FilePath, IoError}
  open N use {Code, Message}

  abbrev pub Command : Type 0 → Type 0
  Command A = Action State (CliError IoError Code Message) A

  -- A read of the terminal that panics where it fails.
  abbrev pub input : (State → Option (List ℕ) × State) → Command (List ℕ)
  input read s = let (r, after) = read s in (or_panic r, after)

  abbrev pub println : Output → Command (Unit {0})
  println out s = (ok tt, T.print out s)

  abbrev pub stored_key : FilePath → Command (PublicKey B)
  stored_key dir s = (map_err wallet_error (load_public_key B V D F dir s), s)

  -- `split_first().expect(…)`
  abbrev pub split_first : List Endpoint → Command (Endpoint × List Endpoint)
  split_first [] s = (panic, s)
  split_first (primary ∷ rest) s = (ok (primary, rest), s)

  unfoldable pub verify_chain_id : Endpoint → List Endpoint → ℕ → Command (Unit {0})
  verify_chain_id primary rest expected_chain = do
    verified ← corroborated rpc_error cross_check_error (λ a b. a == b) (chain_id N) primary rest
    lift (fail_if (not (verified == expected_chain)) (wrong_chain expected_chain verified))

  -- The loop that prints the external shares, numbered from `i`.
  unfoldable pub print_shares : ℕ → List (List ℕ) → Command (Unit {0})
  print_shares i [] = pure tt
  print_shares i (sealed ∷ external_shares) = do
    println (external_share i (to_hex sealed))
    print_shares (i + 1) external_shares

  -- The key, the coefficients, the salts and the nonces are drawn.
  unfoldable pub cmd_init :
      B.SigningKey
      → (ℕ → B.Scalar)
      → (ℕ → List ℕ)
      → (ℕ → List ℕ)
      → FilePath
      → ℕ
      → ℕ
      → Command (Unit {0})
  unfolding print_shares
  cmd_init key draw salts nonces dir threshold n = do
    pass ← input T.read_passphrase
    confirm ← input T.read_passphrase
    lift (fail_if (not (bytes_eq pass confirm)) passphrases_differ)
    (public_key, external_shares) ←
        map_action wallet_error (create_wallet B V D F salts nonces key draw dir pass threshold n)
    println (address (to_checksummed_hex B (address_from_public_key B public_key)))
    print_shares 2 external_shares

  unfoldable pub cmd_address : FilePath → Command (Unit {0})
  cmd_address dir = do
    public_key ← stored_key dir
    println (address (to_checksummed_hex B (address_from_public_key B public_key)))

  unfoldable pub cmd_balance : FilePath → ℕ → List (List ℕ) → Command (Unit {0})
  unfolding verify_chain_id
  cmd_balance dir chain rpc_urls = do
    public_key ← stored_key dir
    let our_address = address_from_public_key B public_key
    (primary, rest) ← split_first (endpoints rpc_urls)
    verify_chain_id primary rest chain
    verified ←
        corroborated rpc_error cross_check_error (λ a b. a == b) (λ e. balance N e our_address)
          primary rest
    println (wei verified)

  -- The `match` on the receipt.
  abbrev pub report : Endpoint → Option TransactionReceipt → Command (Unit {0})
  report endpoint none = println not_yet_mined
  report endpoint (some r) = do
    current_block ← map_action rpc_error (trusted (block_number N endpoint))
    println (mined r.block_number (confirmations current_block r.block_number) r.success)

  unfoldable pub cmd_status : List ℕ → List ℕ → Command (Unit {0})
  cmd_status tx rpc_url = do
    tx_hash ← lift (map_err hex_error (parse_tx_hash tx))
    let endpoint : Endpoint = record { url = rpc_url }
    receipt ← map_action rpc_error (trusted (transaction_receipt N endpoint tx_hash))
    report endpoint receipt
