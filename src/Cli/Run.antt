-- ===== src/Cli/Run.antt =====
-- crates/wallet-cli/src/main.rs: the subcommands and the exit code of the process.
use fortresswallet.Base.{ℕ, Option, none, some, List, Result, ok, err, panic}
use fortresswallet.Crypto.{Backend}
use fortresswallet.Storage.{Vault}
use fortresswallet.Storage.Files.{Disk}
use fortresswallet.Decoder.Evm.{Rlp}
use fortresswallet.Wallet.{Folders}
use fortresswallet.Rpc.Client.{Net}
use fortresswallet.Cli
use fortresswallet.Cli.{Terminal, CliError, cmd_init, cmd_address, cmd_balance, cmd_status}
use fortresswallet.Cli.Send.{cmd_send}

-- `clap` gives the arguments of one subcommand.
pub data Command (FilePath : Type 0) : Type 0 where
  init : FilePath → ℕ → ℕ → Command FilePath
  address : FilePath → Command FilePath
  balance : FilePath → ℕ → List (List ℕ) → Command FilePath
  send : FilePath → ℕ → List ℕ → ℕ → List (List ℕ) → List ℕ → Option ℕ → Command FilePath
  status : List ℕ → List ℕ → Command FilePath

-- `default_value_t = 21_000`
abbrev pub gas_limit_arg : Option ℕ → ℕ
gas_limit_arg none = 21000
gas_limit_arg (some n) = n

-- A process that panics exits with 101.
pub data ExitCode : Type 0 where
  success failure panicked : ExitCode

module _ (B : Backend) (V : Vault) (D : Disk) (F : Folders D) (N : Net D.State)
    (T : Terminal D.State) (R : Rlp) (key : B.SigningKey) (draw : ℕ → B.Scalar)
    (salts nonces : ℕ → List ℕ)
    (eprintln : CliError D.IoError N.Code N.Message → D.State → D.State) where
  open D use {State, FilePath, IoError}

  unfoldable pub run : Command FilePath → Cli.Command B V D F N T (Unit {0})
  run (init dir threshold n) = cmd_init B V D F N T key draw salts nonces dir threshold n
  run (address dir) = cmd_address B V D F N T dir
  run (balance dir chain rpc) = cmd_balance B V D F N T dir chain rpc
  run (send dir chain to value rpc share gas_limit) =
      cmd_send B V D F N T R dir chain to value rpc share (gas_limit_arg gas_limit)
  run (status tx rpc) = cmd_status B V D F N T tx rpc

  unfoldable pub exit :
      Result (Unit {0}) (CliError IoError N.Code N.Message) × State → ExitCode × State
  exit (ok tt, s) = (success, s)
  exit (err e, s) = (failure, eprintln e s)
  exit (panic, s) = (panicked, s)

  unfoldable pub main : Command FilePath → State → ExitCode × State
  unfolding run exit
  main command s = exit (run command s)
