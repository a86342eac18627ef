-- ===== src/Ffi.antt =====
-- crates/wallet-ffi/src/lib.rs: the requests of a host and their checked parameters. A response is
-- its values, whose texts are in Text.
pub mod Abi
pub mod Handlers
pub mod Sending
pub mod SentOver
pub mod Asked
pub mod TokenSent
pub mod CoinSent
pub mod Entry
pub mod Text
pub mod Boundary
pub mod Answered
pub mod Sandbox
pub mod Words
pub mod Unlocked
use fortresswallet.Base.{
  ℕ, ◌+◌, ◌-◌, ◌*◌, ◌^◌, Bool, true, false, not, ◌&&◌, Option, none, some, List, [], ◌∷◌, length,
  ltb, leb, ◌==◌, if◌then◌else◌, Result, ok, err, panic, map_err, ok_or, fail_if,
}
use fortresswallet.Base
use fortresswallet.Base.Action.{Action, map_action, pure, lift, ◌>>=◌, ◌>>◌}
use fortresswallet.Base.Json.{Json, as_str, as_u64, as_array, at}
use fortresswallet.Hex.{HexParseError}
use fortresswallet.Storage.Files.{Disk}
use fortresswallet.Wallet.{Folders, WalletError}
use fortresswallet.Rpc.{Endpoint, CrossCheckError}
use fortresswallet.Rpc.Client.{Net, RpcError}
use fortresswallet.Evm.{EvmBuildError, EvmCeremonyError}
use fortresswallet.Ffi.Abi.{parse_address_hex}

-- What `std::path`, `base64` and `serde_json` give. `none` is an error.
pub record Host (D : Disk) : Type 0 where
  pub path_of : List ℕ → D.FilePath
  pub canonicalize : D.FilePath → D.State → Result D.FilePath D.IoError
  pub starts_with : D.FilePath → D.FilePath → Bool
  pub decode_base64 : List ℕ → Option (List ℕ)
  pub encode_base64 : List ℕ → List ℕ
  pub from_str : List ℕ → Option Json

abbrev pub max_request_len : ℕ
max_request_len = 64 * 1024

abbrev pub max_shares : ℕ
max_shares = 255

abbrev pub max_share_b64_len : ℕ
max_share_b64_len = 1024

-- Each message of the source is a constructor.
pub data FfiError (IoError : Type 0) (Code : Type 0) (Message : Type 0) : Type 0 where
  not_json : FfiError IoError Code Message
  request_too_large too_many_shares share_too_large : ℕ → FfiError IoError Code Message
  unknown_method : List ℕ → FfiError IoError Code Message
  missing_dir no_base_dir sandbox_escape missing_passphrase : FfiError IoError Code Message
  bad_threshold bad_n missing_rpc_urls no_rpc_url bad_chain_id : FfiError IoError Code Message
  missing_token bad_token missing_to bad_to bad_value : FfiError IoError Code Message
  missing_shares too_few_shares share_no_string : FfiError IoError Code Message
  share_no_base64 balance_too_large : FfiError IoError Code Message
  invalid_path invalid_base_path : IoError → FfiError IoError Code Message
  wrong_chain : ℕ → ℕ → FfiError IoError Code Message
  wallet_error : WalletError IoError → FfiError IoError Code Message
  rpc_error : RpcError Code Message → FfiError IoError Code Message
  cross_check_error : CrossCheckError (RpcError Code Message) → FfiError IoError Code Message
  build_error : EvmBuildError → FfiError IoError Code Message
  ceremony_error : EvmCeremonyError → FfiError IoError Code Message

-- `BASE_DIR.set`: a `OnceLock` keeps its first value.
unfoldable pub set_base_dir : {FilePath : Type 0} → FilePath → Option FilePath → Option FilePath
set_base_dir path none = some path
set_base_dir path (some base) = some base

-- `filter_map(|v| v.as_str())`
unfoldable pub strings : List Json → List (List ℕ)
strings [] = []
strings (v ∷ vs) =
    let later = strings vs in elim (as_str v) [ none ↦ later | some text ↦ text ∷ later ]

-- `u8::try_from`
abbrev pub as_u8 : Json → Option ℕ
as_u8 v = elim (as_u64 v) [ none ↦ none | some n ↦ if ltb n 256 then some n else none ]

-- `parse::<u128>()`: an optional plus sign and at least one digit.
unfoldable pub decimal_value : ℕ → List ℕ → Option ℕ
decimal_value acc [] = some acc
decimal_value acc (c ∷ cs) =
    let value = acc * 10 + (c - b'0') in
    let rest = decimal_value value cs in
    if leb b'0' c && leb c b'9' && ltb value (2 ^ 128) then rest else none

unfoldable pub parse_u128 : List ℕ → Option ℕ
unfolding decimal_value
parse_u128 [] = none
parse_u128 (c ∷ []) = decimal_value 0 (c ∷ [])
parse_u128 (c ∷ d ∷ cs) =
    if c == b'+' then decimal_value 0 (d ∷ cs) else decimal_value 0 (c ∷ d ∷ cs)

-- `Some(d) if !d.is_empty()`
abbrev pub nonempty : Option (List ℕ) → Option (List ℕ)
nonempty none = none
nonempty (some []) = none
nonempty (some (c ∷ text)) = some (c ∷ text)

abbrev pub gas_limit_param : ℕ → Json → ℕ
gas_limit_param default params = elim (as_u64 (at "gas_limit" params)) [
  | none ↦ default
  | some n ↦ n
]

module _ (D : Disk) (F : Folders D) (H : Host D) (base : Option D.FilePath) (N : Net D.State) where
  open D use {State, FilePath, IoError}
  open N use {Code, Message}

  abbrev pub Handler : Type 0 → Type 0
  Handler A = Action State (FfiError IoError Code Message) A

  -- The result of the creation is ignored.
  abbrev pub create_quietly : FilePath → Handler (Unit {0})
  create_quietly dir s = (ok tt, (F.create_dir_all dir s).1)

  abbrev pub canonical : (IoError → FfiError IoError Code Message) → FilePath → Handler FilePath
  canonical error path s = (map_err error (H.canonicalize path s), s)

  unfoldable pub validate_dir : FilePath → Handler FilePath
  validate_dir dir = do
    base_dir ← lift (ok_or base no_base_dir)
    create_quietly dir
    canonical_dir ← canonical invalid_path dir
    base_canonical ← canonical invalid_base_path base_dir
    lift (fail_if (not (H.starts_with canonical_dir base_canonical)) sandbox_escape)
    pure canonical_dir

  unfoldable pub dir_param : Json → Handler FilePath
  unfolding validate_dir
  dir_param params = do
    dir ← lift (ok_or (nonempty (as_str (at "dir" params))) missing_dir)
    validate_dir (H.path_of dir)

  abbrev pub passphrase_param : Json → Handler (List ℕ)
  passphrase_param params = lift (ok_or (as_str (at "passphrase" params)) missing_passphrase)

  abbrev pub chain_id_param : Json → Handler ℕ
  chain_id_param params = lift (ok_or (as_u64 (at "chain_id" params)) bad_chain_id)

  -- The first endpoint and the others.
  abbrev pub first_endpoint : List (List ℕ) → Handler (Endpoint × List Endpoint)
  first_endpoint [] = lift (err no_rpc_url)
  first_endpoint (url ∷ urls) = pure (record { url = url }, Base.map (λ u. record { url = u }) urls)

  abbrev pub endpoints_param : Json → Handler (Endpoint × List Endpoint)
  endpoints_param params = do
    urls ← lift (ok_or (as_array (at "rpc_urls" params)) missing_rpc_urls)
    first_endpoint (strings urls)

  abbrev pub address_param :
      Option (List ℕ)
      → FfiError IoError Code Message
      → FfiError IoError Code Message
      → Handler (List ℕ)
  address_param field missing bad = do
    text ← lift (ok_or field missing)
    lift (map_err (λ _. bad) (parse_address_hex text))

  abbrev pub value_param : Json → Handler ℕ
  value_param params = lift (
      ok_or (elim (as_str (at "value_wei" params)) [ none ↦ none | some text ↦ parse_u128 text ])
        bad_value)

  -- The loop over the shares.
  unfoldable pub decode_shares : List Json → Result (List (List ℕ)) (FfiError IoError Code Message)
  decode_shares [] = ok []
  decode_shares (share ∷ shares) = Base.◌>>=◌ (ok_or (as_str share) share_no_string) (λ encoded.
      Base.◌>>=◌
        (fail_if (ltb max_share_b64_len (length encoded)) (share_too_large (length encoded)))
        (λ _.
          Base.◌>>=◌ (ok_or (H.decode_base64 encoded) share_no_base64)
            (λ bytes. Base.◌>>=◌ (decode_shares shares) (λ later. ok (bytes ∷ later)))))

  abbrev pub bounded_shares : List Json → Handler (List (List ℕ))
  bounded_shares shares = do
    lift (fail_if (ltb max_shares (length shares)) (too_many_shares (length shares)))
    lift (decode_shares shares)

  abbrev pub optional_shares : Option (List Json) → Handler (List (List ℕ))
  optional_shares none = pure []
  optional_shares (some shares) = bounded_shares shares
