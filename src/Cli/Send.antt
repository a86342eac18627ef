-- ===== src/Cli/Send.antt =====
-- crates/wallet-cli/src/main.rs: the command that sends.
use fortresswallet.Base.{ℕ, List, [], ◌∷◌, ◌++◌, ◌==◌, if◌then◌else◌, ok, map_err}
use fortresswallet.Base.Action.{map_action, pure, lift, ◌>>=◌, ◌>>◌}
use fortresswallet.Hex.{parse_address, parse_hex}
use fortresswallet.Crypto.{Backend, PublicKey}
use fortresswallet.Crypto.Shamir.{Share, is_in}
use fortresswallet.Storage.{Vault}
use fortresswallet.Storage.Files.{Disk}
use fortresswallet.Decoder.Evm.{Rlp, UnsignedEip1559Tx}
use fortresswallet.Wallet.{Folders, load_shares, load_external_share}
use fortresswallet.Rpc.{Endpoint, trusted, corroborated}
use fortresswallet.Rpc.Client.{Net, transaction_count, fee_suggestion, send_raw_transaction}
use fortresswallet.Evm.{address_from_public_key, build_unsigned_transfer, sign_evm_transfer}
use fortresswallet.Cli.{
  Terminal, Command, broadcast, wallet_error, rpc_error, hex_error, build_error, signing_failed,
  cross_check_error, endpoints, input, println, stored_key, split_first, verify_chain_id,
}

module _ (B : Backend) (V : Vault) (D : Disk) (F : Folders D) (N : Net D.State)
    (T : Terminal D.State) (R : Rlp) where
  open D use {State, FilePath}

  abbrev pub Sending : Type 0 → Type 0
  Sending A = Command B V D F N T A

  -- `idx == 1` is skipped; any other share is pasted.
  unfoldable pub paste_shares : List ℕ → List ℕ → Sending (List Share)
  paste_shares pass [] = pure []
  paste_shares pass (idx ∷ share_indices) =
      let others = paste_shares pass share_indices in
      if idx == 1 then others else do
        line ← input B V D F N T T.read_line
        share_bytes ← lift (map_err hex_error (parse_hex line))
        share ← lift (map_err wallet_error (load_external_share B V D F pass share_bytes))
        shares ← others
        pure (share ∷ shares)

  abbrev pub local_shares : FilePath → List ℕ → List ℕ → Sending (List Share)
  local_shares dir pass share_indices s =
      if is_in 1 share_indices
      then (map_err wallet_error (load_shares B V D F dir pass (1 ∷ []) s), s)
      else (ok [], s)

  unfoldable pub gather_shares : FilePath → List ℕ → Sending (List Share)
  unfolding paste_shares
  gather_shares dir share_indices = do
    pass ← input B V D F N T T.read_passphrase
    held ← local_shares dir pass share_indices
    pasted ← paste_shares pass share_indices
    pure (held ++ pasted)

  -- The transaction, on the chain that every endpoint serves and with the nonce that every endpoint
  -- gives.
  unfoldable pub prepare :
      ℕ → List ℕ → ℕ → ℕ → List ℕ → Endpoint → List Endpoint → Sending UnsignedEip1559Tx
  prepare chain to_address value gas_limit our_address primary rest = do
    verify_chain_id B V D F N T primary rest chain
    nonce ←
        corroborated rpc_error cross_check_error (λ a b. a == b)
          (λ e. transaction_count N e our_address) primary rest
    fees ← map_action rpc_error (trusted (fee_suggestion N primary))
    lift (
        map_err build_error (
          build_unsigned_transfer chain to_address value nonce fees.max_fee_per_gas
            fees.max_priority_fee_per_gas gas_limit))

  -- The rest of the command, on the endpoints.
  unfoldable pub send_over :
      FilePath
      → ℕ
      → List ℕ
      → ℕ
      → List ℕ
      → ℕ
      → PublicKey B
      → Endpoint × List Endpoint
      → Sending (Unit {0})
  unfolding prepare gather_shares
  send_over dir chain to_address value share_indices gas_limit public_key (primary, rest) = do
    tx ←
        prepare chain to_address value gas_limit (address_from_public_key B public_key) primary rest
    shares ← gather_shares dir share_indices
    raw ← lift (map_err signing_failed (sign_evm_transfer B R tx shares public_key))
    tx_hash ← map_action rpc_error (trusted (send_raw_transaction N primary raw))
    println B V D F N T (broadcast tx_hash)

  unfoldable pub cmd_send :
      FilePath → ℕ → List ℕ → ℕ → List (List ℕ) → List ℕ → ℕ → Sending (Unit {0})
  unfolding send_over
  cmd_send dir chain to value rpc_urls share_indices gas_limit = do
    to_address ← lift (map_err hex_error (parse_address to))
    public_key ← stored_key B V D F N T dir
    chosen ← split_first B V D F N T (endpoints rpc_urls)
    send_over dir chain to_address value share_indices gas_limit public_key chosen
