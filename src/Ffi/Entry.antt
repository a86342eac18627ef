-- ===== src/Ffi/Entry.antt =====
-- crates/wallet-ffi/src/lib.rs: the processing of a request, which is the list of its
-- bytes.
use fortresswallet.Base.{
  ℕ, none, some, Option, List, length, ltb, bytes_eq, if◌then◌else◌, ok_or, fail_if,
}
use fortresswallet.Base.Action.{pure, raise, lift, ◌>>=◌, ◌>>◌}
use fortresswallet.Base.Json.{Json, as_str, at, codes}
use fortresswallet.Crypto.{Backend}
use fortresswallet.Storage.{Vault}
use fortresswallet.Storage.Files.{Disk}
use fortresswallet.Decoder.Evm.{Rlp}
use fortresswallet.Wallet.{Folders}
use fortresswallet.Rpc.Client.{Net}
use fortresswallet.Ffi.{Host, max_request_len, request_too_large, not_json, unknown_method}
use fortresswallet.Ffi.Handlers.{
  Response, pong, version, Handling, handle_create_wallet, handle_get_address, handle_get_balance,
  handle_unlock_wallet, handle_import_wallet, handle_get_erc20_balance,
}
use fortresswallet.Ffi.Sending.{handle_send_transaction, handle_send_erc20_transaction}

module _ (B : Backend) (V : Vault) (D : Disk) (F : Folders D) (N : Net D.State) (R : Rlp)
    (H : Host D) (base : Option D.FilePath) (key : B.SigningKey) (draw : ℕ → B.Scalar)
    (salts nonces : ℕ → List ℕ) where
  -- The `match` on the method.
  unfoldable pub dispatch : List ℕ → Json → Handling B V D F N R H base Response
  dispatch method params =
      if bytes_eq method (codes "ping")
      then pure pong
      else if bytes_eq method (codes "get_version")
      then pure version
      else if bytes_eq method (codes "create_wallet")
      then handle_create_wallet B V D F N R H base key draw salts nonces params
      else if bytes_eq method (codes "get_address")
      then handle_get_address B V D F N R H base params
      else if bytes_eq method (codes "get_balance")
      then handle_get_balance B V D F N R H base params
      else if bytes_eq method (codes "unlock_wallet")
      then handle_unlock_wallet B V D F N R H base params
      else if bytes_eq method (codes "import_wallet")
      then handle_import_wallet B V D F N R H base params
      else if bytes_eq method (codes "get_erc20_balance")
      then handle_get_erc20_balance B V D F N R H base params
      else if bytes_eq method (codes "send_transaction")
      then handle_send_transaction B V D F N R H base params
      else if bytes_eq method (codes "send_erc20_transaction")
      then handle_send_erc20_transaction B V D F N R H base params
      else raise (unknown_method method)

  -- A method that is no string is taken as the empty one.
  unfoldable pub process_request : List ℕ → Handling B V D F N R H base Response
  unfolding dispatch
  process_request request = do
    lift (fail_if (ltb max_request_len (length request)) (request_too_large (length request)))
    json ← lift (ok_or (H.from_str request) not_json)
    dispatch (elim (as_str (at "method" json)) [ none ↦ codes "" | some method ↦ method ])
        (at "params" json)
