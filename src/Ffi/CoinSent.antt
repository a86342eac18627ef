-- ===== src/Ffi/CoinSent.antt =====
-- What a transfer of the chain's own currency that a host sent has checked and broadcast.
use fortresswallet.Base.{ℕ, ◌≤◌, ◌≡◌, subst, Option, List, [], ok, arith}
use fortresswallet.Base.Action.{◌>>=◌, bind-eq-ok}
use fortresswallet.Base.Json.{Json, as_str, at}
use fortresswallet.Crypto.{Backend}
use fortresswallet.Storage.{Vault}
use fortresswallet.Storage.Files.{Disk}
use fortresswallet.Decoder.Evm.{Rlp, UnsignedEip1559Tx}
use fortresswallet.Wallet.{Folders}
use fortresswallet.Rpc.Client.{Net, FeeSuggestion}
use fortresswallet.Evm.{build_unsigned_transfer, max_fee_per_gas_ceiling}
use fortresswallet.Ffi.{Host, dir_param, address_param, gas_limit_param, missing_to, bad_to}
use fortresswallet.Ffi.Asked.{
  IsAsked, IsEnded, Build, Onward, IsGivenAddress, address_param-IsGivenAddress,
  address_param-keeps, front-IsAsked, finish, finish-IsEnded,
}
use fortresswallet.Ffi.Handlers.{Response}
use fortresswallet.Ffi.Sending.{handle_send_transaction}

-- The transaction that the handler asks for: to the address, on the chain.
abbrev pub transfer_of : ℕ → List ℕ → ℕ → Build
transfer_of expected to_address gas_limit value nonce fees =
    build_unsigned_transfer expected to_address value nonce fees.max_fee_per_gas
      fees.max_priority_fee_per_gas gas_limit

-- The transaction moves the value to the address, with this nonce and these fees, and calls nothing.
abbrev pub IsTransfer : ℕ → List ℕ → ℕ → ℕ → ℕ → FeeSuggestion → UnsignedEip1559Tx → Type 0
IsTransfer expected to_address gas_limit value nonce fees tx =
    (tx.chain_id ≡ expected)
    × (tx.to ≡ to_address)
    × (tx.value ≡ value)
    × (tx.call_data ≡ [])
    × (tx.nonce ≡ nonce)
    × (tx.gas_limit ≡ gas_limit)
    × (tx.max_fee_per_gas ≡ fees.max_fee_per_gas)
    × (tx.max_priority_fee_per_gas ≡ fees.max_priority_fee_per_gas)
    × (tx.max_fee_per_gas ≤ max_fee_per_gas_ceiling)

built-IsTransfer :
    (expected : ℕ) (to_address : List ℕ) (gas_limit value nonce : ℕ) (fees : FeeSuggestion)
    (tx : UnsignedEip1559Tx)
    → transfer_of expected to_address gas_limit value nonce fees ≡ ok tx
    → IsTransfer expected to_address gas_limit value nonce fees tx
unfolding build_unsigned_transfer
built-IsTransfer expected to_address gas_limit value nonce fees tx h = (
  ground arith,
  ground arith,
  ground arith,
  ground arith,
  ground arith,
  ground arith,
  ground arith,
  ground arith,
  ground arith,
)

module _ (B : Backend) (V : Vault) (D : Disk) (F : Folders D) (N : Net D.State) (R : Rlp)
    (H : Host D) (base : Option D.FilePath) where
  open D use {State, FilePath}

  -- What a transfer that was sent follows from: the parameters of the request, and a run from the
  -- checked directory to the end, in which all endpoints agreed before the transaction was signed.
  pub record IsCoinSent (params : Json) (s : State) (response : Response) (end : State)
      : Type 0 where
    pub asked : IsAsked B V D F N R H base params s
    pub to_address : List ℕ
    pub to_given : IsGivenAddress (as_str (at "to" params)) to_address
    pub ended :
        IsEnded B V D F N R H base params
          (transfer_of asked.expected to_address (gas_limit_param 21_000 params))
          asked.dir
          asked.passphrase
          asked.expected
          asked.chosen
          (dir_param D F H base N params s).1
          response
          end
    pub is_transfer :
        IsTransfer asked.expected to_address
          (gas_limit_param 21_000 params)
          ended.value
          ended.sent_over.prepared.nonce
          ended.sent_over.prepared.fees.value
          ended.sent_over.tx

  -- A transfer that succeeds has sent the requested value to the requested address on the requested
  -- chain, without call data, with the requested gas limit or 21000, with the nonce that all endpoints
  -- given agreed on for the stored key's address, and with the fees that the first of them suggested,
  -- within the ceiling. After the check of the directory the endpoints agreed on the chain, then on
  -- the nonce, then the fees were asked for; the transaction was signed for the key stored in the
  -- checked directory, and its bytes went to the first endpoint last of all, whose hash is the
  -- response.
  pub handle_send_transaction-IsCoinSent :
      (params : Json) (s end : State) (response : Response)
      → handle_send_transaction B V D F N R H base params s ≡ (ok response, end)
      → IsCoinSent params s response end
  unfolding handle_send_transaction
  handle_send_transaction-IsCoinSent params s end response h =
      let gas_limit = gas_limit_param 21_000 params in
      let end_over : List ℕ → Onward B V D F N R H base params =
        λ to dir passphrase expected chosen.
          finish B V D F N R H base params (transfer_of expected to gas_limit) dir passphrase
            expected chosen in
      let given_to = address_param D F H base N (as_str (at "to" params)) missing_to bad_to in
      let (asked, h1) =
        front-IsAsked B V D F N R H base params
          (λ dir passphrase expected chosen.
            given_to >>= (λ to. end_over to dir passphrase expected chosen))
          s end response h in
      let checked = (dir_param D F H base N params s).1 in
      let (to, e1, h2) =
        bind-eq-ok given_to
          (λ to. end_over to asked.dir asked.passphrase asked.expected asked.chosen) checked end
          response h1 in
      let h3 =
        subst
          (λ t.
            end_over to asked.dir asked.passphrase asked.expected asked.chosen t
            ≡ (ok response, end))
          (address_param-keeps B V D F N R H base (as_str (at "to" params)) missing_to bad_to
            checked)
          h2 in
      let ended =
        finish-IsEnded B V D F N R H base params (transfer_of asked.expected to gas_limit) asked.dir
          asked.passphrase asked.expected asked.chosen checked end response h3 in
      let prepared = ended.sent_over.prepared in
      record {
        asked = asked;
        to_address = to;
        to_given =
            address_param-IsGivenAddress B V D F N R H base (as_str (at "to" params)) missing_to
              bad_to checked to e1;
        ended = ended;
        is_transfer =
            built-IsTransfer asked.expected to gas_limit ended.value prepared.nonce
              prepared.fees.value ended.sent_over.tx prepared.built;
      }
