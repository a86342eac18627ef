-- ===== src/Ffi/TokenSent.antt =====
-- What a token transfer that a host sent has checked and broadcast.
use fortresswallet.Base.{ℕ, ◌≤◌, ◌≡◌, subst, Option, List, ok, arith}
use fortresswallet.Base.Action.{◌>>=◌, bind-eq-ok}
use fortresswallet.Base.Json.{Json, as_str, at}
use fortresswallet.Crypto.{Backend}
use fortresswallet.Storage.{Vault}
use fortresswallet.Storage.Files.{Disk}
use fortresswallet.Decoder.Evm.{Rlp, UnsignedEip1559Tx}
use fortresswallet.Wallet.{Folders}
use fortresswallet.Rpc.Client.{Net, FeeSuggestion}
use fortresswallet.Evm.{build_unsigned_contract_call, max_fee_per_gas_ceiling}
use fortresswallet.Ffi.Abi.{construct_transfer_data}
use fortresswallet.Ffi.{
  Host, dir_param, address_param, gas_limit_param, missing_token, bad_token, missing_to, bad_to,
}
use fortresswallet.Ffi.Asked.{
  IsAsked, IsEnded, Build, Onward, IsGivenAddress, address_param-IsGivenAddress,
  address_param-keeps, front-IsAsked, finish, finish-IsEnded,
}
use fortresswallet.Ffi.Handlers.{Response}
use fortresswallet.Ffi.Sending.{handle_send_erc20_transaction}

-- The transaction that the handler asks for: a call of the token, without value.
abbrev pub call_of : ℕ → List ℕ → List ℕ → ℕ → Build
call_of expected token_address to_address gas_limit value nonce fees =
    build_unsigned_contract_call expected token_address 0 (construct_transfer_data to_address value)
      nonce fees.max_fee_per_gas fees.max_priority_fee_per_gas gas_limit

-- The call has the token as its destination, no value, the data of the transfer, this nonce and
-- these fees.
abbrev pub IsTransferCall :
    ℕ → List ℕ → List ℕ → ℕ → ℕ → ℕ → FeeSuggestion → UnsignedEip1559Tx → Type 0
IsTransferCall expected token_address to_address gas_limit value nonce fees tx =
    (tx.chain_id ≡ expected)
    × (tx.to ≡ token_address)
    × (tx.value ≡ 0)
    × (tx.call_data ≡ construct_transfer_data to_address value)
    × (tx.nonce ≡ nonce)
    × (tx.gas_limit ≡ gas_limit)
    × (tx.max_fee_per_gas ≡ fees.max_fee_per_gas)
    × (tx.max_priority_fee_per_gas ≡ fees.max_priority_fee_per_gas)
    × (tx.max_fee_per_gas ≤ max_fee_per_gas_ceiling)

built-IsTransferCall :
    (expected : ℕ) (token_address to_address : List ℕ) (gas_limit value nonce : ℕ)
    (fees : FeeSuggestion) (tx : UnsignedEip1559Tx)
    → call_of expected token_address to_address gas_limit value nonce fees ≡ ok tx
    → IsTransferCall expected token_address to_address gas_limit value nonce fees tx
unfolding build_unsigned_contract_call
built-IsTransferCall expected token_address to_address gas_limit value nonce fees tx h = (
  ground arith,
  ground arith,
  ground arith,
  ground arith,
  ground arith,
  ground arith,
  ground arith,
  ground arith,
  ground arith,
)

module _ (B : Backend) (V : Vault) (D : Disk) (F : Folders D) (N : Net D.State) (R : Rlp)
    (H : Host D) (base : Option D.FilePath) where
  open D use {State, FilePath}

  -- What a token transfer that was sent follows from: the parameters of the request, and a run from
  -- the checked directory to the end, in which all endpoints agreed before the call was signed.
  pub record IsTokenSent (params : Json) (s : State) (response : Response) (end : State)
      : Type 0 where
    pub asked : IsAsked B V D F N R H base params s
    pub token_address : List ℕ
    pub token_given : IsGivenAddress (as_str (at "token_address" params)) token_address
    pub to_address : List ℕ
    pub to_given : IsGivenAddress (as_str (at "to" params)) to_address
    pub ended :
        IsEnded B V D F N R H base params
          (call_of asked.expected token_address to_address (gas_limit_param 100_000 params))
          asked.dir
          asked.passphrase
          asked.expected
          asked.chosen
          (dir_param D F H base N params s).1
          response
          end
    pub is_call :
        IsTransferCall asked.expected token_address to_address
          (gas_limit_param 100_000 params)
          ended.value
          ended.sent_over.prepared.nonce
          ended.sent_over.prepared.fees.value
          ended.sent_over.tx

  -- A token transfer that succeeds has sent a call of the requested token on the requested chain,
  -- with no value, with the data of a transfer of the requested value to the requested address, with
  -- the requested gas limit or 100000, with the nonce that all endpoints given agreed on for the
  -- stored key's address, and with the fees that the first of them suggested, within the ceiling.
  -- After the check of the directory the endpoints agreed on the chain, then on the nonce, then the
  -- fees were asked for; the call was signed for the key stored in the checked directory, and its
  -- bytes went to the first endpoint last of all, whose hash is the response.
  pub handle_send_erc20_transaction-IsTokenSent :
      (params : Json) (s end : State) (response : Response)
      → handle_send_erc20_transaction B V D F N R H base params s ≡ (ok response, end)
      → IsTokenSent params s response end
  unfolding handle_send_erc20_transaction
  handle_send_erc20_transaction-IsTokenSent params s end response h =
      let gas_limit = gas_limit_param 100_000 params in
      let end_over : List ℕ → List ℕ → Onward B V D F N R H base params =
        λ token to dir passphrase expected chosen.
          finish B V D F N R H base params (call_of expected token to gas_limit) dir passphrase
            expected chosen in
      let given_token =
        address_param D F H base N (as_str (at "token_address" params)) missing_token bad_token in
      let given_to = address_param D F H base N (as_str (at "to" params)) missing_to bad_to in
      let to_receiver : List ℕ → Onward B V D F N R H base params =
        λ token dir passphrase expected chosen.
          given_to >>= (λ to. end_over token to dir passphrase expected chosen) in
      let (asked, h1) =
        front-IsAsked B V D F N R H base params
          (λ dir passphrase expected chosen.
            given_token >>= (λ token. to_receiver token dir passphrase expected chosen))
          s end response h in
      let checked = (dir_param D F H base N params s).1 in
      let (token, e1, h2) =
        bind-eq-ok given_token
          (λ token. to_receiver token asked.dir asked.passphrase asked.expected asked.chosen)
          checked end response h1 in
      let h3 =
        subst
          (λ t.
            to_receiver token asked.dir asked.passphrase asked.expected asked.chosen t
            ≡ (ok response, end))
          (address_param-keeps B V D F N R H base (as_str (at "token_address" params)) missing_token
            bad_token checked)
          h2 in
      let (to, e2, h4) =
        bind-eq-ok given_to
          (λ to. end_over token to asked.dir asked.passphrase asked.expected asked.chosen) checked
          end response h3 in
      let h5 =
        subst
          (λ t.
            end_over token to asked.dir asked.passphrase asked.expected asked.chosen t
            ≡ (ok response, end))
          (address_param-keeps B V D F N R H base (as_str (at "to" params)) missing_to bad_to
            checked)
          h4 in
      let ended =
        finish-IsEnded B V D F N R H base params (call_of asked.expected token to gas_limit)
          asked.dir asked.passphrase asked.expected asked.chosen checked end response h5 in
      let prepared = ended.sent_over.prepared in
      record {
        asked = asked;
        token_address = token;
        token_given =
            address_param-IsGivenAddress B V D F N R H base (as_str (at "token_address" params))
              missing_token bad_token checked token e1;
        to_address = to;
        to_given =
            address_param-IsGivenAddress B V D F N R H base (as_str (at "to" params)) missing_to
              bad_to checked to e2;
        ended = ended;
        is_call =
            built-IsTransferCall asked.expected token to gas_limit ended.value prepared.nonce
              prepared.fees.value ended.sent_over.tx prepared.built;
      }
