-- ===== src/Cli/Agreed.antt =====
-- What the endpoints agreed on before a transaction was built.
use fortresswallet.Base.{ℕ, ◌≤◌, ◌≡◌, ap, subst, List, ◌==◌, ok, map_err, map_err-ok, arith}
use fortresswallet.Base.Action.{map_action, lift, ◌>>=◌, bind-eq-ok}
use fortresswallet.Crypto.{Backend}
use fortresswallet.Storage.{Vault}
use fortresswallet.Storage.Files.{Disk}
use fortresswallet.Decoder.Evm.{Rlp, UnsignedEip1559Tx}
use fortresswallet.Wallet.{Folders}
use fortresswallet.Rpc.{Endpoint, Untrusted, trusted, corroborated}
use fortresswallet.Rpc.Agreed.{IsAgreed, trusted-ok, corroborated-IsAgreed, expected-IsAgreed}
use fortresswallet.Rpc.Client.{Net, FeeSuggestion, chain_id, transaction_count, fee_suggestion}
use fortresswallet.Evm.{build_unsigned_transfer, max_fee_per_gas_ceiling}
use fortresswallet.Cli.{
  Terminal, Command, rpc_error, cross_check_error, build_error, wrong_chain, verify_chain_id,
}
use fortresswallet.Cli.Send.{prepare}

built-tx :
    (chain : ℕ) (to_address : List ℕ) (value nonce fee priority gas_limit : ℕ)
    (tx : UnsignedEip1559Tx)
    → build_unsigned_transfer chain to_address value nonce fee priority gas_limit ≡ ok tx
    → (nonce ≡ tx.nonce) × (tx.max_fee_per_gas ≤ max_fee_per_gas_ceiling)
unfolding build_unsigned_transfer
built-tx chain to_address value nonce fee priority gas_limit tx h = ground arith

module _ (B : Backend) (V : Vault) (D : Disk) (F : Folders D) (N : Net D.State)
    (T : Terminal D.State) where
  open D use {State, FilePath}

  pub verify_chain_id-IsAgreed :
      (primary : Endpoint) (rest : List Endpoint) (chain : ℕ) (s end : State) (u : Unit {0})
      → verify_chain_id B V D F N T primary rest chain s ≡ (ok u, end)
      → IsAgreed (chain_id N) (λ a b. a == b) primary rest s chain end
  unfolding verify_chain_id
  verify_chain_id-IsAgreed primary rest chain s end u h =
      expected-IsAgreed rpc_error cross_check_error (wrong_chain chain) (chain_id N) primary rest
        chain s end u h

  -- A transaction on the chain and with the nonce that all endpoints agree on, its fee within the
  -- ceiling.
  pub record IsPrepared (chain : ℕ) (to_address : List ℕ) (value gas_limit : ℕ)
      (our_address : List ℕ) (primary : Endpoint) (rest : List Endpoint) (s : State)
      (tx : UnsignedEip1559Tx) : Type 0 where
    pub on_chain : State
    pub with_nonce : State
    pub chain_agreed : IsAgreed (chain_id N) (λ a b. a == b) primary rest s chain on_chain
    pub nonce_agreed :
        IsAgreed
          (λ e. transaction_count N e our_address)
          (λ a b. a == b)
          primary
          rest
          on_chain
          tx.nonce
          with_nonce
    pub fees : Untrusted FeeSuggestion
    pub suggested : (fee_suggestion N primary with_nonce).0 ≡ ok fees
    pub built :
        build_unsigned_transfer chain to_address value tx.nonce fees.value.max_fee_per_gas
          fees.value.max_priority_fee_per_gas gas_limit
        ≡ ok tx
    pub capped : tx.max_fee_per_gas ≤ max_fee_per_gas_ceiling

  module _ (R : Rlp) where
    pub prepare-IsPrepared :
        (chain : ℕ) (to_address : List ℕ) (value gas_limit : ℕ) (our_address : List ℕ)
        (primary : Endpoint) (rest : List Endpoint) (s end : State) (tx : UnsignedEip1559Tx)
        → prepare B V D F N T R chain to_address value gas_limit our_address primary rest s
          ≡ (ok tx, end)
        → IsPrepared chain to_address value gas_limit our_address primary rest s tx
    unfolding prepare
    prepare-IsPrepared chain to_address value gas_limit our_address primary rest s end tx h =
        let counted = λ (e : Endpoint). transaction_count N e our_address in
        let k3 : ℕ → FeeSuggestion → Command B V D F N T UnsignedEip1559Tx = λ nonce fees. lift (
          map_err build_error (
            build_unsigned_transfer chain to_address value nonce fees.max_fee_per_gas
              fees.max_priority_fee_per_gas gas_limit)) in
        let suggest = map_action rpc_error (trusted (fee_suggestion N primary)) in
        let k2 : ℕ → Command B V D F N T UnsignedEip1559Tx = λ nonce. suggest >>= k3 nonce in
        let count = corroborated rpc_error cross_check_error (λ a b. a == b) counted primary rest in
        let k1 : Unit {0} → Command B V D F N T UnsignedEip1559Tx = λ u. count >>= k2 in
        let check = verify_chain_id B V D F N T primary rest chain in
        let (u, e1, h1) = bind-eq-ok check k1 s end tx h in
        let s1 = (check s).1 in
        let (nonce, e2, h2) = bind-eq-ok count k2 s1 end tx h1 in
        let s2 = (count s1).1 in
        let (fee, e3, h3) = bind-eq-ok suggest (k3 nonce) s2 end tx h2 in
        let (fees, asked, is_fee, _) =
          trusted-ok (fee_suggestion N primary) s2 fee (map_err-ok rpc_error _ fee e3) in
        let built = map_err-ok build_error _ tx (ap (λ p. p.0) h3) in
        let (same, capped) = built-tx chain to_address value nonce _ _ gas_limit tx built in
        record {
          on_chain = s1;
          with_nonce = s2;
          chain_agreed = verify_chain_id-IsAgreed primary rest chain s s1 u (ap (λ r. (r, s1)) e1);
          nonce_agreed =
              subst (λ n. IsAgreed counted (λ a b. a == b) primary rest s1 n s2) same
                (corroborated-IsAgreed rpc_error cross_check_error (λ a b. a == b) counted primary
                  rest s1 s2 nonce (ap (λ r. (r, s2)) e2));
          fees = fees;
          suggested = asked;
          built =
              subst
                (λ (f : FeeSuggestion).
                  build_unsigned_transfer chain to_address value tx.nonce f.max_fee_per_gas
                    f.max_priority_fee_per_gas gas_limit
                  ≡ ok tx)
                is_fee
                (subst
                  (λ n.
                    build_unsigned_transfer chain to_address value n fee.max_fee_per_gas
                      fee.max_priority_fee_per_gas gas_limit
                    ≡ ok tx)
                  same built);
          capped = capped;
        }
