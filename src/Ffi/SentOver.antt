-- ===== src/Ffi/SentOver.antt =====
-- What both sending handlers have checked and broadcast.
use fortresswallet.Base.{
  ℕ, ◌≡◌, refl, sym, ap, ◌∙◌, subst, Option, List, [], ◌∷◌, ◌++◌, ◌==◌, Result, ok, err, panic,
  map_err, map_err-ok, arith,
}
use fortresswallet.Base.Action.{map_action, pure, lift, ◌>>=◌, bind-eq-ok}
use fortresswallet.Crypto.{Backend, PublicKey}
use fortresswallet.Crypto.Shamir.{Share}
use fortresswallet.Storage.{Vault}
use fortresswallet.Storage.Files.{Disk}
use fortresswallet.Decoder.Evm.{Rlp, UnsignedEip1559Tx}
use fortresswallet.Wallet.{Folders, load_public_key, load_shares, load_external_shares}
use fortresswallet.Rpc.{Endpoint, Untrusted, trusted, corroborated}
use fortresswallet.Rpc.Agreed.{IsAgreed, trusted-ok, corroborated-IsAgreed, expected-IsAgreed}
use fortresswallet.Rpc.Client.{
  Net, FeeSuggestion, chain_id, transaction_count, fee_suggestion, send_raw_transaction,
}
use fortresswallet.Evm.{EvmBuildError, address_from_public_key, sign_evm_transfer}
use fortresswallet.Ffi.{
  Host, wrong_chain, wallet_error, rpc_error, cross_check_error, build_error, ceremony_error,
}
use fortresswallet.Ffi.Handlers.{Response, sent, Handling, key_in, verify_chain}
use fortresswallet.Ffi.Sending.{
  kept_local, local_or_none, open_external, prepare_over, sign_and_broadcast, sign_and_send,
}

module _ (B : Backend) (V : Vault) (D : Disk) (F : Folders D) (N : Net D.State) (R : Rlp)
    (H : Host D) (base : Option D.FilePath) where
  open D use {State, FilePath}

  -- The chain, and then the nonce, are agreed on; the first endpoint then suggests the fees, and the
  -- transaction is made of that nonce and those fees.
  pub record IsMade (build : ℕ → FeeSuggestion → Result UnsignedEip1559Tx EvmBuildError)
      (expected : ℕ) (our_address : List ℕ) (primary : Endpoint) (rest : List Endpoint) (s : State)
      (tx : UnsignedEip1559Tx) (end : State) : Type 0 where
    pub on_chain : State
    pub with_nonce : State
    pub chain_agreed : IsAgreed (chain_id N) (λ a b. a == b) primary rest s expected on_chain
    pub nonce : ℕ
    pub nonce_agreed :
        IsAgreed
          (λ e. transaction_count N e our_address)
          (λ a b. a == b)
          primary
          rest
          on_chain
          nonce
          with_nonce
    pub fees : Untrusted FeeSuggestion
    pub suggested : (fee_suggestion N primary with_nonce).0 ≡ ok fees
    pub built : build nonce fees.value ≡ ok tx
    pub made : end ≡ (fee_suggestion N primary with_nonce).1

  prepare_over-IsMade :
      (build : ℕ → FeeSuggestion → Result UnsignedEip1559Tx EvmBuildError) (expected : ℕ)
      (our_address : List ℕ) (primary : Endpoint) (rest : List Endpoint) (s end : State)
      (tx : UnsignedEip1559Tx)
      → prepare_over B V D F N R H base build expected our_address primary rest s ≡ (ok tx, end)
      → IsMade build expected our_address primary rest s tx end
  unfolding prepare_over verify_chain
  prepare_over-IsMade build expected our_address primary rest s end tx h =
      let counted = λ (e : Endpoint). transaction_count N e our_address in
      let k3 : ℕ → FeeSuggestion → Handling B V D F N R H base UnsignedEip1559Tx =
        λ nonce fees. lift (map_err build_error (build nonce fees)) in
      let suggest = map_action rpc_error (trusted (fee_suggestion N primary)) in
      let k2 : ℕ → Handling B V D F N R H base UnsignedEip1559Tx = λ nonce. suggest >>= k3 nonce in
      let count = corroborated rpc_error cross_check_error (λ a b. a == b) counted primary rest in
      let k1 : Unit {0} → Handling B V D F N R H base UnsignedEip1559Tx = λ u. count >>= k2 in
      let check = verify_chain B V D F N R H base primary rest expected in
      let (u, e1, h1) = bind-eq-ok check k1 s end tx h in
      let s1 = (check s).1 in
      let (nonce, e2, h2) = bind-eq-ok count k2 s1 end tx h1 in
      let s2 = (count s1).1 in
      let (fees, e3, h3) = bind-eq-ok suggest (k3 nonce) s2 end tx h2 in
      let (claim, suggested, is_fees, after) =
        trusted-ok (fee_suggestion N primary) s2 fees (map_err-ok rpc_error _ fees e3) in
      record {
        on_chain = s1;
        with_nonce = s2;
        chain_agreed =
            expected-IsAgreed rpc_error cross_check_error (wrong_chain expected) (chain_id N)
              primary rest expected s s1 u (ap (λ r. (r, s1)) e1);
        nonce = nonce;
        nonce_agreed =
            corroborated-IsAgreed rpc_error cross_check_error (λ a b. a == b) counted primary rest
              s1 s2 nonce (ap (λ r. (r, s2)) e2);
        fees = claim;
        suggested = suggested;
        built =
            subst (λ f. build nonce f ≡ ok tx) is_fees
              (map_err-ok build_error (build nonce fees) tx (ap (λ p. p.0) h3));
        made = sym (ap (λ p. p.1) h3) ∙ after;
      }

  -- The signed bytes were given to the endpoint.
  pub record IsBroadcastTo (tx : UnsignedEip1559Tx) (shares : List Share) (public_key : PublicKey B)
      (primary : Endpoint) (s : State) (response : Response) (end : State) : Type 0 where
    pub raw : List ℕ
    pub signed : sign_evm_transfer B R tx shares public_key ≡ ok raw
    pub tx_hash : Untrusted (List ℕ)
    pub broadcast : (send_raw_transaction N primary raw s).0 ≡ ok tx_hash
    pub answers : response ≡ sent tx_hash.value
    pub last : end ≡ (send_raw_transaction N primary raw s).1

  sign_and_broadcast-IsBroadcastTo :
      (tx : UnsignedEip1559Tx) (shares : List Share) (key : PublicKey B) (primary : Endpoint)
      (s end : State) (response : Response)
      → sign_and_broadcast B V D F N R H base tx shares key primary s ≡ (ok response, end)
      → IsBroadcastTo tx shares key primary s response end
  unfolding sign_and_broadcast
  sign_and_broadcast-IsBroadcastTo tx shares key primary s end response h =
      let last : List ℕ → Handling B V D F N R H base Response = λ hash. pure (sent hash) in
      let transmit : List ℕ → Handling B V D F N R H base (List ℕ) =
        λ raw. map_action rpc_error (trusted (send_raw_transaction N primary raw)) in
      let next : List ℕ → Handling B V D F N R H base Response = λ raw. transmit raw >>= last in
      let (raw, e5, h5) =
        bind-eq-ok (lift (map_err ceremony_error (sign_evm_transfer B R tx shares key))) next s end
          response h in
      let (hash, e6, h6) = bind-eq-ok (transmit raw) last s end response h5 in
      let (tx_hash, broadcast, is_hash, after) =
        trusted-ok (send_raw_transaction N primary raw) s hash (map_err-ok rpc_error _ hash e6) in
      record {
        raw = raw;
        signed = map_err-ok ceremony_error (sign_evm_transfer B R tx shares key) raw e5;
        tx_hash = tx_hash;
        broadcast = broadcast;
        answers = ground (arith, ap (λ p. p.0) h6) ∙ ap sent is_hash;
        last = sym (ap (λ p. p.1) h6) ∙ after;
      }

  -- The transaction was made in agreement, signed for the stored key, and given to the first endpoint
  -- last of all, in the world that the making of it left.
  pub record IsSentOver (build : ℕ → FeeSuggestion → Result UnsignedEip1559Tx EvmBuildError)
      (dir : FilePath) (passphrase : List ℕ) (expected : ℕ) (chosen : Endpoint × List Endpoint)
      (external : List (List ℕ)) (s : State) (response : Response) (end : State) : Type 0 where
    pub public_key : PublicKey B
    pub stored : load_public_key B V D F dir s ≡ ok public_key
    pub tx : UnsignedEip1559Tx
    pub made : State
    pub prepared :
        IsMade build expected (address_from_public_key B public_key) chosen.0 chosen.1 s tx made
    pub held : List Share
    pub local : (local_or_none B V D F N R H base dir passphrase external made).0 ≡ ok held
    pub others : List Share
    pub opened : load_external_shares B V D F passphrase external ≡ ok others
    pub transmitted : IsBroadcastTo tx (held ++ others) public_key chosen.0 made response end

  local_or_none-keeps :
      (dir : FilePath) (passphrase : List ℕ) (external : List (List ℕ)) (s : State)
      → (local_or_none B V D F N R H base dir passphrase external s).1 ≡ s
  local_or_none-keeps dir passphrase external s =
      elim (load_shares B V D F dir passphrase (1 ∷ []) s)
        as (λ r. (kept_local B V D F N R H base external r s).1 ≡ s) [
          | ok shares ↦ refl
          | err e ↦ refl
          | panic ↦ refl
        ]

  pub sign_and_send-IsSentOver :
      (build : ℕ → FeeSuggestion → Result UnsignedEip1559Tx EvmBuildError) (dir : FilePath)
      (passphrase : List ℕ) (expected : ℕ) (chosen : Endpoint × List Endpoint)
      (external : List (List ℕ)) (s end : State) (response : Response)
      → sign_and_send B V D F N R H base build dir passphrase expected chosen external s
        ≡ (ok response, end)
      → IsSentOver build dir passphrase expected chosen external s response end
  unfolding sign_and_send
  sign_and_send-IsSentOver build dir passphrase expected (primary, rest) external s end response h =
      let k4 : PublicKey B
          → UnsignedEip1559Tx
          → List Share
          → List Share
          → Handling B V D F N R H base Response =
        λ key tx held others.
          sign_and_broadcast B V D F N R H base tx (held ++ others) key primary in
      let k3 : PublicKey B → UnsignedEip1559Tx → List Share → Handling B V D F N R H base Response =
        λ key tx held. open_external B V D F N R H base passphrase external >>= k4 key tx held in
      let k2 : PublicKey B → UnsignedEip1559Tx → Handling B V D F N R H base Response =
        λ key tx. local_or_none B V D F N R H base dir passphrase external >>= k3 key tx in
      let make : PublicKey B → Handling B V D F N R H base UnsignedEip1559Tx = λ key.
        prepare_over B V D F N R H base build expected (address_from_public_key B key) primary
          rest in
      let k1 : PublicKey B → Handling B V D F N R H base Response = λ key. make key >>= k2 key in
      let (key, e1, h1) = bind-eq-ok (key_in B V D F N R H base dir) k1 s end response h in
      let (tx, e2, h2) = bind-eq-ok (make key) (k2 key) s end response h1 in
      let s1 = (make key s).1 in
      let (held, e3, h3) =
        bind-eq-ok (local_or_none B V D F N R H base dir passphrase external) (k3 key tx) s1 end
          response h2 in
      let s2 = (local_or_none B V D F N R H base dir passphrase external s1).1 in
      let (others, e4, h4) =
        bind-eq-ok (open_external B V D F N R H base passphrase external) (k4 key tx held) s2 end
          response h3 in
      record {
        public_key = key;
        stored = map_err-ok wallet_error (load_public_key B V D F dir s) key e1;
        tx = tx;
        made = s1;
        prepared =
            prepare_over-IsMade build expected (address_from_public_key B key) primary rest s s1 tx
              (ap (λ r. (r, s1)) e2);
        held = held;
        local = e3;
        others = others;
        opened =
            map_err-ok wallet_error (load_external_shares B V D F passphrase external) others e4;
        transmitted =
            sign_and_broadcast-IsBroadcastTo tx (held ++ others) key primary s1 end response (
              subst (λ t. k4 key tx held others t ≡ (ok response, end))
                (local_or_none-keeps dir passphrase external s1) h4);
      }
