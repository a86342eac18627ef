-- ===== src/Cli/Sent.antt =====
-- What a command that sent a transaction has checked and broadcast.
use fortresswallet.Base.{
  ℕ, ◌≡◌, refl, sym, ap, ap₂, ◌∙◌, subst, List, [], ◌∷◌, ok, map_err, map_err-ok, arith,
}
use fortresswallet.Base.Action.{map_action, lift, ◌>>=◌, bind-eq-ok}
use fortresswallet.Hex.{parse_address}
use fortresswallet.Crypto.{Backend, PublicKey}
use fortresswallet.Crypto.Shamir.{Share}
use fortresswallet.Storage.{Vault}
use fortresswallet.Storage.Files.{Disk}
use fortresswallet.Decoder.Evm.{Rlp, UnsignedEip1559Tx}
use fortresswallet.Wallet.{Folders, load_public_key}
use fortresswallet.Rpc.{Endpoint, Untrusted, trusted}
use fortresswallet.Rpc.Client.{Net, send_raw_transaction}
use fortresswallet.Evm.{address_from_public_key, sign_evm_transfer}
use fortresswallet.Cli.{
  Terminal, broadcast, wallet_error, rpc_error, hex_error, signing_failed, endpoints, println,
  stored_key, split_first,
}
use fortresswallet.Cli.Send.{Sending, gather_shares, prepare, send_over, cmd_send}
use fortresswallet.Cli.Agreed.{IsPrepared, prepare-IsPrepared}
use fortresswallet.Rpc.Agreed.{trusted-ok}

module _ (B : Backend) (V : Vault) (D : Disk) (F : Folders D) (N : Net D.State)
    (T : Terminal D.State) (R : Rlp) where
  open D use {State, FilePath}

  -- What was sent: a transaction that was prepared on the agreement of all endpoints, signed with the
  -- gathered shares for the stored key, and given to the first endpoint last of all.
  pub record IsSent (dir : FilePath) (chain : ℕ) (to : List ℕ) (value : ℕ)
      (rpc_urls : List (List ℕ)) (share_indices : List ℕ) (gas_limit : ℕ) (s end : State)
      : Type 0 where
    pub to_address : List ℕ
    pub parsed : parse_address to ≡ ok to_address
    pub public_key : PublicKey B
    pub stored : load_public_key B V D F dir s ≡ ok public_key
    pub primary : Endpoint
    pub rest : List Endpoint
    pub asked : endpoints rpc_urls ≡ primary ∷ rest
    pub tx : UnsignedEip1559Tx
    pub prepared :
        IsPrepared B V D F N T chain to_address value gas_limit
          (address_from_public_key B public_key)
          primary
          rest
          s
          tx
    pub gathered_in : State
    pub prepared_in :
        (prepare B V D F N T R chain to_address value gas_limit
          (address_from_public_key B public_key)
          primary
          rest
          s).1
        ≡ gathered_in
    pub shares : List Share
    pub ready : State
    pub gathered : gather_shares B V D F N T R dir share_indices gathered_in ≡ (ok shares, ready)
    pub raw : List ℕ
    pub signed : sign_evm_transfer B R tx shares public_key ≡ ok raw
    pub tx_hash : Untrusted (List ℕ)
    pub broadcast_ok : (send_raw_transaction N primary raw ready).0 ≡ ok tx_hash
    pub printed :
        end ≡ T.print (broadcast tx_hash.value) (send_raw_transaction N primary raw ready).1

  printed_last :
      (hash value : List ℕ) (after sent end : State)
      → T.print (broadcast hash) after ≡ end
      → hash ≡ value
      → after ≡ sent
      → end ≡ T.print (broadcast value) sent
  printed_last hash value after sent end h same stay =
      sym h ∙ ap₂ (λ v t. T.print (broadcast v) t) same stay

  send_over-IsSent :
      (dir : FilePath) (chain : ℕ) (to : List ℕ) (value : ℕ) (rpc_urls : List (List ℕ))
      (share_indices : List ℕ) (gas_limit : ℕ) (s end : State) (to_address : List ℕ)
      (public_key : PublicKey B) (primary : Endpoint) (rest : List Endpoint)
      → parse_address to ≡ ok to_address
      → load_public_key B V D F dir s ≡ ok public_key
      → endpoints rpc_urls ≡ primary ∷ rest
      → send_over B V D F N T R dir chain to_address value share_indices gas_limit public_key
          (primary, rest)
          s
        ≡ (ok tt, end)
      → IsSent dir chain to value rpc_urls share_indices gas_limit s end
  unfolding send_over
  send_over-IsSent dir chain to value rpc_urls share_indices gas_limit s end to_address public_key
        primary rest parsed stored asked h =
      let last : List ℕ → Sending B V D F N T R (Unit {0}) =
        λ tx_hash. println B V D F N T (broadcast tx_hash) in
      let transmit : List ℕ → Sending B V D F N T R (List ℕ) =
        λ raw. map_action rpc_error (trusted (send_raw_transaction N primary raw)) in
      let k3 : List ℕ → Sending B V D F N T R (Unit {0}) = λ raw. transmit raw >>= last in
      let k2 : UnsignedEip1559Tx → List Share → Sending B V D F N T R (Unit {0}) = λ tx shares.
        lift (map_err signing_failed (sign_evm_transfer B R tx shares public_key)) >>= k3 in
      let gather = gather_shares B V D F N T R dir share_indices in
      let k1 : UnsignedEip1559Tx → Sending B V D F N T R (Unit {0}) = λ tx. gather >>= k2 tx in
      let make =
        prepare B V D F N T R chain to_address value gas_limit
          (address_from_public_key B public_key) primary rest in
      let (tx, e1, h1) = bind-eq-ok make k1 s end tt h in
      let s1 = (make s).1 in
      let (shares, e2, h2) = bind-eq-ok gather (k2 tx) s1 end tt h1 in
      let s2 = (gather s1).1 in
      let (raw, e3, h3) =
        bind-eq-ok (lift (map_err signing_failed (sign_evm_transfer B R tx shares public_key))) k3
          s2 end tt h2 in
      let (hash, e4, h4) = bind-eq-ok (transmit raw) last s2 end tt h3 in
      let (tx_hash, sent, is_hash, after) =
        trusted-ok (send_raw_transaction N primary raw) s2 hash (map_err-ok rpc_error _ hash e4) in
      record {
        to_address = to_address;
        parsed = parsed;
        public_key = public_key;
        stored = stored;
        primary = primary;
        rest = rest;
        asked = asked;
        tx = tx;
        prepared =
            prepare-IsPrepared B V D F N T R chain to_address value gas_limit
              (address_from_public_key B public_key) primary rest s s1 tx (ap (λ r. (r, s1)) e1);
        gathered_in = s1;
        prepared_in = refl;
        shares = shares;
        ready = s2;
        gathered = ap (λ r. (r, s2)) e2;
        raw = raw;
        signed = map_err-ok signing_failed (sign_evm_transfer B R tx shares public_key) raw e3;
        tx_hash = tx_hash;
        broadcast_ok = sent;
        printed =
            printed_last hash tx_hash.value _ (send_raw_transaction N primary raw s2).1 end
              (ap (λ p. p.1) h4) is_hash after;
      }

  split_first-parts :
      (es : List Endpoint) (s : State) (chosen : Endpoint × List Endpoint)
      → (split_first B V D F N T es s).0 ≡ ok chosen
      → (es ≡ chosen.0 ∷ chosen.1) × ((split_first B V D F N T es s).1 ≡ s)
  split_first-parts [] s chosen h = cc
  split_first-parts (primary ∷ rest) s chosen h =
      let same : (primary, rest) ≡ chosen = ground (arith, h) in (ap (λ c. c.0 ∷ c.1) same, refl)

  -- A send that succeeds has checked that every endpoint serves the requested chain and gives the
  -- same nonce for the wallet's address, has signed the transfer of the requested value to the
  -- requested address on that chain, with a fee within the ceiling, for the stored public key, and
  -- has given the signed bytes to the first endpoint.
  pub cmd_send-IsSent :
      (dir : FilePath) (chain : ℕ) (to : List ℕ) (value : ℕ) (rpc_urls : List (List ℕ))
      (share_indices : List ℕ) (gas_limit : ℕ) (s end : State)
      → cmd_send B V D F N T R dir chain to value rpc_urls share_indices gas_limit s ≡ (ok tt, end)
      → IsSent dir chain to value rpc_urls share_indices gas_limit s end
  unfolding cmd_send send_over
  cmd_send-IsSent dir chain to value rpc_urls share_indices gas_limit s end h =
      let k3 : List ℕ → PublicKey B → Endpoint × List Endpoint → Sending B V D F N T R (Unit {0}) =
        λ to_address public_key chosen.
          send_over B V D F N T R dir chain to_address value share_indices gas_limit public_key
            chosen in
      let k2 : List ℕ → PublicKey B → Sending B V D F N T R (Unit {0}) = λ to_address public_key.
        split_first B V D F N T (endpoints rpc_urls) >>= k3 to_address public_key in
      let k1 : List ℕ → Sending B V D F N T R (Unit {0}) =
        λ to_address. stored_key B V D F N T dir >>= k2 to_address in
      let (to_address, e1, h1) =
        bind-eq-ok (lift (map_err hex_error (parse_address to))) k1 s end tt h in
      let (public_key, e2, h2) =
        bind-eq-ok (stored_key B V D F N T dir) (k2 to_address) s end tt h1 in
      let (chosen, e3, h3) =
        bind-eq-ok (split_first B V D F N T (endpoints rpc_urls)) (k3 to_address public_key) s end
          tt h2 in
      let (asked, stay) = split_first-parts (endpoints rpc_urls) s chosen e3 in
      send_over-IsSent dir chain to value rpc_urls share_indices gas_limit s end to_address
        public_key chosen.0 chosen.1 (map_err-ok hex_error (parse_address to) to_address e1)
        (map_err-ok wallet_error (load_public_key B V D F dir s) public_key e2) asked
        (subst (λ t. k3 to_address public_key chosen t ≡ (ok tt, end)) stay h3)
