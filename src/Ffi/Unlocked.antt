-- ===== src/Ffi/Unlocked.antt =====
-- What a wallet that was unlocked has shown.
use fortresswallet.Base.{
  ℕ, ◌≡◌, ap, subst, Option, some, List, [], ◌∷◌, ok, map_err-ok, ok_or-ok, arith,
}
use fortresswallet.Base.Action.{pure, ◌>>=◌, bind-eq-ok}
use fortresswallet.Base.Json.{Json, as_str, at}
use fortresswallet.Crypto.{Backend, PublicKey}
use fortresswallet.Crypto.Shamir.{Share}
use fortresswallet.Storage.{Vault}
use fortresswallet.Storage.Files.{Disk}
use fortresswallet.Decoder.Evm.{Rlp}
use fortresswallet.Wallet.{Folders, load_public_key, load_shares}
use fortresswallet.Rpc.Client.{Net}
use fortresswallet.Ffi.{Host, missing_passphrase, wallet_error, dir_param, passphrase_param}
use fortresswallet.Ffi.Handlers.{
  Response, Handling, address_is, key_in, unlock, checksummed_address, handle_unlock_wallet,
}

module _ (B : Backend) (V : Vault) (D : Disk) (F : Folders D) (N : Net D.State) (R : Rlp)
    (H : Host D) (base : Option D.FilePath) where
  open D use {State, FilePath}

  -- In the checked directory the first share opens under the given passphrase, and the address is that
  -- of the stored public key. Nothing but the check of the directory has touched the disk.
  pub record IsUnlocked (params : Json) (s : State) (response : Response) (end : State)
      : Type 0 where
    pub dir : FilePath
    pub checked : dir_param D F H base N params s ≡ (ok dir, end)
    pub passphrase : List ℕ
    pub given : as_str (at "passphrase" params) ≡ some passphrase
    pub shares : List Share
    pub opens : load_shares B V D F dir passphrase (1 ∷ []) end ≡ ok shares
    pub public_key : PublicKey B
    pub stored : load_public_key B V D F dir end ≡ ok public_key
    pub answers : response ≡ address_is (checksummed_address B V D F N R H base public_key)

  -- A wallet is unlocked only if the directory passed the check of the sandbox and its first share
  -- opens under the given passphrase; the answer is then the address of the stored public key.
  pub handle_unlock_wallet-IsUnlocked :
      (params : Json) (s end : State) (response : Response)
      → handle_unlock_wallet B V D F N R H base params s ≡ (ok response, end)
      → IsUnlocked params s response end
  unfolding handle_unlock_wallet
  handle_unlock_wallet-IsUnlocked params s end response h =
      let answer : PublicKey B → Handling B V D F N R H base Response =
        λ key. pure (address_is (checksummed_address B V D F N R H base key)) in
      let keyed : FilePath → List Share → Handling B V D F N R H base Response =
        λ dir shares. key_in B V D F N R H base dir >>= answer in
      let opened : FilePath → List ℕ → Handling B V D F N R H base Response =
        λ dir passphrase. unlock B V D F N R H base dir passphrase >>= keyed dir in
      let asked : FilePath → Handling B V D F N R H base Response =
        λ dir. passphrase_param D F H base N params >>= opened dir in
      let (dir, e1, h1) = bind-eq-ok (dir_param D F H base N params) asked s end response h in
      let after = (dir_param D F H base N params s).1 in
      let (passphrase, e2, h2) =
        bind-eq-ok (passphrase_param D F H base N params) (opened dir) after end response h1 in
      let (shares, e3, h3) =
        bind-eq-ok (unlock B V D F N R H base dir passphrase) (keyed dir) after end response h2 in
      let (key, e4, h4) = bind-eq-ok (key_in B V D F N R H base dir) answer after end response h3 in
      let stay : after ≡ end = ap (λ p. p.1) h4 in
      record {
        dir = dir;
        checked = λ i. (e1 i, stay i);
        passphrase = passphrase;
        given = ok_or-ok (as_str (at "passphrase" params)) missing_passphrase passphrase e2;
        shares = shares;
        opens =
            subst (λ t. load_shares B V D F dir passphrase (1 ∷ []) t ≡ ok shares) stay
              (map_err-ok wallet_error (load_shares B V D F dir passphrase (1 ∷ []) after) shares
                e3);
        public_key = key;
        stored =
            subst (λ t. load_public_key B V D F dir t ≡ ok key) stay
              (map_err-ok wallet_error (load_public_key B V D F dir after) key e4);
        answers = ground (arith, ap (λ p. p.0) h4);
      }
