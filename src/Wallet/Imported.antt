-- ===== src/Wallet/Imported.antt =====
-- A wallet that is imported from its external shares.
use fortresswallet.Base.{
  ℕ, ◌≡◌, ◌≢◌, sym, ap, ◌∙◌, subst, List, Result, ok, err, map_err, map_err-ok, some, Result-cases,
  done, failed, panics, arith,
}
use fortresswallet.Base.Action.{map_action, pure, lift, ◌>>=◌, bind-eq-ok}
use fortresswallet.Crypto.{Backend, PrivateKey, PublicKey, public_key}
use fortresswallet.Crypto.Shamir.{Share, reconstruct_unverified}
use fortresswallet.Storage.{Vault}
use fortresswallet.Storage.Files.{Disk}
use fortresswallet.Wallet.{
  Call, Folders, WalletError, ceremony, io, write_public_key, load_external_shares, load_public_key,
  import_wallet,
}
use fortresswallet.Wallet.Stored.{FolderLaws, write_public_key-loads}

-- After a success the public key of the key that the opened shares make loads from the directory.
-- Where a share does not open, only the directory was made.
pub record ImportedOrIntact (B : Backend) (V : Vault) (D : Disk) (F : Folders D) (dir : D.FilePath)
    (passphrase : List ℕ) (sealed_shares : List (List ℕ)) (before : D.State)
    (end : Result (PublicKey B) (WalletError D.IoError) × D.State) : Type 0 where
  pub imported :
      (group_key : PublicKey B)
      → end.0 ≡ ok group_key
      → B.from_sec1 (B.to_sec1 group_key) ≡ some group_key
      → (shares : List Share) × (key : PrivateKey B) × (load_external_shares B V D F passphrase
            sealed_shares
          ≡ ok shares)
        × (reconstruct_unverified B shares ≡ ok key)
        × (group_key ≡ public_key B key)
        × (load_public_key B V D F dir end.1 ≡ ok group_key)
  pub intact :
      (e : WalletError D.IoError)
      → load_external_shares B V D F passphrase sealed_shares ≡ err e
      → ((group_key : PublicKey B) → end.0 ≢ ok group_key)
        × (end.1 ≡ (F.create_dir_all dir before).1)

module _ (B : Backend) (V : Vault) (D : Disk) (F : Folders D) (folders : FolderLaws D F) where
  stops :
      (dir : D.FilePath) (passphrase : List ℕ) (sealed_shares : List (List ℕ)) (s : D.State)
      (e : WalletError D.IoError)
      → load_external_shares B V D F passphrase sealed_shares ≡ err e
      → ((group_key : PublicKey B)
          → (import_wallet B V D F dir passphrase sealed_shares s).0 ≢ ok group_key)
        × ((import_wallet B V D F dir passphrase sealed_shares s).1 ≡ (F.create_dir_all dir s).1)
  unfolding import_wallet
  stops dir passphrase sealed_shares s e h = elim (Result-cases (F.create_dir_all dir s).0) [
    | done u made ↦ (λ k bad. ground (arith, made, h, bad), ground (arith, made, h))
    | failed x made ↦ (λ k bad. ground (arith, made, bad), ground (arith, made))
    | panics made ↦ (λ k bad. ground (arith, made, bad), ground (arith, made))
  ]

  succeeds :
      (dir : D.FilePath) (passphrase : List ℕ) (sealed_shares : List (List ℕ)) (s end : D.State)
      (group_key : PublicKey B)
      → import_wallet B V D F dir passphrase sealed_shares s ≡ (ok group_key, end)
      → B.from_sec1 (B.to_sec1 group_key) ≡ some group_key
      → (shares : List Share) × (key : PrivateKey B) × (load_external_shares B V D F passphrase
            sealed_shares
          ≡ ok shares)
        × (reconstruct_unverified B shares ≡ ok key)
        × (group_key ≡ public_key B key)
        × (load_public_key B V D F dir end ≡ ok group_key)
  unfolding import_wallet
  succeeds dir passphrase sealed_shares s end group_key h again =
      let returned : PrivateKey B → Unit {0} → Call B V D F (PublicKey B) =
        λ key u. pure (public_key B key) in
      let written : PrivateKey B → Call B V D F (PublicKey B) =
        λ key. write_public_key B V D F dir (public_key B key) >>= returned key in
      let rebuilt : List Share → Call B V D F (PublicKey B) =
        λ shares. lift (map_err ceremony (reconstruct_unverified B shares)) >>= written in
      let opened : Unit {0} → Call B V D F (PublicKey B) =
        λ u. lift (load_external_shares B V D F passphrase sealed_shares) >>= rebuilt in
      let (u, e1, h1) =
        bind-eq-ok (map_action io (F.create_dir_all dir)) opened s end group_key h in
      let (shares, e2, h2) =
        bind-eq-ok (lift (load_external_shares B V D F passphrase sealed_shares)) rebuilt _ end
          group_key h1 in
      let (key, e3, h3) =
        bind-eq-ok (lift (map_err ceremony (reconstruct_unverified B shares))) written _ end
          group_key h2 in
      let (u', e4, h4) =
        bind-eq-ok (write_public_key B V D F dir (public_key B key)) (returned key) _ end group_key
          h3 in
      let made = (F.create_dir_all dir s).1 in
      let same : public_key B key ≡ group_key = ground (arith, ap (λ p. p.0) h4) in
      let loads =
        write_public_key-loads B V D F folders dir (public_key B key) made u'
          (subst (λ k. B.from_sec1 (B.to_sec1 k) ≡ some k) (sym same) again) e4 in
      (
        shares,
        key,
        e2,
        map_err-ok ceremony (reconstruct_unverified B shares) key e3,
        sym same,
        ap (load_public_key B V D F dir) (sym (ap (λ p. p.1) h4)) ∙ loads ∙ ap ok same,
      )

  -- Under the laws of the directories: where an import succeeds, every external share opened, the
  -- returned public key is that of the key which the shares make, and, if its bytes give it back, it
  -- loads from the directory; where a share does not open under the passphrase, the import fails and
  -- nothing but the creation of the directory has happened to the disk.
  pub import_wallet-Imported :
      (dir : D.FilePath) (passphrase : List ℕ) (sealed_shares : List (List ℕ)) (s : D.State)
      → ImportedOrIntact B V D F dir passphrase sealed_shares s
          (import_wallet B V D F dir passphrase sealed_shares s)
  import_wallet-Imported dir passphrase sealed_shares s = record {
    imported = λ group_key h again.
        succeeds dir passphrase sealed_shares s
          (import_wallet B V D F dir passphrase sealed_shares s).1 group_key
          (ap (λ r. (r, (import_wallet B V D F dir passphrase sealed_shares s).1)) h) again;
    intact = λ e h. stops dir passphrase sealed_shares s e h;
  }
