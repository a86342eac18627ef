-- ===== src/Wallet/Stored.antt =====
-- What the shares of a wallet open to after they were stored.
use fortresswallet.Base.{
  ℕ, ◌≡◌, ◌≢◌, refl, sym, ap, ◌∙◌, subst, Option, none, some, List, [], ◌∷◌, All, length, ◌==◌, ok,
  map_err, map_err-ok, Result-cases, done, failed, panics, true, false, arith,
}
use fortresswallet.Base.Action.{pure, ◌>>=◌, bind-eq-ok}
use fortresswallet.Crypto.{Backend, PublicKey, to_sec1_bytes}
use fortresswallet.Crypto.Shamir.{Share}
use fortresswallet.Storage.{Vault, salt_len, nonce_len, seal_share, open_share}
use fortresswallet.Storage.Files.{Disk, save_share_to_file, load_share_from_file}
use fortresswallet.Storage.Sealed.{VaultLaws, open_share-seal_share, seal_share-strong}
use fortresswallet.Storage.Files.Laws.{DiskLaws}
use fortresswallet.Storage.Saved.{load-save_share}
use fortresswallet.Wallet.Shares.{IsOther}
use fortresswallet.Wallet.{
  Call, Folders, storage, io, pubkey_file_name, share_file_name, push, store_share, store_shares,
  write_public_key, load_external_share, load_external_shares, load_public_key,
}

-- Directories as `std::fs` documents them: what was written is read, other files stay, and the
-- names of the share files and of the public key are of different files.
pub record FolderLaws (D : Disk) (F : Folders D) : Type 0 where
  pub write-done :
      (path : D.FilePath) (bytes : List ℕ) (s : D.State)
      → (F.write path bytes s).0 ≡ ok tt
      → D.read path (F.write path bytes s).1 ≡ ok bytes
  pub write-keeps :
      (path : D.FilePath) (bytes : List ℕ) (s : D.State) (p : D.FilePath)
      → p ≢ path
      → D.read p (F.write path bytes s).1 ≡ D.read p s
  pub apart :
      (dir : D.FilePath) (index : ℕ)
      → F.join dir (share_file_name index) ≢ F.join dir pubkey_file_name

-- The random bytes have the lengths of a salt and a nonce.
pub record SealLengths (salts nonces : ℕ → List ℕ) : Type 0 where
  pub salt_lengths : (index : ℕ) → length (salts index) ≡ salt_len
  pub nonce_lengths : (index : ℕ) → length (nonces index) ≡ nonce_len

module _ (B : Backend) (V : Vault) (D : Disk) (F : Folders D) (folders : FolderLaws D F) where
  -- The stored key is read back.
  pub write_public_key-loads :
      (dir : D.FilePath) (group_key : PublicKey B) (s : D.State) (u : Unit {0})
      → B.from_sec1 (B.to_sec1 group_key) ≡ some group_key
      → (write_public_key B V D F dir group_key s).0 ≡ ok u
      → load_public_key B V D F dir (write_public_key B V D F dir group_key s).1 ≡ ok group_key
  unfolding load_public_key
  write_public_key-loads dir group_key s u again h =
      rw (folders.write-done _ _ s (map_err-ok io _ u h), again) refl

module _ (B : Backend) (V : Vault) (vault : VaultLaws V) (D : Disk) (F : Folders D)
    (salts nonces : ℕ → List ℕ) (lengths : SealLengths salts nonces) where
  sealed_opens :
      (passphrase blob : List ℕ) (share : Share)
      → length share.value ≡ 32
      → seal_share V {IoError = D.IoError} (salts share.index) (nonces share.index) passphrase share
        ≡ ok blob
      → load_external_share B V D F passphrase blob ≡ ok share
  sealed_opens passphrase blob share width sealed =
      let strong = seal_share-strong V {IoError = D.IoError} _ _ passphrase blob share sealed in
      let (blob', sealed', opened) =
        open_share-seal_share V {IoError = D.IoError} vault _ _ passphrase share
          (lengths.salt_lengths share.index) (lengths.nonce_lengths share.index) strong width in
      let same : blob' ≡ blob = ground (arith, sealed, sealed') in
      ap (map_err storage)
        (subst (λ b. open_share V {IoError = D.IoError} passphrase b ≡ ok share) same opened)

  -- A share other than the first is sealed, without a change to any file.
  store_share-other :
      (dir : D.FilePath) (passphrase : List ℕ) (share : Share) (s : D.State)
      (external : Option (List ℕ))
      → share.index ≢ 1
      → (store_share B V D F salts nonces dir passphrase share s).0 ≡ ok external
      → ((store_share B V D F salts nonces dir passphrase share s).1 ≡ s)
        × (blob : List ℕ) × (external ≡ some blob)
        × (seal_share V {IoError = D.IoError}
              (salts share.index)
              (nonces share.index)
              passphrase
              share
            ≡ ok blob)
  store_share-other dir passphrase share s external other h =
      let no : (share.index == 1) ≡ false = ground (arith, other) in
      elim (Result-cases (
        seal_share V {IoError = D.IoError} (salts share.index) (nonces share.index) passphrase
          share)) [
            | done blob e ↦ (rw (no, e) refl, blob, ground (arith, no, e, h), e)
            | failed x e ↦ absurd (ground (arith, no, e, h))
            | panics e ↦ absurd (ground (arith, no, e, h))
          ]

  -- The shares other than the first touch no file and open to themselves.
  store_shares-others :
      (dir : D.FilePath) (passphrase : List ℕ) (shares : List Share) (s end : D.State)
      (externals : List (List ℕ))
      → All IsOther shares
      → store_shares B V D F salts nonces dir passphrase shares s ≡ (ok externals, end)
      → (end ≡ s) × (load_external_shares B V D F passphrase externals ≡ ok shares)
  unfolding store_shares load_external_shares
  store_shares-others dir passphrase [] s end externals others h =
      let none_left : externals ≡ [] = cc (ap (λ p. p.0) h) in
      (sym (ap (λ p. p.1) h), rw (none_left))
  store_shares-others dir passphrase (share ∷ shares) s end externals others h =
      let finish : Option (List ℕ) → List (List ℕ) → Call B V D F (List (List ℕ)) =
        λ external later. pure (push external later) in
      let rest : Option (List ℕ) → Call B V D F (List (List ℕ)) =
        λ external. store_shares B V D F salts nonces dir passphrase shares >>= finish external in
      let (external, stored, h1) =
        bind-eq-ok (store_share B V D F salts nonces dir passphrase share) rest s end externals h in
      let (kept, blob, is_blob, sealed) =
        store_share-other dir passphrase share s external others.0.0 stored in
      let (later, e2, h2) =
        bind-eq-ok (store_shares B V D F salts nonces dir passphrase shares) (finish external) _ end
          externals h1 in
      let after = (store_share B V D F salts nonces dir passphrase share s).1 in
      let end' = (store_shares B V D F salts nonces dir passphrase shares after).1 in
      let (same, opened) =
        store_shares-others dir passphrase shares after end' later others.1
          (ap (λ r. (r, end')) e2) in
      let all : externals ≡ blob ∷ later = cc (ap (λ p. p.0) h2, ap (λ e. push e later) is_blob) in
      let last : end' ≡ end = ap (λ p. p.1) h2 in
      (
        sym last ∙ same ∙ kept,
        rw (all, sealed_opens passphrase blob share others.0.1 sealed, opened) refl,
      )

  module _ (disk : DiskLaws D) (folders : FolderLaws D F) where
    -- The first share is in its file.
    store_share-first :
        (dir : D.FilePath) (passphrase : List ℕ) (share : Share) (s : D.State)
        (external : Option (List ℕ))
        → share.index ≡ 1
        → length share.value ≡ 32
        → (store_share B V D F salts nonces dir passphrase share s).0 ≡ ok external
        → (external ≡ none)
          × (load_share_from_file D V
                (F.join dir (share_file_name share.index))
                passphrase
                (store_share B V D F salts nonces dir passphrase share s).1
              ≡ ok share)
    store_share-first dir passphrase share s external first width h =
        let yes : (share.index == 1) ≡ true = ground (arith, first) in
        let path = F.join dir (share_file_name share.index) in
        let kept =
          load-save_share D disk V vault (salts share.index) (nonces share.index) path passphrase
            share s (lengths.salt_lengths share.index) (lengths.nonce_lengths share.index) width in
        elim (Result-cases
          (save_share_to_file D V (salts share.index) (nonces share.index) path passphrase share
            s).0) [
              | done u e ↦
                  let after : (save_share_to_file D V (salts share.index) (nonces share.index) path
                        passphrase share s).1
                      ≡ (store_share B V D F salts nonces dir passphrase share s).1 =
                    ground (arith, yes, e) in
                  (
                    ground (arith, yes, e, h),
                    subst (λ t. load_share_from_file D V path passphrase t ≡ ok share) after
                        (kept.loads e),
                  )
              | failed x e ↦ absurd (ground (arith, yes, e, h))
              | panics e ↦ absurd (ground (arith, yes, e, h))
            ]

    pub store_shares-split :
        (dir : D.FilePath) (passphrase : List ℕ) (first : Share) (others : List Share)
        (s end : D.State) (externals : List (List ℕ))
        → first.index ≡ 1
        → length first.value ≡ 32
        → All IsOther others
        → store_shares B V D F salts nonces dir passphrase (first ∷ others) s ≡ (ok externals, end)
        → (load_share_from_file D V (F.join dir (share_file_name first.index)) passphrase end
            ≡ ok first)
          × (load_external_shares B V D F passphrase externals ≡ ok others)
    unfolding store_shares
    store_shares-split dir passphrase first others s end externals one width rest h =
        let finish : Option (List ℕ) → List (List ℕ) → Call B V D F (List (List ℕ)) =
          λ external later. pure (push external later) in
        let next : Option (List ℕ) → Call B V D F (List (List ℕ)) =
          λ external. store_shares B V D F salts nonces dir passphrase others >>= finish external in
        let (external, stored, h1) =
          bind-eq-ok (store_share B V D F salts nonces dir passphrase first) next s end externals
            h in
        let (nothing, loads) = store_share-first dir passphrase first s external one width stored in
        let after = (store_share B V D F salts nonces dir passphrase first s).1 in
        let (later, e2, h2) =
          bind-eq-ok (store_shares B V D F salts nonces dir passphrase others) (finish external) _
            end externals h1 in
        let end' = (store_shares B V D F salts nonces dir passphrase others after).1 in
        let (same, opened) =
          store_shares-others dir passphrase others after end' later rest
            (ap (λ r. (r, end')) e2) in
        let all : externals ≡ later = cc (ap (λ p. p.0) h2, ap (λ e. push e later) nothing) in
        let last : after ≡ end = sym same ∙ ap (λ p. p.1) h2 in
        (
          subst
              (λ t.
                load_share_from_file D V (F.join dir (share_file_name first.index)) passphrase t
                ≡ ok first)
              last loads,
          rw (all) opened,
        )

    pub write_public_key-keeps :
        (dir : D.FilePath) (passphrase : List ℕ) (group_key : PublicKey B) (share : Share)
        (s : D.State)
        → load_share_from_file D V (F.join dir (share_file_name share.index)) passphrase s
          ≡ ok share
        → load_share_from_file D V
            (F.join dir (share_file_name share.index))
            passphrase
            (write_public_key B V D F dir group_key s).1
          ≡ ok share
    unfolding load_share_from_file
    write_public_key-keeps dir passphrase group_key share s h =
        rw
          (folders.write-keeps (F.join dir pubkey_file_name) (to_sec1_bytes B group_key) s _
            (folders.apart dir share.index))
          h
