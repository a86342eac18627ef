-- ===== src/Storage/Saved.antt =====
-- A share saved under a path is the one that is loaded from it.
use fortresswallet.Base.{ℕ, ◌≡◌, ◌≢◌, ◌⊎◌, refl, subst, List, length, Result, ok, err, panic, arith}
use fortresswallet.Base.Action.{lift, ◌>>=◌}
use fortresswallet.Crypto.Shamir.{Share}
use fortresswallet.Storage.{Vault, StorageError, salt_len, nonce_len, seal_share, open_share}
use fortresswallet.Storage.Files.{Disk, write_atomic, save_share_to_file, load_share_from_file}
use fortresswallet.Storage.Sealed.{VaultLaws, open_share-seal_share, seal_share-strong}
use fortresswallet.Storage.Files.Laws.{DiskLaws}
use fortresswallet.Storage.Atomic.{write_atomic-Atomic}

-- The file opens to the share if the save succeeded, and otherwise nothing was changed.
pub record SavedOrIntact (D : Disk) (V : Vault) (path : D.FilePath) (passphrase : List ℕ)
    (share : Share) (before : D.State) (end : Result (Unit {0}) (StorageError D.IoError) × D.State)
    : Type 0 where
  pub loads : end.0 ≡ ok tt → load_share_from_file D V path passphrase end.1 ≡ ok share
  pub old_files :
      (p : D.FilePath) (b : List ℕ)
      → D.read p before ≡ ok b
      → (p ≢ path) ⊎ (end.0 ≢ ok tt)
      → D.read p end.1 ≡ ok b

module _ (D : Disk) (disk : DiskLaws D) (V : Vault) (vault : VaultLaws V) where
  opens :
      (salt nonce : List ℕ) (path : D.FilePath) (passphrase blob : List ℕ) (share : Share)
      (s : D.State)
      → length salt ≡ salt_len
      → length nonce ≡ nonce_len
      → length share.value ≡ 32
      → seal_share V {IoError = D.IoError} salt nonce passphrase share ≡ ok blob
      → D.read path s ≡ ok blob
      → load_share_from_file D V path passphrase s ≡ ok share
  unfolding load_share_from_file
  opens salt nonce path passphrase blob share s hs hn hv sealed there =
      let strong =
        seal_share-strong V {IoError = D.IoError} salt nonce passphrase blob share sealed in
      let (blob', sealed', opened) =
        open_share-seal_share V {IoError = D.IoError} vault salt nonce passphrase share hs hn strong
          hv in
      let same : blob' ≡ blob = ground (arith, sealed, sealed') in
      rw (there)
        (subst (λ b. open_share V {IoError = D.IoError} passphrase b ≡ ok share) same opened)

  -- Under the laws of the disk and the vault, with a salt and a nonce of their lengths and a share
  -- value of 32 bytes: if saving a share succeeds, loading it under the same passphrase gives the
  -- share back; if it fails, every file that was there is as before; and no other file that was
  -- there changes in either case.
  pub load-save_share :
      (salt nonce : List ℕ) (path : D.FilePath) (passphrase : List ℕ) (share : Share)
      (before : D.State)
      → length salt ≡ salt_len
      → length nonce ≡ nonce_len
      → length share.value ≡ 32
      → SavedOrIntact D V path passphrase share before
          (save_share_to_file D V salt nonce path passphrase share before)
  unfolding save_share_to_file
  load-save_share salt nonce path passphrase share before hs hn hv = saved _ refl
    where
      saved :
          (r : Result (List ℕ) (StorageError D.IoError))
          → seal_share V salt nonce passphrase share ≡ r
          → SavedOrIntact D V path passphrase share before ((lift r >>= write_atomic D path) before)
      saved (ok blob) sealed =
          let good = write_atomic-Atomic D disk path blob before in
          record {
            loads = λ h.
                opens salt nonce path passphrase blob share _ hs hn hv sealed (good.new_file h);
            old_files = good.old_files;
          }
      saved (err e) sealed = record { loads = λ h. cc; old_files = λ p b h why. h }
      saved panic sealed = record { loads = λ h. cc; old_files = λ p b h why. h }
