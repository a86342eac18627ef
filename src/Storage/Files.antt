-- ===== src/Storage/Files.antt =====
-- crates/wallet-storage/src/lib.rs: the sealed files, over the file system as a parameter.
pub mod Laws
use fortresswallet.Base.{
  ℕ, Bool, Option, none, some, List, Result, ok, err, panic, map_err, if◌then◌else◌,
}
use fortresswallet.Base
use fortresswallet.Base.Action.{map_action, Action, lift, ◌>>=◌, ◌>>◌}
use fortresswallet.Crypto.{Backend, PrivateKey}
use fortresswallet.Crypto.Shamir.{Share}
use fortresswallet.Storage.{Vault, StorageError, io, seal, open_key, seal_share, open_share}

-- What `std::fs`, `std::path` and `tempfile` give. Reading leaves the state as it is.
pub record Disk : Type 1 where
  pub State : Type 0
  pub FilePath : Type 0
  pub Temp : Type 0
  pub IoError : Type 0
  pub parent : FilePath → Option FilePath
  pub is_empty : FilePath → Bool
  pub current_dir : FilePath
  pub read : FilePath → State → Result (List ℕ) IoError
  pub new_in : FilePath → Action State IoError Temp
  pub set_private : Temp → Action State IoError (Unit {0})
  pub write_all : Temp → List ℕ → Action State IoError (Unit {0})
  pub sync_all : Temp → Action State IoError (Unit {0})
  pub persist : Temp → FilePath → Action State IoError (Unit {0})
  pub remove : Temp → State → State

module _ (D : Disk) where
  open D use {State, FilePath, Temp, IoError}

  -- `path.parent().filter(non-empty).unwrap_or(".")`
  abbrev pub dir_of : FilePath → FilePath
  dir_of path = elim (D.parent path) [
    | none ↦ D.current_dir
    | some p ↦ if D.is_empty p then D.current_dir else p
  ]

  -- A temporary file that is not persisted is removed when it is dropped.
  abbrev pub dropping : {A : Type 0} → Temp → Action State IoError A → Action State IoError A
  dropping tmp m s =
      let (r, after) = m s in
      elim r [
        | ok a ↦ (ok a, after)
        | err e ↦ (err e, D.remove tmp after)
        | panic ↦ (panic, D.remove tmp after)
      ]

  abbrev pub fill_and_rename : FilePath → List ℕ → Temp → Action State IoError (Unit {0})
  fill_and_rename path blob tmp = do
    D.set_private tmp
    D.write_all tmp blob
    D.sync_all tmp
    D.persist tmp path

  unfoldable pub write_atomic : FilePath → List ℕ → Action State (StorageError IoError) (Unit {0})
  write_atomic path blob =
      map_action io (do tmp ← D.new_in (dir_of path); dropping tmp (fill_and_rename path blob tmp))

  module _ (V : Vault) where
    unfoldable pub save_share_to_file :
        List ℕ → List ℕ → FilePath → List ℕ → Share → Action State (StorageError IoError) (Unit {0})
    save_share_to_file salt nonce path passphrase share = do
      blob ← lift (seal_share V salt nonce passphrase share)
      write_atomic path blob

    unfoldable pub load_share_from_file :
        FilePath → List ℕ → State → Result Share (StorageError IoError)
    load_share_from_file path passphrase s =
        Base.◌>>=◌ (map_err io (D.read path s)) (λ blob. open_share V passphrase blob)

  module _ (B : Backend) (V : Vault) where
    unfoldable pub save_to_file :
        List ℕ
        → List ℕ
        → FilePath
        → List ℕ
        → PrivateKey B
        → Action State (StorageError IoError) (Unit {0})
    save_to_file salt nonce path passphrase key = do
      blob ← lift (seal B V salt nonce passphrase key)
      write_atomic path blob

    unfoldable pub load_from_file :
        FilePath → List ℕ → State → Result (PrivateKey B) (StorageError IoError)
    load_from_file path passphrase s =
        Base.◌>>=◌ (map_err io (D.read path s)) (λ blob. open_key B V passphrase blob)
