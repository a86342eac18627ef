-- ===== src/Wallet.antt =====
-- crates/wallet-core/src/wallet.rs: wallets under a directory, over the file system as a parameter.
-- What `SecureRng` gives is an argument: the key, the coefficients of the split, and for each share
-- index the salt and the nonce of its seal.
pub mod Stored
pub mod Created
pub mod Imported
pub mod Shares
pub mod Opened
pub mod Quorum
use fortresswallet.Base.{
  ℕ, ◌+◌, ◌/◌, ◌%◌, zero, suc, Option, none, some, List, [], ◌∷◌, ◌++◌, ltb, ◌==◌, if◌then◌else◌,
  Result, ok, map_err,
}
use fortresswallet.Base
use fortresswallet.Base.Action.{map_action, Action, pure, lift, ◌>>=◌, ◌>>◌}
use fortresswallet.Base.Json.{codes}
use fortresswallet.Crypto.{
  Backend, PrivateKey, PublicKey, public_key, to_sec1_bytes, from_sec1_bytes,
}
use fortresswallet.Crypto.Shamir.{Share, ShamirError, reconstruct_unverified}
use fortresswallet.Ceremony.{generate_and_split_key}
use fortresswallet.Storage.{Vault, StorageError, seal_share, open_share}
use fortresswallet.Storage.Files.{Disk, save_share_to_file, load_share_from_file}

-- What `Path::join`, `create_dir_all` and `fs::write` give beside the rest of the disk.
pub record Folders (D : Disk) : Type 0 where
  pub join : D.FilePath → List ℕ → D.FilePath
  pub create_dir_all : D.FilePath → Action D.State D.IoError (Unit {0})
  pub write : D.FilePath → List ℕ → Action D.State D.IoError (Unit {0})

abbrev pub pubkey_file_name : List ℕ
pubkey_file_name = codes "pubkey"

-- The decimal digits of a number of at most `fuel` digits.
unfoldable pub decimal : ℕ → ℕ → List ℕ
decimal zero v = []
decimal (suc fuel) v =
    let leading = decimal fuel (v / 10) in
    if ltb v 10 then (b'0' + v) ∷ [] else leading ++ ((b'0' + v % 10) ∷ [])

-- An index is a `u8`, of at most three digits.
unfoldable pub share_file_name : ℕ → List ℕ
unfolding decimal
share_file_name index = codes "share_" ++ (decimal 3 index ++ codes ".dat")

pub data WalletError (IoError : Type 0) : Type 0 where
  ceremony : ShamirError → WalletError IoError
  storage : StorageError IoError → WalletError IoError
  io : IoError → WalletError IoError
  invalid_public_key : WalletError IoError

-- `external_shares.push`, where there is a share to push in front of the later ones.
abbrev pub push : Option (List ℕ) → List (List ℕ) → List (List ℕ)
push none later = later
push (some sealed) later = sealed ∷ later

module _ (B : Backend) (V : Vault) (D : Disk) (F : Folders D) where
  open B use {Scalar}
  open D use {State, FilePath, IoError}

  abbrev pub Call : Type 0 → Type 0
  Call A = Action State (WalletError IoError) A

  -- `fs::write(dir.join(PUBKEY_FILE_NAME), key.to_sec1_bytes())?`
  abbrev pub write_public_key : FilePath → PublicKey B → Call (Unit {0})
  write_public_key dir key =
      map_action io (F.write (F.join dir pubkey_file_name) (to_sec1_bytes B key))

  -- The end of `create_wallet`.
  abbrev pub write_and_return :
      FilePath → PublicKey B → List (List ℕ) → Call (PublicKey B × List (List ℕ))
  write_and_return dir group_key external_shares = do
    write_public_key dir group_key
    pure (group_key, external_shares)

  module _ (salts nonces : ℕ → List ℕ) where
    -- The body of the loop: share 1 is saved, any other is sealed for its holder.
    abbrev pub store_share : FilePath → List ℕ → Share → Call (Option (List ℕ))
    store_share dir passphrase share =
        let salt = salts share.index in
        let nonce = nonces share.index in
        if share.index == 1
        then (do
          map_action storage (
              save_share_to_file D V salt nonce (F.join dir (share_file_name share.index))
                passphrase share)
          pure none)
        else (do
          sealed ← lift (map_err storage (seal_share V salt nonce passphrase share))
          pure (some sealed))

    unfoldable pub store_shares : FilePath → List ℕ → List Share → Call (List (List ℕ))
    store_shares dir passphrase [] = pure []
    store_shares dir passphrase (share ∷ shares) = do
      external ← store_share dir passphrase share
      later ← store_shares dir passphrase shares
      pure (push external later)

    unfoldable pub create_wallet :
        PrivateKey B → (ℕ → Scalar) → FilePath → List ℕ → ℕ → ℕ → Call (PublicKey B × List (List ℕ))
    unfolding store_shares
    create_wallet key draw dir passphrase threshold n = do
      map_action io (F.create_dir_all dir)
      (group_key, shares) ← lift (map_err ceremony (generate_and_split_key B key draw threshold n))
      external_shares ← store_shares dir passphrase shares
      write_and_return dir group_key external_shares

  abbrev pub load_external_share : List ℕ → List ℕ → Result Share (WalletError IoError)
  load_external_share passphrase ciphertext = map_err storage (open_share V passphrase ciphertext)

  unfoldable pub load_public_key : FilePath → State → Result (PublicKey B) (WalletError IoError)
  load_public_key dir s =
      Base.◌>>=◌ (map_err io (D.read (F.join dir pubkey_file_name) s))
        (λ bytes. map_err (λ _. invalid_public_key) (from_sec1_bytes B bytes))

  -- `.map(…).collect::<Result<_, _>>()`
  unfoldable pub load_external_shares :
      List ℕ → List (List ℕ) → Result (List Share) (WalletError IoError)
  load_external_shares passphrase [] = ok []
  load_external_shares passphrase (sealed ∷ sealed_shares) =
      Base.◌>>=◌ (load_external_share passphrase sealed) (λ share.
        Base.◌>>=◌ (load_external_shares passphrase sealed_shares) (λ shares. ok (share ∷ shares)))

  unfoldable pub import_wallet : FilePath → List ℕ → List (List ℕ) → Call (PublicKey B)
  unfolding load_external_shares
  import_wallet dir passphrase sealed_shares = do
    map_action io (F.create_dir_all dir)
    shares ← lift (load_external_shares passphrase sealed_shares)
    private_key ← lift (map_err ceremony (reconstruct_unverified B shares))
    write_public_key dir (public_key B private_key)
    pure (public_key B private_key)

  unfoldable pub load_shares :
      FilePath → List ℕ → List ℕ → State → Result (List Share) (WalletError IoError)
  load_shares dir passphrase [] s = ok []
  load_shares dir passphrase (i ∷ indices) s =
      Base.◌>>=◌
        (map_err storage (load_share_from_file D V (F.join dir (share_file_name i)) passphrase s))
        (λ share. Base.◌>>=◌ (load_shares dir passphrase indices s) (λ shares. ok (share ∷ shares)))
