-- ===== src/Storage.antt =====
-- crates/wallet-storage/src/lib.rs: keys and shares sealed under a passphrase, as
-- `version(1) || salt(16) || nonce(24) || ciphertext`. A passphrase is the list of its bytes of
-- UTF-8.
-- The salt and the nonce that `SecureRng` fills are arguments.
pub mod Sealed
pub mod Files
pub mod Filling
pub mod Atomic
pub mod Saved
use fortresswallet.Base.{
  ℕ, suc, ◌+◌, not, if◌then◌else◌, Option, List, [], ◌∷◌, ◌++◌, length, take, drop, ltb, ◌==◌,
  Result, ok, err, panic, ◌>>=◌, ◌>>◌, fail_if, map_err, ok_or,
}
use fortresswallet.Hex.{is_continuation}
use fortresswallet.Crypto.{Backend, PrivateKey, to_bytes_dangerous, from_bytes_dangerous}
use fortresswallet.Crypto.Shamir.{Share}

-- What `argon2` and `chacha20poly1305` give. Argon2id with the fixed parameters and the encryption
-- of a short plaintext do not fail; `decrypt` is `none` where the tag does not match.
pub record Vault : Type 0 where
  pub hash_password : List ℕ → List ℕ → List ℕ
  pub encrypt : List ℕ → List ℕ → List ℕ → List ℕ
  pub decrypt : List ℕ → List ℕ → List ℕ → Option (List ℕ)

abbrev pub salt_len : ℕ
salt_len = 16

abbrev pub nonce_len : ℕ
nonce_len = 24

-- index(1) + threshold(1) + value(32)
abbrev pub share_plaintext_len : ℕ
share_plaintext_len = 2 + 32

abbrev pub format_version : ℕ
format_version = 1

abbrev pub min_passphrase_len : ℕ
min_passphrase_len = 12

-- `IoError` is the file system's error.
pub data StorageError (IoError : Type 0) : Type 0 where
  decryption_failed truncated invalid_key_bytes weak_passphrase : StorageError IoError
  unsupported_version : ℕ → StorageError IoError
  io : IoError → StorageError IoError

-- `chars().count()` on the bytes of UTF-8: every character has one byte that is no continuation.
unfoldable pub char_count : List ℕ → ℕ
unfolding is_continuation
char_count [] = 0
char_count (b ∷ text) = let rest = char_count text in if is_continuation b then rest else suc rest

unfoldable pub check_passphrase_strength :
    {IoError : Type 0} → List ℕ → Result (Unit {0}) (StorageError IoError)
unfolding char_count
check_passphrase_strength passphrase =
    fail_if (ltb (char_count passphrase) min_passphrase_len) weak_passphrase

abbrev pub derive_key : Vault → List ℕ → List ℕ → List ℕ
derive_key V passphrase salt = V.hash_password passphrase salt

-- The indexing of the plaintext, which panics out of range.
abbrev pub share_of : {IoError : Type 0} → List ℕ → Result Share (StorageError IoError)
share_of (index ∷ threshold ∷ value) =
    ok (record { index = index; threshold = threshold; value = value })
share_of (index ∷ []) = panic
share_of [] = panic

module _ (V : Vault) {IoError : Type 0} where
  unfoldable pub seal_bytes :
      List ℕ → List ℕ → List ℕ → List ℕ → Result (List ℕ) (StorageError IoError)
  unfolding check_passphrase_strength
  seal_bytes salt nonce passphrase plaintext = do
    check_passphrase_strength passphrase
    let derived = derive_key V passphrase salt
    let ciphertext = V.encrypt derived nonce plaintext
    ok (format_version ∷ (salt ++ (nonce ++ ciphertext)))

  -- The first clause is `blob.is_empty()`.
  unfoldable pub open_bytes : List ℕ → List ℕ → Result (List ℕ) (StorageError IoError)
  open_bytes passphrase [] = err truncated
  open_bytes passphrase (version ∷ rest) = do
    fail_if (not (version == format_version)) (unsupported_version version)
    fail_if (ltb (length rest) (salt_len + nonce_len)) truncated
    let salt = take salt_len rest
    let after_salt = drop salt_len rest
    let nonce = take nonce_len after_salt
    let ciphertext = drop nonce_len after_salt
    let derived = derive_key V passphrase salt
    ok_or (V.decrypt derived nonce ciphertext) decryption_failed

  unfoldable pub seal_share :
      List ℕ → List ℕ → List ℕ → Share → Result (List ℕ) (StorageError IoError)
  seal_share salt nonce passphrase share =
      seal_bytes salt nonce passphrase (share.index ∷ share.threshold ∷ share.value)

  unfoldable pub open_share : List ℕ → List ℕ → Result Share (StorageError IoError)
  open_share passphrase blob = do
    plaintext ← open_bytes passphrase blob
    fail_if (not (length plaintext == share_plaintext_len)) truncated
    share_of plaintext

module _ (B : Backend) (V : Vault) {IoError : Type 0} where
  unfoldable pub seal :
      List ℕ → List ℕ → List ℕ → PrivateKey B → Result (List ℕ) (StorageError IoError)
  unfolding seal_bytes
  seal salt nonce passphrase key = seal_bytes V salt nonce passphrase (to_bytes_dangerous B key)

  -- `open` of the source.
  unfoldable pub open_key : List ℕ → List ℕ → Result (PrivateKey B) (StorageError IoError)
  open_key passphrase blob = do
    plaintext ← open_bytes V passphrase blob
    fail_if (not (length plaintext == 32)) truncated
    map_err (λ _. invalid_key_bytes) (from_bytes_dangerous B plaintext)
