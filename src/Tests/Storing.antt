-- ===== src/Tests/Storing.antt =====
-- Sealing and saving on the small vault and disk.
use fortresswallet.Base.{
  ℕ, ◌≡◌, refl, none, some, List, [], ◌∷◌, ◌++◌, replicate, length, ok, err, ◌==◌, if◌then◌else◌,
}
use fortresswallet.Base.Bytes.{from_be_bytes, to_be_bytes}
use fortresswallet.Crypto.Shamir.{Share}
use fortresswallet.Hex.{is_continuation}
use fortresswallet.Storage.{
  char_count, weak_passphrase, unsupported_version, decryption_failed, salt_len, nonce_len,
  seal_bytes, open_bytes, seal_share, open_share, check_passphrase_strength,
}
use fortresswallet.Storage.Files.{write_atomic, save_share_to_file}
use fortresswallet.Storage.Sealed.{sealed_as, KeyLaws, open_share-sealed}
use fortresswallet.Storage.Atomic.{Atomic, write_atomic-Atomic}
use fortresswallet.Storage.Saved.{SavedOrIntact, load-save_share}
use fortresswallet.Tests.Toy.{toy}
use fortresswallet.Tests.Disk.{toy_vault, toy_vault_laws, toy_disk, toy_disk_laws, Files}

abbrev share_1 : Share
share_1 = record { index = 1; threshold = 2; value = replicate 31 0 ++ (47 ∷ []) }

abbrev salt : List ℕ
salt = replicate 16 3

abbrev nonce : List ℕ
nonce = replicate 24 4

abbrev passphrase : List ℕ
passphrase = replicate 12 97

abbrev blob : List ℕ
blob = sealed_as toy_vault salt nonce passphrase (1 ∷ 2 ∷ share_1.value)

weak :
    seal_share toy_vault {IoError = Unit {0}} salt nonce (replicate 11 97) share_1
    ≡ err weak_passphrase
unfolding seal_share seal_bytes check_passphrase_strength char_count is_continuation
weak = refl

-- Twelve bytes of eleven characters.
weak_bytes :
    seal_share toy_vault {IoError = Unit {0}} salt nonce (0xc3 ∷ 0xa9 ∷ replicate 10 97) share_1
    ≡ err weak_passphrase
unfolding seal_share seal_bytes check_passphrase_strength char_count is_continuation
weak_bytes = refl

other_version :
    open_share toy_vault {IoError = Unit {0}} passphrase (2 ∷ []) ≡ err (unsupported_version 2)
unfolding open_share open_bytes
other_version = refl

opens : open_share toy_vault {IoError = Unit {0}} passphrase blob ≡ ok share_1
unfolding open_share open_bytes from_be_bytes
opens = refl

wrong_passphrase :
    open_share toy_vault {IoError = Unit {0}} (replicate 12 98) blob ≡ err decryption_failed
unfolding open_share open_bytes from_be_bytes
wrong_passphrase = refl

open_share-sealed_example :
    (s n : List ℕ) × (length s ≡ salt_len)
    × (length n ≡ nonce_len)
    × (length share_1.value ≡ 32)
    × (blob ≡ sealed_as toy_vault s n passphrase (1 ∷ 2 ∷ share_1.value))
open_share-sealed_example =
    open_share-sealed toy_vault {IoError = Unit {0}} toy_vault_laws passphrase blob share_1 opens

key_42 : KeyLaws toy 42
unfolding to_be_bytes from_be_bytes
key_42 = record { key_bytes = refl; key_again = refl }

abbrev files : Files
files p = if p == 5 then some (9 ∷ []) else none

write_atomic-Atomic_example : Atomic toy_disk 5 blob files (write_atomic toy_disk 5 blob files)
write_atomic-Atomic_example = write_atomic-Atomic toy_disk toy_disk_laws 5 blob files

load-save_share_example :
    SavedOrIntact toy_disk toy_vault 5 passphrase share_1 files
      (save_share_to_file toy_disk toy_vault salt nonce 5 passphrase share_1 files)
load-save_share_example =
    load-save_share toy_disk toy_disk_laws toy_vault toy_vault_laws salt nonce 5 passphrase share_1
      files refl refl refl
