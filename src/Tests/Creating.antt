-- ===== src/Tests/Creating.antt =====
-- Wallets on the small disk.
use fortresswallet.Base.{
  ℕ, ◌≡◌, ◌≢◌, refl, ap, none, some, List, [], ◌∷◌, replicate, Result, ok, arith,
}
use fortresswallet.Base.Bytes.{from_be_bytes, to_be_bytes, length-to_be_bytes}
use fortresswallet.Crypto.Shamir.{split, draws, eval_loop, shares_from, share_at}
use fortresswallet.Ceremony.{generate_and_split_key}
use fortresswallet.Hex.{is_continuation}
use fortresswallet.Storage.{char_count, seal_bytes, seal_share, check_passphrase_strength}
use fortresswallet.Storage.Sealed.{sealed_as}
use fortresswallet.Storage.Files.{write_atomic, save_share_to_file}
use fortresswallet.Wallet.{
  Folders, WalletError, decimal, share_file_name, pubkey_file_name, store_shares, create_wallet,
  import_wallet,
}
use fortresswallet.Wallet.Stored.{FolderLaws, SealLengths}
use fortresswallet.Wallet.Created.{Created, create_wallet-Created}
use fortresswallet.Wallet.Imported.{ImportedOrIntact, import_wallet-Imported}
use fortresswallet.Tests.Toy.{toy}
use fortresswallet.Tests.Disk.{
  toy_vault, toy_vault_laws, toy_disk, toy_disk_laws, Files, update, read, update-same,
  update-other,
}

-- A file's number is the first byte of its name: there are only two kinds of names.
abbrev pub path_of : List ℕ → ℕ
path_of [] = 1
path_of (c ∷ name) = c

abbrev pub toy_folders : Folders toy_disk
toy_folders = record {
  join = λ dir name. path_of name;
  create_dir_all = λ dir files. (ok tt, files);
  write = λ path bytes files. (ok tt, update path (some bytes) files);
}

names_apart : (index : ℕ) → path_of (share_file_name index) ≢ path_of pubkey_file_name
unfolding share_file_name
names_apart index h = omega (arith, h)

pub toy-FolderLaws : FolderLaws toy_disk toy_folders
toy-FolderLaws = record {
  write-done = λ path bytes s h. ap read (update-same path (some bytes) s);
  write-keeps = λ path bytes s p h. ap read (update-other path (some bytes) s p h);
  apart = λ dir index. names_apart index;
}

abbrev pub salts : ℕ → List ℕ
salts index = replicate 16 index

abbrev pub nonces : ℕ → List ℕ
nonces index = replicate 24 index

pub lengths : SealLengths salts nonces
lengths = record { salt_lengths = λ index. refl; nonce_lengths = λ index. refl }

abbrev pub passphrase : List ℕ
passphrase = replicate 12 97

abbrev no_files : Files
no_files p = none

-- The second share, of 42 + 5 * 2, for its holder.
abbrev externals : List (List ℕ)
externals = sealed_as toy_vault (salts 2) (nonces 2) passphrase (2 ∷ 2 ∷ to_be_bytes 32 52) ∷ []

abbrev created : Result (ℕ × List (List ℕ)) (WalletError (Unit {0})) × Files
created =
    create_wallet toy toy_vault toy_disk toy_folders salts nonces 42 (λ i. 5) 7 passphrase 2 2
      no_files

run : created.0 ≡ ok (42, externals)
unfolding create_wallet generate_and_split_key split draws eval_loop share_at shares_from
    store_shares seal_share seal_bytes check_passphrase_strength char_count is_continuation
    save_share_to_file write_atomic to_be_bytes from_be_bytes share_file_name decimal
run = refl

key_again : toy.from_sec1 (toy.to_sec1 42) ≡ some 42
unfolding to_be_bytes from_be_bytes
key_again = refl

create_wallet-Created_example :
    Created toy toy_vault toy_disk toy_folders 42 (λ i. 5) 7 passphrase 2 2 42 externals created.1
create_wallet-Created_example =
    create_wallet-Created toy toy_vault toy_vault_laws toy_disk toy_folders salts nonces lengths
      toy_disk_laws toy-FolderLaws (λ x. length-to_be_bytes 32 x) 42 (λ i. 5) 7 passphrase 2 2
      no_files created.1 42 externals key_again (ap (λ r. (r, created.1)) run)

import_wallet-Imported_example :
    ImportedOrIntact toy toy_vault toy_disk toy_folders 7 passphrase externals no_files
      (import_wallet toy toy_vault toy_disk toy_folders 7 passphrase externals no_files)
import_wallet-Imported_example =
    import_wallet-Imported toy toy_vault toy_disk toy_folders toy-FolderLaws 7 passphrase externals
      no_files
