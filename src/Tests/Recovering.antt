-- ===== src/Tests/Recovering.antt =====
-- A wallet over the field of 257 elements: created, signed with, and imported elsewhere.
use fortresswallet.Base.{ℕ, ◌≡◌, inl, refl, ap, none, some, List, [], ◌∷◌, Result, ok, arith}
use fortresswallet.Base.Bytes.{to_be_bytes, from_be_bytes, length-to_be_bytes}
use mathlib.Core.List.Memᴰ.{head, tail}
use fortresswallet.Crypto.Shamir.{
  split, draws, eval_loop, shares_from, share_at, reconstruct, interpolate, lagrange_coefficient,
  lagrange_loop, check_shares, is_in,
}
use fortresswallet.Ceremony.{generate_and_split_key, sign_with_shares}
use fortresswallet.Hex.{is_continuation}
use fortresswallet.Storage.{
  char_count, seal_bytes, seal_share, check_passphrase_strength, open_share, open_bytes,
}
use fortresswallet.Storage.Files.{write_atomic, save_share_to_file, load_share_from_file}
use fortresswallet.Storage.Sealed.{sealed_as}
use fortresswallet.Wallet.{
  WalletError, decimal, share_file_name, store_shares, create_wallet, import_wallet,
  load_public_key, load_shares, load_external_shares,
}
use fortresswallet.Wallet.Quorum.{create_wallet-sign_with_shares, create_wallet-import_wallet}
use fortresswallet.Tests.Disk.{toy_vault, toy_vault_laws, toy_disk, toy_disk_laws, Files}
use fortresswallet.Tests.Creating.{toy_folders, toy-FolderLaws, salts, nonces, lengths, passphrase}
use fortresswallet.Tests.Prime.{
  Residue, residue, inverse_of, prime, prime_scalars, prime_keys, prime_ecdsa,
}
use fortresswallet.Tests.Splitting.{point, drawn}

abbrev no_files : Files
no_files p = none

abbrev sealed_point : ℕ → ℕ → List ℕ
sealed_point i y = sealed_as toy_vault (salts i) (nonces i) passphrase (i ∷ 2 ∷ to_be_bytes 32 y)

abbrev externals : List (List ℕ)
externals = sealed_point 2 52 ∷ sealed_point 3 57 ∷ []

abbrev created : Result (Residue × List (List ℕ)) (WalletError (Unit {0})) × Files
created =
    create_wallet prime toy_vault toy_disk toy_folders salts nonces (residue 42) drawn 7 passphrase
      2 3 no_files

run : created.0 ≡ ok (residue 42, externals)
unfolding create_wallet generate_and_split_key split draws eval_loop share_at shares_from
    store_shares seal_share seal_bytes check_passphrase_strength char_count is_continuation
    save_share_to_file write_atomic to_be_bytes from_be_bytes share_file_name decimal
run = refl

key_again : prime.from_sec1 (prime.to_sec1 (residue 42)) ≡ some (residue 42)
unfolding to_be_bytes from_be_bytes
key_again = refl

first_held :
    load_shares prime toy_vault toy_disk toy_folders 7 passphrase (1 ∷ []) created.1
    ≡ ok (point 1 47 ∷ [])
unfolding create_wallet generate_and_split_key split draws eval_loop share_at shares_from
    store_shares seal_share seal_bytes check_passphrase_strength char_count is_continuation
    save_share_to_file write_atomic to_be_bytes from_be_bytes share_file_name decimal load_shares
    load_share_from_file open_share open_bytes
first_held = refl

third_opened :
    load_external_shares prime toy_vault toy_disk toy_folders passphrase (sealed_point 3 57 ∷ [])
    ≡ ok (point 3 57 ∷ [])
unfolding load_external_shares open_share open_bytes to_be_bytes from_be_bytes
third_opened = refl

create_wallet-sign_with_shares_example :
    (load_public_key prime toy_vault toy_disk toy_folders 7 created.1 ≡ ok (residue 42))
    × (sign_with_shares prime (point 1 47 ∷ point 3 57 ∷ []) (residue 42) (7 ∷ [])
        ≡ ok (42 ∷ 7 ∷ []))
create_wallet-sign_with_shares_example =
    create_wallet-sign_with_shares prime prime_scalars prime_keys prime_ecdsa toy_vault
      toy_vault_laws toy_disk toy_folders salts nonces lengths toy_disk_laws toy-FolderLaws
      (λ x. length-to_be_bytes 32 x.0) (residue 42) drawn 7 passphrase 2 3 no_files created.1
      (residue 42) externals (sealed_point 3 57 ∷ []) (point 1 47 ∷ []) (point 3 57 ∷ []) (7 ∷ [])
      key_again (ap (λ r. (r, created.1)) run) (omega arith) (inl first_held) third_opened
      (tail (head refl), tt) refl ((omega arith, tt), (tt, tt))

abbrev both : List (List ℕ)
both = sealed_point 3 57 ∷ sealed_point 2 52 ∷ []

both_opened :
    load_external_shares prime toy_vault toy_disk toy_folders passphrase both
    ≡ ok (point 3 57 ∷ point 2 52 ∷ [])
unfolding load_external_shares open_share open_bytes to_be_bytes from_be_bytes
both_opened = refl

abbrev recovered : Result Residue (WalletError (Unit {0})) × Files
recovered = import_wallet prime toy_vault toy_disk toy_folders 8 passphrase both no_files

recovered_ok : recovered.0 ≡ ok (residue 42)
unfolding import_wallet load_external_shares open_share open_bytes reconstruct interpolate
    lagrange_coefficient lagrange_loop check_shares is_in inverse_of to_be_bytes from_be_bytes
recovered_ok = refl

create_wallet-import_wallet_example :
    (residue 42 ≡ residue 42)
    × (load_public_key prime toy_vault toy_disk toy_folders 8 recovered.1 ≡ ok (residue 42))
create_wallet-import_wallet_example =
    create_wallet-import_wallet prime prime_scalars prime_keys prime_ecdsa toy_vault toy_vault_laws
      toy_disk toy_folders salts nonces lengths toy_disk_laws toy-FolderLaws
      (λ x. length-to_be_bytes 32 x.0) (residue 42) drawn 7 8 passphrase 2 3 no_files created.1
      no_files (residue 42) (residue 42) externals both (point 3 57 ∷ point 2 52 ∷ []) key_again
      (ap (λ r. (r, created.1)) run) (omega arith) both_opened (tail (head refl), (head refl, tt))
      refl ((omega arith, tt), (tt, tt)) recovered_ok key_again
