-- ===== src/Wallet/Created.antt =====
-- A wallet that was created loads back.
use fortresswallet.Base.{
  ℕ, ◌≡◌, refl, sym, ap, ◌∙◌, subst, some, List, [], ◌∷◌, length, ok, map_err, map_err-ok,
  >>=-eq-ok, arith,
}
use fortresswallet.Base.Action.{map_action, pure, lift, ◌>>=◌, bind-eq-ok}
use fortresswallet.Crypto.{Backend, PrivateKey, PublicKey, public_key}
use fortresswallet.Crypto.Shamir.{Share, split}
use fortresswallet.Ceremony.{generate_and_split_key}
use fortresswallet.Storage.{Vault}
use fortresswallet.Storage.Files.{Disk, load_share_from_file}
use fortresswallet.Storage.Sealed.{VaultLaws}
use fortresswallet.Storage.Files.Laws.{DiskLaws}
use fortresswallet.Wallet.Stored.{
  FolderLaws, SealLengths, write_public_key-loads, write_public_key-keeps, store_shares-split,
}
use fortresswallet.Wallet.Shares.{split-parts}
use fortresswallet.Wallet.{
  Call, Folders, io, share_file_name, store_shares, write_public_key, write_and_return,
  create_wallet, load_external_shares, load_public_key, load_shares, ceremony,
}

-- What a created wallet holds: the public key of the drawn private key, and a split of that key of
-- which the first share is in the directory and every other one is in an external share.
pub record Created (B : Backend) (V : Vault) (D : Disk) (F : Folders D) (key : PrivateKey B)
    (draw : ℕ → B.Scalar) (dir : D.FilePath) (passphrase : List ℕ) (threshold n : ℕ)
    (group_key : PublicKey B) (externals : List (List ℕ)) (end : D.State) : Type 0 where
  pub first : Share
  pub others : List Share
  pub is_split : split B key threshold n draw ≡ ok (first ∷ others)
  pub is_key : group_key ≡ public_key B key
  pub key_loads : load_public_key B V D F dir end ≡ ok group_key
  pub first_loads : load_shares B V D F dir passphrase (1 ∷ []) end ≡ ok (first ∷ [])
  pub others_open : load_external_shares B V D F passphrase externals ≡ ok others

module _ (B : Backend) (V : Vault) (vault : VaultLaws V) (D : Disk) (F : Folders D)
    (salts nonces : ℕ → List ℕ) (lengths : SealLengths salts nonces) (disk : DiskLaws D)
    (folders : FolderLaws D F) where
  generated :
      (key : PrivateKey B) (draw : ℕ → B.Scalar) (threshold n : ℕ) (group_key : PublicKey B)
      (shares : List Share)
      → generate_and_split_key B key draw threshold n ≡ ok (group_key, shares)
      → (public_key B key ≡ group_key) × (split B key threshold n draw ≡ ok shares)
  unfolding generate_and_split_key
  generated key draw threshold n group_key shares h =
      let (shares', cut, made) =
        >>=-eq-ok (split B key threshold n draw) (λ shares. ok (public_key B key, shares)) h in
      (ground (arith, made), cut ∙ ground (arith, made))

  write_public_key-last :
      (dir : D.FilePath) (passphrase : List ℕ) (g group_key : PublicKey B) (first : Share)
      (stored externals : List (List ℕ)) (s end : D.State)
      → B.from_sec1 (B.to_sec1 g) ≡ some g
      → load_share_from_file D V (F.join dir (share_file_name first.index)) passphrase s ≡ ok first
      → write_and_return B V D F dir g stored s ≡ (ok (group_key, externals), end)
      → (g ≡ group_key)
        × (stored ≡ externals)
        × (load_public_key B V D F dir end ≡ ok g)
        × (load_share_from_file D V (F.join dir (share_file_name first.index)) passphrase end
            ≡ ok first)
  write_public_key-last dir passphrase g group_key first stored externals s end again there h =
      let last : Unit {0} → Call B V D F (PublicKey B × List (List ℕ)) = λ u. pure (g, stored) in
      let (u, written, h1) =
        bind-eq-ok (write_public_key B V D F dir g) last s end (group_key, externals) h in
      let after = (write_public_key B V D F dir g s).1 in
      let moved : after ≡ end = ap (λ p. p.1) h1 in
      (
        ground (arith, ap (λ p. p.0) h1),
        ground (arith, ap (λ p. p.0) h1),
        subst (λ t. load_public_key B V D F dir t ≡ ok g) moved
            (write_public_key-loads B V D F folders dir g s u again written),
        subst
            (λ t.
              load_share_from_file D V (F.join dir (share_file_name first.index)) passphrase t
              ≡ ok first)
            moved
            (write_public_key-keeps B V vault D F salts nonces lengths disk folders dir passphrase g
              first s there),
      )

  load_shares-single :
      (dir : D.FilePath) (passphrase : List ℕ) (index : ℕ) (share : Share) (s : D.State)
      → load_share_from_file D V (F.join dir (share_file_name index)) passphrase s ≡ ok share
      → load_shares B V D F dir passphrase (index ∷ []) s ≡ ok (share ∷ [])
  unfolding load_shares
  load_shares-single dir passphrase index share s h = rw (h) refl

  after_split :
      (widths : (x : B.Scalar) → length (B.to_bytes x) ≡ 32) (key : PrivateKey B)
      (draw : ℕ → B.Scalar) (dir : D.FilePath) (passphrase : List ℕ) (threshold n : ℕ)
      (s end : D.State) (g : PublicKey B) (shares : List Share) (group_key : PublicKey B)
      (externals : List (List ℕ))
      → B.from_sec1 (B.to_sec1 (public_key B key)) ≡ some (public_key B key)
      → generate_and_split_key B key draw threshold n ≡ ok (g, shares)
      → (store_shares B V D F salts nonces dir passphrase shares >>= write_and_return B V D F dir g)
          s
        ≡ (ok (group_key, externals), end)
      → Created B V D F key draw dir passphrase threshold n group_key externals end
  after_split widths key draw dir passphrase threshold n s end g shares group_key externals again
        made h =
      let (is_key, cut) = generated key draw threshold n g shares made in
      let (first, others, parts, one, width, rest) =
        split-parts B widths key threshold n draw shares cut in
      let (kept, e1, h1) =
        bind-eq-ok (store_shares B V D F salts nonces dir passphrase shares)
          (write_and_return B V D F dir g) s end (group_key, externals) h in
      let after = (store_shares B V D F salts nonces dir passphrase shares s).1 in
      let (first_loads, opened) =
        store_shares-split B V vault D F salts nonces lengths disk folders dir passphrase first
          others s after kept one width rest
          (subst (λ ss. store_shares B V D F salts nonces dir passphrase ss s ≡ (ok kept, after))
            parts (ap (λ r. (r, after)) e1)) in
      let (same_key, same, key_loads, loads) =
        write_public_key-last dir passphrase g group_key first kept externals after end
          (subst (λ k. B.from_sec1 (B.to_sec1 k) ≡ some k) is_key again) first_loads h1 in
      record {
        first = first;
        others = others;
        is_split = cut ∙ ap ok parts;
        is_key = sym same_key ∙ sym is_key;
        key_loads = key_loads ∙ ap ok same_key;
        first_loads =
            subst (λ i. load_shares B V D F dir passphrase (i ∷ []) end ≡ ok (first ∷ [])) one
              (load_shares-single dir passphrase first.index first end loads);
        others_open = ap (load_external_shares B V D F passphrase) (sym same) ∙ opened;
      }

  -- Under the laws of the disk, its directories and the vault, with salts and nonces of their
  -- lengths, scalars of 32 bytes and a public key that its bytes give back: after a wallet was
  -- created, its public key is that of the drawn private key and loads from the directory, the
  -- key was split, the first share loads from the directory under the passphrase, and the
  -- external shares open under it to the other shares, in their order.
  pub create_wallet-Created :
      (widths : (x : B.Scalar) → length (B.to_bytes x) ≡ 32) (key : PrivateKey B)
      (draw : ℕ → B.Scalar) (dir : D.FilePath) (passphrase : List ℕ) (threshold n : ℕ)
      (s end : D.State) (group_key : PublicKey B) (externals : List (List ℕ))
      → B.from_sec1 (B.to_sec1 (public_key B key)) ≡ some (public_key B key)
      → create_wallet B V D F salts nonces key draw dir passphrase threshold n s
        ≡ (ok (group_key, externals), end)
      → Created B V D F key draw dir passphrase threshold n group_key externals end
  unfolding create_wallet
  create_wallet-Created widths key draw dir passphrase threshold n s end group_key externals again
        h =
      let stored : PublicKey B × List Share → Call B V D F (PublicKey B × List (List ℕ)) = λ p.
        store_shares B V D F salts nonces dir passphrase p.1 >>= write_and_return B V D F dir p.0 in
      let drawn : Unit {0} → Call B V D F (PublicKey B × List (List ℕ)) =
        λ u. lift (map_err ceremony (generate_and_split_key B key draw threshold n)) >>= stored in
      let (u, e1, h1) =
        bind-eq-ok (map_action io (F.create_dir_all dir)) drawn s end (group_key, externals) h in
      let ((g, shares), e2, h2) =
        bind-eq-ok (lift (map_err ceremony (generate_and_split_key B key draw threshold n))) stored
          _ end (group_key, externals) h1 in
      after_split widths key draw dir passphrase threshold n _ end g shares group_key externals
        again (map_err-ok ceremony (generate_and_split_key B key draw threshold n) (g, shares) e2)
        h2
