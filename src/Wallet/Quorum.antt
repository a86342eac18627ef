-- ===== src/Wallet/Quorum.antt =====
-- What the holders of a created wallet's shares can do together.
use fortresswallet.Base.{
  ℕ, ◌+◌, ◌<◌, ◌≡◌, ◌⊎◌, inl, inr, refl, sym, ap, ◌∙◌, subst, some, List, [], ◌∷◌, ◌++◌, length,
  All, ok, arith,
}
use mathlib.Core.List.{Memᴰ}
use mathlib.Core.List.Memᴰ.{head, tail}
use fortresswallet.Crypto.{Backend, EcdsaLaws, PrivateKey, PublicKey, public_key, sign_prehash}
use fortresswallet.Crypto.Shamir.{Share, reconstruct}
use fortresswallet.Crypto.Shamir.Checks.{Distinct, indices_of}
use fortresswallet.Crypto.Shamir.Field.{ScalarLaws}
use fortresswallet.Crypto.Shamir.Recovered.{KeyLaws}
use fortresswallet.Ceremony.{sign_with_shares}
use fortresswallet.Ceremony.Dealt.{IsDealt, IsDealt-reconstruct, IsDealt-sign_with_shares}
use fortresswallet.Storage.{Vault}
use fortresswallet.Storage.Files.{Disk}
use fortresswallet.Storage.Sealed.{VaultLaws}
use fortresswallet.Storage.Files.Laws.{DiskLaws}
use fortresswallet.Wallet.Created.{Created, create_wallet-Created}
use fortresswallet.Wallet.Stored.{FolderLaws, SealLengths}
use fortresswallet.Wallet.Imported.{import_wallet-Imported}
use fortresswallet.Wallet.{
  Folders, load_external_shares, load_public_key, load_shares, import_wallet, create_wallet,
}
use fortresswallet.Wallet.Opened.{chosen-Memᴰ}

module _ (B : Backend) (S : ScalarLaws B) (K : KeyLaws B) (E : EcdsaLaws B) (V : Vault) (D : Disk)
    (F : Folders D) where
  later-Memᴰ :
      (first : Share) (others opened : List Share)
      → All (λ s. Memᴰ s others) opened
      → All (λ s. Memᴰ s (first ∷ others)) opened
  later-Memᴰ first others [] h = tt
  later-Memᴰ first others (s ∷ opened) (here, later) =
      (tail here, later-Memᴰ first others opened later)

  -- The share of the directory, or none, with external shares up to the threshold are of one dealing.
  Created-IsDealt :
      (key : PrivateKey B) (draw : ℕ → B.Scalar) (dir : D.FilePath) (passphrase : List ℕ)
      (threshold n : ℕ) (group_key : PublicKey B) (externals chosen : List (List ℕ)) (end : D.State)
      (held opened : List Share)
      → Created B V D F key draw dir passphrase threshold n group_key externals end
      → n < 256
      → (load_shares B V D F dir passphrase (1 ∷ []) end ≡ ok held) ⊎ (held ≡ [])
      → load_external_shares B V D F passphrase chosen ≡ ok opened
      → All (λ c. Memᴰ c externals) chosen
      → length held + length chosen ≡ threshold
      → Distinct (indices_of (held ++ opened))
      → IsDealt B key (held ++ opened)
  Created-IsDealt key draw dir passphrase threshold n group_key externals chosen end held opened c
        few local opens members count distinct =
      let (among, size) =
        chosen-Memᴰ B V D F passphrase externals chosen c.others opened c.others_open members
          opens in
      let later = later-Memᴰ c.first c.others opened among in
      let dealt : (ss : List Share)
          → held ≡ ss
          → All (λ s. Memᴰ s (c.first ∷ c.others)) (ss ++ opened)
          → length (ss ++ opened) ≡ length ss + length opened
          → IsDealt B key (held ++ opened) =
        λ ss same all sum.
          subst (λ xs. IsDealt B key (xs ++ opened)) (sym same)
            (record {
              threshold = threshold;
              parties = n;
              draw = draw;
              shares = c.first ∷ c.others;
              made = c.is_split;
              few_parties = few;
              members = all;
              count =
                  sum
                  ∙ ap (λ l. length ss + l) size
                  ∙ subst (λ xs. length xs + length chosen ≡ threshold) same count;
              distinct = subst (λ xs. Distinct (indices_of (xs ++ opened))) same distinct;
            }) in
      elim local [
        | inl loaded ↦
            let both = sym c.first_loads ∙ loaded in
            let same : c.first ∷ [] ≡ held = ground (arith, both) in
            dealt (c.first ∷ []) (sym same) (head refl, later) (omega arith)
        | inr none_held ↦ dealt [] none_held later (omega arith)
      ]

  -- These shares sign as the key does.
  pub Created-sign_with_shares :
      (key : PrivateKey B) (draw : ℕ → B.Scalar) (dir : D.FilePath) (passphrase : List ℕ)
      (threshold n : ℕ) (group_key : PublicKey B) (externals chosen : List (List ℕ)) (end : D.State)
      (held opened : List Share) (digest : List ℕ)
      → Created B V D F key draw dir passphrase threshold n group_key externals end
      → n < 256
      → (load_shares B V D F dir passphrase (1 ∷ []) end ≡ ok held) ⊎ (held ≡ [])
      → load_external_shares B V D F passphrase chosen ≡ ok opened
      → All (λ c. Memᴰ c externals) chosen
      → length held + length chosen ≡ threshold
      → Distinct (indices_of (held ++ opened))
      → (load_public_key B V D F dir end ≡ ok group_key)
        × (sign_with_shares B (held ++ opened) group_key digest ≡ ok (sign_prehash B key digest))
  Created-sign_with_shares key draw dir passphrase threshold n group_key externals chosen end held
        opened digest c few local opens members count distinct =
      (
        c.key_loads,
        ap (λ k. sign_with_shares B (held ++ opened) k digest) c.is_key
            ∙ IsDealt-sign_with_shares B S K E key (held ++ opened) digest (
                Created-IsDealt key draw dir passphrase threshold n group_key externals chosen end
                  held opened c few local opens members count distinct),
      )

  opened_once :
      (passphrase : List ℕ) (chosen : List (List ℕ)) (a b : List Share)
      → load_external_shares B V D F passphrase chosen ≡ ok a
      → load_external_shares B V D F passphrase chosen ≡ ok b
      → a ≡ b
  opened_once passphrase chosen a b ha hb = let both = sym ha ∙ hb in ground (arith, both)

  -- Enough external shares import the same public key elsewhere.
  pub Created-import_wallet :
      (folders : FolderLaws D F) (key : PrivateKey B) (draw : ℕ → B.Scalar)
      (dir elsewhere : D.FilePath) (passphrase : List ℕ) (threshold n : ℕ)
      (group_key imported_key : PublicKey B) (externals chosen : List (List ℕ)) (end s : D.State)
      (opened : List Share)
      → Created B V D F key draw dir passphrase threshold n group_key externals end
      → n < 256
      → load_external_shares B V D F passphrase chosen ≡ ok opened
      → All (λ c. Memᴰ c externals) chosen
      → length chosen ≡ threshold
      → Distinct (indices_of opened)
      → (import_wallet B V D F elsewhere passphrase chosen s).0 ≡ ok imported_key
      → B.from_sec1 (B.to_sec1 imported_key) ≡ some imported_key
      → (imported_key ≡ group_key)
        × (load_public_key B V D F elsewhere (import_wallet B V D F elsewhere passphrase chosen s).1
            ≡ ok group_key)
  Created-import_wallet folders key draw dir elsewhere passphrase threshold n group_key imported_key
        externals chosen end s opened c few opens members count distinct imported again =
      let result = import_wallet-Imported B V D F folders elsewhere passphrase chosen s in
      let (shares, found, e1, e2, e3, e4) = result.imported imported_key imported again in
      let (among, size) =
        chosen-Memᴰ B V D F passphrase externals chosen c.others opened c.others_open members
          opens in
      let dealt : IsDealt B key opened = record {
        threshold = threshold;
        parties = n;
        draw = draw;
        shares = c.first ∷ c.others;
        made = c.is_split;
        few_parties = few;
        members = later-Memᴰ c.first c.others opened among;
        count = size ∙ count;
        distinct = distinct;
      } in
      let rebuilt =
        sym (IsDealt-reconstruct B S K E key opened dealt)
        ∙ ap (reconstruct B) (opened_once passphrase chosen opened shares opens e1)
        ∙ e2 in
      let same : key ≡ found = ground (arith, rebuilt) in
      let key_same = e3 ∙ ap (public_key B) (sym same) ∙ sym c.is_key in
      (key_same, e4 ∙ ap ok key_same)

module _ (B : Backend) (S : ScalarLaws B) (K : KeyLaws B) (E : EcdsaLaws B) (V : Vault)
    (vault : VaultLaws V) (D : Disk) (F : Folders D) (salts nonces : ℕ → List ℕ)
    (lengths : SealLengths salts nonces) (disk : DiskLaws D) (folders : FolderLaws D F)
    (widths : (x : B.Scalar) → length (B.to_bytes x) ≡ 32) where
  -- After a wallet was created for up to 255 parties, the share that its directory holds, or none of
  -- it, followed by as many of the external shares as make up the threshold, any that open, of
  -- distinct indices and in any order among themselves, sign every digest as the drawn key does,
  -- under the public key that the directory holds.
  pub create_wallet-sign_with_shares :
      (key : PrivateKey B) (draw : ℕ → B.Scalar) (dir : D.FilePath) (passphrase : List ℕ)
      (threshold n : ℕ) (s end : D.State) (group_key : PublicKey B)
      (externals chosen : List (List ℕ)) (held opened : List Share) (digest : List ℕ)
      → B.from_sec1 (B.to_sec1 (public_key B key)) ≡ some (public_key B key)
      → create_wallet B V D F salts nonces key draw dir passphrase threshold n s
        ≡ (ok (group_key, externals), end)
      → n < 256
      → (load_shares B V D F dir passphrase (1 ∷ []) end ≡ ok held) ⊎ (held ≡ [])
      → load_external_shares B V D F passphrase chosen ≡ ok opened
      → All (λ c. Memᴰ c externals) chosen
      → length held + length chosen ≡ threshold
      → Distinct (indices_of (held ++ opened))
      → (load_public_key B V D F dir end ≡ ok group_key)
        × (sign_with_shares B (held ++ opened) group_key digest ≡ ok (sign_prehash B key digest))
  create_wallet-sign_with_shares key draw dir passphrase threshold n s end group_key externals
        chosen held opened digest again run =
      Created-sign_with_shares B S K E V D F key draw dir passphrase threshold n group_key externals
        chosen end held opened digest
        (create_wallet-Created B V vault D F salts nonces lengths disk folders widths key draw dir
          passphrase threshold n s end group_key externals again run)

  -- A wallet that was created for up to 255 parties is recovered elsewhere from external shares
  -- alone: an import from as many of them as the threshold, of distinct indices and in any order, that
  -- succeeds returns the public key of the created wallet, and the new directory holds it.
  pub create_wallet-import_wallet :
      (key : PrivateKey B) (draw : ℕ → B.Scalar) (dir elsewhere : D.FilePath) (passphrase : List ℕ)
      (threshold n : ℕ) (s end later : D.State) (group_key imported_key : PublicKey B)
      (externals chosen : List (List ℕ)) (opened : List Share)
      → B.from_sec1 (B.to_sec1 (public_key B key)) ≡ some (public_key B key)
      → create_wallet B V D F salts nonces key draw dir passphrase threshold n s
        ≡ (ok (group_key, externals), end)
      → n < 256
      → load_external_shares B V D F passphrase chosen ≡ ok opened
      → All (λ c. Memᴰ c externals) chosen
      → length chosen ≡ threshold
      → Distinct (indices_of opened)
      → (import_wallet B V D F elsewhere passphrase chosen later).0 ≡ ok imported_key
      → B.from_sec1 (B.to_sec1 imported_key) ≡ some imported_key
      → (imported_key ≡ group_key)
        × (load_public_key B V D F elsewhere
              (import_wallet B V D F elsewhere passphrase chosen later).1
            ≡ ok group_key)
  create_wallet-import_wallet key draw dir elsewhere passphrase threshold n s end later group_key
        imported_key externals chosen opened again run =
      Created-import_wallet B S K E V D F folders key draw dir elsewhere passphrase threshold n
        group_key imported_key externals chosen end later opened
        (create_wallet-Created B V vault D F salts nonces lengths disk folders widths key draw dir
          passphrase threshold n s end group_key externals again run)
