-- ===== src/Storage/Sealed.antt =====
-- What a sealed blob opens to.
use fortresswallet.Base.{
  ℕ, ◌≤◌, ◌≡◌, sym, ap, ap₂, ◌∙◌, false, not, Option, some, none, List, [], ◌∷◌, ◌++◌, length, take,
  drop, take-append, drop-append, length-append, length-take, length-drop, take-append-drop, ltb,
  ◌==◌, ok, ◌>>◌, >>=-eq-ok, fail_if, ok_or, arith,
}
use fortresswallet.Crypto.{Backend, PrivateKey, to_bytes_dangerous}
use fortresswallet.Crypto.Shamir.{Share}
use fortresswallet.Storage.{
  Vault, StorageError, decryption_failed, truncated, unsupported_version, salt_len, nonce_len,
  format_version, min_passphrase_len, char_count, check_passphrase_strength, seal_bytes, open_bytes,
  seal, open_key, seal_share, open_share, share_plaintext_len, share_of,
}

-- An AEAD without randomness: what was encrypted decrypts, and, since the tag is a function of key,
-- nonce and plaintext, nothing else decrypts.
pub record VaultLaws (V : Vault) : Type 0 where
  pub decrypt-encrypt :
      (key nonce plaintext : List ℕ)
      → V.decrypt key nonce (V.encrypt key nonce plaintext) ≡ some plaintext
  pub encrypt-decrypt :
      (key nonce ciphertext plaintext : List ℕ)
      → V.decrypt key nonce ciphertext ≡ some plaintext
      → V.encrypt key nonce plaintext ≡ ciphertext

-- The blob with this salt and nonce.
abbrev pub sealed_as : Vault → List ℕ → List ℕ → List ℕ → List ℕ → List ℕ
sealed_as V salt nonce passphrase plaintext =
    format_version
    ∷ (salt ++ (nonce ++ V.encrypt (V.hash_password passphrase salt) nonce plaintext))

module _ (V : Vault) {IoError : Type 0} where
  seal_bytes-strong :
      (salt nonce passphrase plaintext : List ℕ)
      → min_passphrase_len ≤ char_count passphrase
      → seal_bytes V {IoError = IoError} salt nonce passphrase plaintext
        ≡ ok (sealed_as V salt nonce passphrase plaintext)
  unfolding seal_bytes check_passphrase_strength
  seal_bytes-strong salt nonce passphrase plaintext strong = ground (arith, strong)

  -- Cut at the lengths of salt and nonce, a blob gives back its parts.
  open_bytes-parts :
      (passphrase salt nonce ciphertext : List ℕ)
      → length salt ≡ salt_len
      → length nonce ≡ nonce_len
      → open_bytes V {IoError = IoError} passphrase
          (format_version ∷ (salt ++ (nonce ++ ciphertext)))
        ≡ ok_or (V.decrypt (V.hash_password passphrase salt) nonce ciphertext) decryption_failed
  unfolding open_bytes
  open_bytes-parts passphrase salt nonce ciphertext s n =
      let long : ltb (length (salt ++ (nonce ++ ciphertext))) 40 ≡ false =
        ground (arith, length-append salt (nonce ++ ciphertext), length-append nonce ciphertext) in
      rw (
        long,
        take-append 16 salt (nonce ++ ciphertext) s,
        drop-append 16 salt (nonce ++ ciphertext) s,
        take-append 24 nonce ciphertext n,
        drop-append 24 nonce ciphertext n,
      )

  -- Under the laws of the vault, with a salt and a nonce of their lengths and a passphrase of 12
  -- characters or more, every plaintext is sealed, and opens under that passphrase to itself.
  pub open_bytes-seal_bytes :
      (laws : VaultLaws V) (salt nonce passphrase plaintext : List ℕ)
      → length salt ≡ salt_len
      → length nonce ≡ nonce_len
      → min_passphrase_len ≤ char_count passphrase
      → (blob : List ℕ) × (seal_bytes V {IoError = IoError} salt nonce passphrase plaintext
          ≡ ok blob)
        × (open_bytes V {IoError = IoError} passphrase blob ≡ ok plaintext)
  open_bytes-seal_bytes laws salt nonce passphrase plaintext s n strong = (
    sealed_as V salt nonce passphrase plaintext,
    seal_bytes-strong salt nonce passphrase plaintext strong,
    open_bytes-parts passphrase salt nonce _ s n
        ∙ rw (laws.decrypt-encrypt (V.hash_password passphrase salt) nonce plaintext),
  )

  current_version :
      (v : ℕ)
      → fail_if {E = StorageError IoError} (not (v == format_version)) (unsupported_version v)
        ≡ ok tt
      → v ≡ format_version
  current_version v e = ground arith

  long_enough :
      (r : List ℕ)
      → fail_if {E = StorageError IoError} (ltb (length r) 40) truncated ≡ ok tt
      → 40 ≤ length r
  long_enough r e = ground arith

  ok_or-ok :
      (o : Option (List ℕ)) (e : StorageError IoError) (a : List ℕ) → ok_or o e ≡ ok a → o ≡ some a
  ok_or-ok none e a h = cc
  ok_or-ok (some b) e a h = ground arith

  -- A blob that opens is, byte for byte, what sealing its plaintext under that passphrase writes,
  -- with the salt and the nonce that stand in it.
  pub open_bytes-sealed :
      (laws : VaultLaws V) (passphrase blob plaintext : List ℕ)
      → open_bytes V {IoError = IoError} passphrase blob ≡ ok plaintext
      → (salt nonce : List ℕ) × (length salt ≡ salt_len)
        × (length nonce ≡ nonce_len)
        × (blob ≡ sealed_as V salt nonce passphrase plaintext)
  unfolding open_bytes
  open_bytes-sealed laws passphrase [] plaintext h = cc
  open_bytes-sealed laws passphrase (version ∷ rest) plaintext h =
      let (_, current, h1) =
        >>=-eq-ok (fail_if (not (version == format_version)) (unsupported_version version)) _ h in
      let (_, long, h2) = >>=-eq-ok (fail_if (ltb (length rest) 40) truncated) _ h1 in
      let salt = take 16 rest in
      let nonce = take 24 (drop 16 rest) in
      let ciphertext = drop 24 (drop 16 rest) in
      let enough = long_enough rest long in
      let key = V.hash_password passphrase salt in
      let made = laws.encrypt-decrypt key nonce ciphertext plaintext (ok_or-ok _ _ plaintext h2) in
      (
        salt,
        nonce,
        ground (arith, enough, length-take 16 rest),
        ground (arith, enough, length-take 24 (drop 16 rest), length-drop 16 rest),
        ap₂ (λ v r. v ∷ r) (current_version version current)
            (sym (take-append-drop 16 rest)
              ∙ ap (λ r. salt ++ r) (sym (take-append-drop 24 (drop 16 rest)))
              ∙ ap (λ c. salt ++ (nonce ++ c)) (sym made)),
      )

  -- Under the laws of the vault, with a salt and a nonce of their lengths and a passphrase of 12
  -- characters or more, a share whose value has its 32 bytes is sealed, and opens under that
  -- passphrase to itself, with its index and threshold.
  pub open_share-seal_share :
      (laws : VaultLaws V) (salt nonce passphrase : List ℕ) (share : Share)
      → length salt ≡ salt_len
      → length nonce ≡ nonce_len
      → min_passphrase_len ≤ char_count passphrase
      → length share.value ≡ 32
      → (blob : List ℕ) × (seal_share V {IoError = IoError} salt nonce passphrase share ≡ ok blob)
        × (open_share V {IoError = IoError} passphrase blob ≡ ok share)
  unfolding seal_share open_share
  open_share-seal_share laws salt nonce passphrase share s n strong width =
      let plaintext = share.index ∷ share.threshold ∷ share.value in
      let (blob, sealed, opened) =
        open_bytes-seal_bytes laws salt nonce passphrase plaintext s n strong in
      (blob, sealed, rw (opened, width))

  -- Only under a long enough passphrase is anything sealed.
  pub seal_share-strong :
      (salt nonce passphrase blob : List ℕ) (share : Share)
      → seal_share V {IoError = IoError} salt nonce passphrase share ≡ ok blob
      → min_passphrase_len ≤ char_count passphrase
  unfolding seal_share seal_bytes check_passphrase_strength
  seal_share-strong salt nonce passphrase blob share h = ground arith

  share_of-ok :
      (plaintext : List ℕ) (share : Share)
      → fail_if (not (length plaintext == share_plaintext_len)) truncated
          >> share_of {IoError = IoError} plaintext
        ≡ ok share
      → (plaintext ≡ share.index ∷ share.threshold ∷ share.value) × (length share.value ≡ 32)
  share_of-ok [] share h = cc
  share_of-ok (index ∷ []) share h = cc
  share_of-ok (index ∷ threshold ∷ value) share h = ground arith

  -- Under the laws of the vault, a blob that opens to a share is exactly the blob that sealing
  -- this share under that passphrase writes, with the salt and the nonce that stand in it, and the
  -- value has 32 bytes.
  pub open_share-sealed :
      (laws : VaultLaws V) (passphrase blob : List ℕ) (share : Share)
      → open_share V {IoError = IoError} passphrase blob ≡ ok share
      → (salt nonce : List ℕ) × (length salt ≡ salt_len)
        × (length nonce ≡ nonce_len)
        × (length share.value ≡ 32)
        × (blob ≡ sealed_as V salt nonce passphrase (share.index ∷ share.threshold ∷ share.value))
  unfolding open_share
  open_share-sealed laws passphrase blob share h =
      let (plaintext, opened, rest) = >>=-eq-ok (open_bytes V passphrase blob) _ h in
      let (parts, width) = share_of-ok plaintext share rest in
      let (salt, nonce, s, n, written) = open_bytes-sealed laws passphrase blob plaintext opened in
      (salt, nonce, s, n, width, written ∙ ap (sealed_as V salt nonce passphrase) parts)

-- This private key is stored as 32 bytes from which `k256` makes it again.
pub record KeyLaws (B : Backend) (key : PrivateKey B) : Type 0 where
  pub key_bytes : length (to_bytes_dangerous B key) ≡ 32
  pub key_again : B.key_from_bytes (B.key_to_bytes key) ≡ some key

module _ (B : Backend) (V : Vault) (laws : VaultLaws V) {IoError : Type 0} where
  -- Under the laws of the vault, with a salt and a nonce of their lengths and a passphrase of 12
  -- characters or more, a private key that is stored as 32 bytes from which it is made again is
  -- sealed, and opens under that passphrase to itself.
  open_key-seal :
      (key : PrivateKey B) (keys : KeyLaws B key) (salt nonce passphrase : List ℕ)
      → length salt ≡ salt_len
      → length nonce ≡ nonce_len
      → min_passphrase_len ≤ char_count passphrase
      → (blob : List ℕ) × (seal B V {IoError = IoError} salt nonce passphrase key ≡ ok blob)
        × (open_key B V {IoError = IoError} passphrase blob ≡ ok key)
  unfolding seal open_key
  open_key-seal key keys salt nonce passphrase s n strong =
      let (blob, sealed, opened) =
        open_bytes-seal_bytes V laws salt nonce passphrase (to_bytes_dangerous B key) s n strong in
      (blob, sealed, rw (opened, keys.key_bytes, keys.key_again))
