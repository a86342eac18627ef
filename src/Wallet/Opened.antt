-- ===== src/Wallet/Opened.antt =====
-- Where the shares that open come from.
use fortresswallet.Base.{
  ℕ, suc, ◌≡◌, refl, sym, ap, ◌∙◌, subst, List, [], ◌∷◌, length, All, ok, >>=-eq-ok, inl, inr,
  arith,
}
use mathlib.Core.List.{Memᴰ}
use mathlib.Core.List.Memᴰ
use mathlib.Core.List.Memᴰ.{head, tail}
use fortresswallet.Crypto.{Backend}
use fortresswallet.Crypto.Shamir.{Share}
use fortresswallet.Storage.{Vault}
use fortresswallet.Storage.Files.{Disk}
use fortresswallet.Wallet.{Folders, load_external_share, load_external_shares}

module _ (B : Backend) (V : Vault) (D : Disk) (F : Folders D) where
  opened_cons :
      (passphrase sealed : List ℕ) (sealed_shares : List (List ℕ)) (shares : List Share)
      → load_external_shares B V D F passphrase (sealed ∷ sealed_shares) ≡ ok shares
      → (first : Share) × (rest : List Share) × (load_external_share B V D F passphrase sealed
          ≡ ok first)
        × (load_external_shares B V D F passphrase sealed_shares ≡ ok rest)
        × (first ∷ rest ≡ shares)
  unfolding load_external_shares
  opened_cons passphrase sealed sealed_shares shares h =
      let (first, e1, h1) = >>=-eq-ok (load_external_share B V D F passphrase sealed) _ h in
      let (rest, e2, h2) = >>=-eq-ok (load_external_shares B V D F passphrase sealed_shares) _ h1 in
      (first, rest, e1, e2, ground (arith, h2))

  same_share :
      (a b : List ℕ) (passphrase : List ℕ) (s t : Share)
      → a ≡ b
      → load_external_share B V D F passphrase a ≡ ok s
      → load_external_share B V D F passphrase b ≡ ok t
      → s ≡ t
  same_share a b passphrase s t e hs ht =
      let both = sym hs ∙ ap (load_external_share B V D F passphrase) e ∙ ht in ground (arith, both)

  -- A share that one of the blobs opens to is among those that all of them open to.
  opened-Memᴰ :
      (passphrase : List ℕ) (externals : List (List ℕ)) (others : List Share) (blob : List ℕ)
      (share : Share)
      → load_external_shares B V D F passphrase externals ≡ ok others
      → Memᴰ blob externals
      → load_external_share B V D F passphrase blob ≡ ok share
      → Memᴰ share others
  opened-Memᴰ passphrase [] others blob share h m e = absurd (Memᴰ.not-nil m)
  opened-Memᴰ passphrase (sealed ∷ externals) others blob share h m e =
      let (first, rest, e1, e2, parts) = opened_cons passphrase sealed externals others h in
      subst (Memᴰ share) parts (elim (Memᴰ.cases_cons m) [
        | inl same ↦ head (same_share blob sealed passphrase share first same e e1)
        | inr later ↦ tail (opened-Memᴰ passphrase externals rest blob share e2 later e)
      ])

  pub chosen-Memᴰ :
      (passphrase : List ℕ) (externals chosen : List (List ℕ)) (others opened : List Share)
      → load_external_shares B V D F passphrase externals ≡ ok others
      → All (λ c. Memᴰ c externals) chosen
      → load_external_shares B V D F passphrase chosen ≡ ok opened
      → All (λ s. Memᴰ s others) opened × (length opened ≡ length chosen)
  unfolding load_external_shares
  chosen-Memᴰ passphrase externals [] others [] h m e = (tt, refl)
  chosen-Memᴰ passphrase externals [] others (s ∷ opened) h m e = absurd (ground (arith, e))
  chosen-Memᴰ passphrase externals (c ∷ chosen) others opened h (here, later) e =
      let (first, rest, e1, e2, parts) = opened_cons passphrase c chosen opened e in
      let (members, count) = chosen-Memᴰ passphrase externals chosen others rest h later e2 in
      subst (λ ss. All (λ s. Memᴰ s others) ss × (length ss ≡ suc (length chosen))) parts
        ((opened-Memᴰ passphrase externals others c first h here e1, members), ap suc count)
