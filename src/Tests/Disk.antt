-- ===== src/Tests/Disk.antt =====
-- A cipher that prefixes a tag, and a disk of numbered files, 0 the temporary one.
use fortresswallet.Base.{
  ℕ, ◌≡◌, ◌≢◌, ◌⊎◌, inl, inr, refl, sym, ap, ◌∙◌, false, Bool-cases, Option, none, some, List, [],
  ◌∷◌, ◌++◌, ◌%◌, ◌==◌, ==_iff, if◌then◌else◌, Result, ok, err, arith,
}
use fortresswallet.Base.Bytes.{from_be_bytes}
use fortresswallet.Storage.{Vault}
use fortresswallet.Storage.Sealed.{VaultLaws}
use fortresswallet.Storage.Files.{Disk}
use fortresswallet.Storage.Files.Laws.{DiskLaws}

abbrev tag : List ℕ → List ℕ → ℕ
tag key nonce = from_be_bytes (key ++ nonce) % 251

abbrev untag : ℕ → List ℕ → Option (List ℕ)
untag t [] = none
untag t (x ∷ xs) = if x == t then some xs else none

abbrev pub toy_vault : Vault
toy_vault = record {
  hash_password = λ passphrase salt. passphrase ++ salt;
  encrypt = λ key nonce plaintext. tag key nonce ∷ plaintext;
  decrypt = λ key nonce ciphertext. untag (tag key nonce) ciphertext;
}

untag-tagged : (t : ℕ) (xs : List ℕ) → untag t (t ∷ xs) ≡ some xs
untag-tagged t xs = ground arith

tagged-untag : (t : ℕ) (c xs : List ℕ) → untag t c ≡ some xs → t ∷ xs ≡ c
tagged-untag t [] xs h = cc
tagged-untag t (x ∷ c) xs h = ground arith

pub toy_vault_laws : VaultLaws toy_vault
toy_vault_laws = record {
  decrypt-encrypt = λ key nonce plaintext. untag-tagged (tag key nonce) plaintext;
  encrypt-decrypt =
      λ key nonce ciphertext plaintext h. tagged-untag (tag key nonce) ciphertext plaintext h;
}

abbrev pub Files : Type 0
Files = ℕ → Option (List ℕ)

abbrev pub update : ℕ → Option (List ℕ) → Files → Files
update k v files p = if p == k then v else files p

abbrev pub read : Option (List ℕ) → Result (List ℕ) (Unit {0})
read none = err tt
read (some bytes) = ok bytes

abbrev bytes_of : Option (List ℕ) → List ℕ
bytes_of none = []
bytes_of (some bytes) = bytes

abbrev create : Option (List ℕ) → Files → Result (Unit {0}) (Unit {0}) × Files
create none files = (ok tt, update 0 (some []) files)
create (some bytes) files = (err tt, files)

abbrev pub toy_disk : Disk
toy_disk = record {
  State = Files;
  FilePath = ℕ;
  Temp = Unit {0};
  IoError = Unit {0};
  parent = λ p. none;
  is_empty = λ p. false;
  current_dir = 1;
  read = λ p files. read (files p);
  new_in = λ dir files. create (files 0) files;
  set_private = λ t files. (ok tt, files);
  write_all = λ t blob files. (ok tt, update 0 (some (bytes_of (files 0) ++ blob)) files);
  sync_all = λ t files. (ok tt, files);
  persist = λ t path files. (ok tt, update path (some (bytes_of (files 0))) (update 0 none files));
  remove = λ t files. update 0 none files;
}

create-keeps :
    (files : Files) (p : ℕ) (b : List ℕ) (o : Option (List ℕ))
    → files 0 ≡ o
    → read (files p) ≡ ok b
    → read ((create o files).1 p) ≡ ok b
create-keeps files p b none e h = elim (Bool-cases (p == 0)) [
  | inl z ↦ cc (ap read (ap files ((==_iff p 0).0 z) ∙ e), h)
  | inr z ↦ rw (z) h
]
create-keeps files p b (some bytes) e h = h

create-new :
    (files : Files) (t : Unit {0}) (o : Option (List ℕ))
    → files 0 ≡ o
    → (create o files).0 ≡ ok t
    → (bytes_of ((create o files).1 0) ≡ [])
      × ((p : ℕ) (b : List ℕ) → read (files p) ≡ ok b → p ≢ 0)
create-new files t none e h = (refl, λ p b there z. cc (ap read (ap files z ∙ e), there))
create-new files t (some bytes) e h = cc

pub update-other :
    (k : ℕ) (v : Option (List ℕ)) (files : Files) (p : ℕ) → p ≢ k → update k v files p ≡ files p
update-other k v files p h = ground arith

pub update-same : (k : ℕ) (v : Option (List ℕ)) (files : Files) → update k v files k ≡ v
update-same k v files = ground arith

persist-keeps :
    (path p : ℕ) (files : Files) (v : Option (List ℕ))
    → p ≢ 0
    → (p ≢ path) ⊎ (◌≢◌ {A = Result (Unit {0}) (Unit {0})} (ok tt) (ok tt))
    → update path v (update 0 none files) p ≡ files p
persist-keeps path p files v h (inl other) =
    update-other path v (update 0 none files) p other ∙ update-other 0 none files p h
persist-keeps path p files v h (inr bad) = absurd (bad refl)

create-only :
    (files : Files) (p : ℕ) (b : List ℕ) (o : Option (List ℕ))
    → read ((create o files).1 p) ≡ ok b
    → (read (files p) ≡ ok b) ⊎ ((t : Unit {0}) × ((create o files).0 ≡ ok t) × (p ≡ 0))
create-only files p b none h = elim (Bool-cases (p == 0)) [
  | inl z ↦ inr (tt, refl, (==_iff p 0).0 z)
  | inr z ↦
      inl (sym (ap read (update-other 0 (some []) files p (λ e. cc ((==_iff p 0).1 e, z)))) ∙ h)
]
create-only files p b (some bytes) h = inl h

ℕ-cases : (p q : ℕ) → (p ≡ q) ⊎ (p ≢ q)
ℕ-cases p q = elim (Bool-cases (p == q)) [
  | inl z ↦ inl ((==_iff p q).0 z)
  | inr z ↦ inr (λ e. cc ((==_iff p q).1 e, z))
]

persist-moved :
    (path : ℕ) (v : Option (List ℕ)) (files : Files) (b : List ℕ)
    → read (update path v (update 0 none files) 0) ≡ ok b
    → 0 ≡ path
persist-moved path v files b h = elim (ℕ-cases 0 path) [
  | inl e ↦ e
  | inr off ↦ cc (ap read (update-other path v (update 0 none files) 0 off), h)
]

pub toy_disk_laws : DiskLaws toy_disk
toy_disk_laws = record {
  temp_path = λ t. 0;
  content = λ t files. bytes_of (files 0);
  new_in-keeps = λ dir files p b h. create-keeps files p b (files 0) refl h;
  path_eq = ℕ-cases;
  new_in-only = λ dir files p b h. create-only files p b (files 0) h;
  new_in-new = λ dir files t h. create-new files t (files 0) refl h;
  set_private-keeps = λ t files. (λ p h. refl, refl);
  write_all-keeps = λ t blob files p h. ap read (update-other 0 _ files p h);
  write_all-content = λ t blob files h. refl;
  sync_all-keeps = λ t files. (λ p h. refl, refl);
  persist-keeps = λ t path files p h why. ap read (persist-keeps path p files _ h why);
  persist-done = λ t path files h. ap read (update-same path _ (update 0 none files));
  remove-keeps = λ t files p h. ap read (update-other 0 none files p h);
  persist-moved = λ t path files h b e. persist-moved path _ files b e;
  remove-gone = λ t files b e. cc;
}
