-- ===== src/Storage/Files/Laws.antt =====
-- What the saving of crates/wallet-storage/src/lib.rs relies on of the file system.
use fortresswallet.Base.{ℕ, ◌≡◌, ◌≢◌, ◌⊎◌, List, [], ◌++◌, ok}
use fortresswallet.Storage.Files.{Disk}

-- The file system as `tempfile` documents it: a temporary file has a path of its own, on which no
-- file was; only that path and, in a rename, the target may change, and the target only if the
-- rename succeeds; a rename moves the file away from its path, and a drop
-- deletes it there. A deletion that fails is not covered.
pub record DiskLaws (D : Disk) : Type 0 where
  pub temp_path : D.Temp → D.FilePath
  pub content : D.Temp → D.State → List ℕ
  pub new_in-keeps :
      (dir : D.FilePath) (s : D.State) (p : D.FilePath) (b : List ℕ)
      → D.read p s ≡ ok b
      → D.read p (D.new_in dir s).1 ≡ ok b
  pub new_in-new :
      (dir : D.FilePath) (s : D.State) (t : D.Temp)
      → (D.new_in dir s).0 ≡ ok t
      → (content t (D.new_in dir s).1 ≡ [])
        × ((p : D.FilePath) (b : List ℕ) → D.read p s ≡ ok b → p ≢ temp_path t)
  pub path_eq : (p q : D.FilePath) → (p ≡ q) ⊎ (p ≢ q)
  pub new_in-only :
      (dir : D.FilePath) (s : D.State) (p : D.FilePath) (b : List ℕ)
      → D.read p (D.new_in dir s).1 ≡ ok b
      → (D.read p s ≡ ok b) ⊎ ((t : D.Temp) × ((D.new_in dir s).0 ≡ ok t) × (p ≡ temp_path t))
  pub set_private-keeps :
      (t : D.Temp) (s : D.State)
      → ((p : D.FilePath) → p ≢ temp_path t → D.read p (D.set_private t s).1 ≡ D.read p s)
        × (content t (D.set_private t s).1 ≡ content t s)
  pub write_all-keeps :
      (t : D.Temp) (blob : List ℕ) (s : D.State) (p : D.FilePath)
      → p ≢ temp_path t
      → D.read p (D.write_all t blob s).1 ≡ D.read p s
  pub write_all-content :
      (t : D.Temp) (blob : List ℕ) (s : D.State)
      → (D.write_all t blob s).0 ≡ ok tt
      → content t (D.write_all t blob s).1 ≡ content t s ++ blob
  pub sync_all-keeps :
      (t : D.Temp) (s : D.State)
      → ((p : D.FilePath) → p ≢ temp_path t → D.read p (D.sync_all t s).1 ≡ D.read p s)
        × (content t (D.sync_all t s).1 ≡ content t s)
  pub persist-keeps :
      (t : D.Temp) (path : D.FilePath) (s : D.State) (p : D.FilePath)
      → p ≢ temp_path t
      → (p ≢ path) ⊎ ((D.persist t path s).0 ≢ ok tt)
      → D.read p (D.persist t path s).1 ≡ D.read p s
  pub persist-done :
      (t : D.Temp) (path : D.FilePath) (s : D.State)
      → (D.persist t path s).0 ≡ ok tt
      → D.read path (D.persist t path s).1 ≡ ok (content t s)
  pub remove-keeps :
      (t : D.Temp) (s : D.State) (p : D.FilePath)
      → p ≢ temp_path t
      → D.read p (D.remove t s) ≡ D.read p s
  pub persist-moved :
      (t : D.Temp) (path : D.FilePath) (s : D.State)
      → (D.persist t path s).0 ≡ ok tt
      → (b : List ℕ) → D.read (temp_path t) (D.persist t path s).1 ≡ ok b
      → temp_path t ≡ path
  pub remove-gone :
      (t : D.Temp) (s : D.State) (b : List ℕ) → D.read (temp_path t) (D.remove t s) ≢ ok b
