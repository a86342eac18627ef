-- ===== src/Storage/Filling.antt =====
-- The steps on a temporary file, up to the rename over its target.
use fortresswallet.Base.{
  ℕ, ◌≡◌, ◌≢◌, ◌⊎◌, refl, sym, ap, ◌∙◌, List, [], ◌++◌, Result, ok, err, panic,
}
use fortresswallet.Base.Action.{Action, ◌>>=◌, ◌>>◌}
use fortresswallet.Storage.Files.Laws.{DiskLaws}
use fortresswallet.Storage.Files.{Disk, fill_and_rename}

module _ (D : Disk) (laws : DiskLaws D) (path : D.FilePath) (blob : List ℕ) (before : D.State)
    (t : D.Temp) where
  -- A file has the same bytes as before.
  abbrev pub SameAt : D.FilePath → D.State → Type 0
  SameAt p s =
      (b : List ℕ)
      → (D.read p before ≡ ok b → D.read p s ≡ ok b) × (D.read p s ≡ ok b → D.read p before ≡ ok b)

  -- All files but the temporary one are the same as before.
  abbrev pub Same : D.State → Type 0
  Same s = (p : D.FilePath) → p ≢ laws.temp_path t → SameAt p s

  -- What the steps on the temporary file end with.
  pub record Filling (end : Result (Unit {0}) D.IoError × D.State) : Type 0 where
    pub done : end.0 ≡ ok tt → D.read path end.1 ≡ ok blob
    pub others :
        (p : D.FilePath) → p ≢ laws.temp_path t → (p ≢ path) ⊎ (end.0 ≢ ok tt) → SameAt p end.1
    pub moved :
        end.0 ≡ ok tt
        → (b : List ℕ) → D.read (laws.temp_path t) end.1 ≡ ok b
        → laws.temp_path t ≡ path

  same_through :
      (p : D.FilePath) (s after : D.State)
      → SameAt p s
      → D.read p after ≡ D.read p s
      → SameAt p after
  same_through p s after same e b = (λ h. e ∙ (same b).0 h, λ h. (same b).1 (sym e ∙ h))

  kept :
      (s after : D.State)
      → Same s
      → ((p : D.FilePath) → p ≢ laws.temp_path t → D.read p after ≡ D.read p s)
      → Same after
  kept s after same stays p other = same_through p s after (same p other) (stays p other)

  failed_Filling :
      (r : Result (Unit {0}) D.IoError) (s : D.State) → r ≢ ok tt → Same s → Filling (r, s)
  failed_Filling r s bad same = record {
    done = λ e. absurd (bad e);
    others = λ p other _. same p other;
    moved = λ e. absurd (bad e);
  }

  -- A step that ended with the files kept, and then the rest.
  step-Filling :
      {A : Type 0} (end : Result A D.IoError × D.State)
      (rest : A → Action D.State D.IoError (Unit {0})) (s : D.State)
      → Same end.1
      → ((a : A) → end.0 ≡ ok a → Filling (rest a end.1))
      → Filling (((λ _. end) >>= rest) s)
  step-Filling (ok a, after) rest s same good = good a refl
  step-Filling (err e, after) rest s same good = failed_Filling (err e) after (λ h. cc) same
  step-Filling (panic, after) rest s same good = failed_Filling panic after (λ h. cc) same

  persist-Filling : (s : D.State) → Same s → laws.content t s ≡ blob → Filling (D.persist t path s)
  persist-Filling s same filled = record {
    done = λ e. laws.persist-done t path s e ∙ ap ok filled;
    others = λ p other why.
        same_through p s (D.persist t path s).1 (same p other)
          (laws.persist-keeps t path s p other why);
    moved = laws.persist-moved t path s;
  }

  synced-Filling :
      (s : D.State)
      → Same s
      → laws.content t s ≡ blob
      → Filling ((D.sync_all t >> D.persist t path) s)
  synced-Filling s same filled =
      step-Filling (D.sync_all t s) (λ _. D.persist t path) s after
        (λ _ _. persist-Filling (D.sync_all t s).1 after ((laws.sync_all-keeps t s).1 ∙ filled))
    where
      after : Same (D.sync_all t s).1
      after = kept s (D.sync_all t s).1 same (laws.sync_all-keeps t s).0

  pub fill_and_rename-Filling :
      (s : D.State) → Same s → laws.content t s ≡ [] → Filling (fill_and_rename D path blob t s)
  fill_and_rename-Filling s same empty =
      step-Filling (D.set_private t s)
        (λ _. D.write_all t blob >> (D.sync_all t >> D.persist t path)) s private
        (λ _ _.
          step-Filling (D.write_all t blob middle) (λ _. D.sync_all t >> D.persist t path) middle
            written
            (λ _ e. synced-Filling (D.write_all t blob middle).1 written (
              laws.write_all-content t blob middle e
              ∙ ap (λ c. c ++ blob) ((laws.set_private-keeps t s).1 ∙ empty))))
    where
      middle : D.State
      middle = (D.set_private t s).1

      private : Same middle
      private = kept s middle same (laws.set_private-keeps t s).0

      written : Same (D.write_all t blob middle).1
      written =
          kept middle (D.write_all t blob middle).1 private (laws.write_all-keeps t blob middle)
