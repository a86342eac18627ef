-- ===== src/Storage/Atomic.antt =====
-- A file written atomically is the new one or the old one.
use fortresswallet.Base.{
  ℕ, ◌≡◌, ◌≢◌, ◌⊎◌, inl, inr, refl, sym, ap, subst, arith, ◌∙◌, List, [], Result, ok, err, panic,
}
use fortresswallet.Base.Action.{map_action, ◌>>=◌}
use fortresswallet.Storage.{StorageError, io}
use fortresswallet.Storage.Files.Laws.{DiskLaws}
use fortresswallet.Storage.Filling.{Filling, fill_and_rename-Filling}
use fortresswallet.Storage.Files.{Disk, dir_of, dropping, fill_and_rename, write_atomic}

-- The new file is there, or nothing has happened to the files; the others stay in both cases, and
-- no other file appears.
pub record Atomic (D : Disk) (path : D.FilePath) (blob : List ℕ) (before : D.State) {E : Type 0}
    (end : Result (Unit {0}) E × D.State) : Type 0 where
  pub new_file : end.0 ≡ ok tt → D.read path end.1 ≡ ok blob
  pub old_files :
      (p : D.FilePath) (b : List ℕ)
      → D.read p before ≡ ok b
      → (p ≢ path) ⊎ (end.0 ≢ ok tt)
      → D.read p end.1 ≡ ok b
  pub no_more :
      (p : D.FilePath) (b : List ℕ)
      → D.read p end.1 ≡ ok b
      → (p ≢ path) ⊎ (end.0 ≢ ok tt)
      → D.read p before ≡ ok b

module _ (D : Disk) (laws : DiskLaws D) (path : D.FilePath) (blob : List ℕ) (before : D.State) where
  abbrev Ends : {E : Type 0} → Result (Unit {0}) E × D.State → Type 0
  Ends end = Atomic D path blob before end

  module _ (t : D.Temp)
      (fresh : (p : D.FilePath) (b : List ℕ) → D.read p before ≡ ok b → p ≢ laws.temp_path t) where
    -- Where the temporary file is removed, nothing has happened.
    removed-Atomic :
        (r : Result (Unit {0}) D.IoError) (after : D.State)
        → r ≢ ok tt
        → Filling D laws path blob before t (r, after)
        → Ends (r, D.remove t after)
    removed-Atomic r after bad good = record {
      new_file = λ h. absurd (bad h);
      old_files = λ p b h _.
          laws.remove-keeps t after p (fresh p b h) ∙ (good.others p (fresh p b h) (inr bad) b).0 h;
      no_more = λ p b h _. elim (laws.path_eq p (laws.temp_path t)) [
        | inl e ↦
            absurd
              (laws.remove-gone t after b (subst (λ q. D.read q (D.remove t after) ≡ ok b) e h))
        | inr other ↦
            (good.others p other (inr bad) b).1 (sym (laws.remove-keeps t after p other) ∙ h)
      ];
    }

    dropping-Atomic :
        (end : Result (Unit {0}) D.IoError × D.State) (s : D.State)
        → Filling D laws path blob before t end
        → Ends (dropping D t (λ _. end) s)
    dropping-Atomic (ok u, after) s good = record {
      new_file = λ h. good.done refl;
      old_files = λ p b h why. (good.others p (fresh p b h) why b).0 h;
      no_more = λ p b h why. elim (laws.path_eq p (laws.temp_path t)) [
        | inl e ↦ elim why [
          | inl off ↦ absurd (off (e ∙ good.moved refl b (subst (λ q. D.read q after ≡ ok b) e h)))
          | inr bad ↦ absurd (bad refl)
        ]
        | inr other ↦ (good.others p other why b).1 h
      ];
    }
    dropping-Atomic (err e, after) s good = removed-Atomic (err e) after (λ h. cc) good
    dropping-Atomic (panic, after) s good = removed-Atomic panic after (λ h. cc) good

  -- What the making of the temporary file ends with.
  record Opening (end : Result D.Temp D.IoError × D.State) : Type 0 where
    pub keeps : (p : D.FilePath) (b : List ℕ) → D.read p before ≡ ok b → D.read p end.1 ≡ ok b
    pub only :
        (p : D.FilePath) (b : List ℕ)
        → D.read p end.1 ≡ ok b
        → (D.read p before ≡ ok b) ⊎ ((t : D.Temp) × (end.0 ≡ ok t) × (p ≡ laws.temp_path t))
    pub made :
        (t : D.Temp)
        → end.0 ≡ ok t
        → (laws.content t end.1 ≡ [])
          × ((p : D.FilePath) (b : List ℕ) → D.read p before ≡ ok b → p ≢ laws.temp_path t)

  unopened-Atomic :
      (r : Result (Unit {0}) D.IoError) (made : Result D.Temp D.IoError) (after : D.State)
      → r ≢ ok tt
      → ((t : D.Temp) → made ≢ ok t)
      → Opening (made, after)
      → Ends (r, after)
  unopened-Atomic r made after bad none_made o = record {
    new_file = λ h. absurd (bad h);
    old_files = λ p b h _. o.keeps p b h;
    no_more =
        λ p b h _. elim (o.only p b h) [ inl was ↦ was | inr (t, e, _) ↦ absurd (none_made t e) ];
  }

  Opening-Atomic :
      (end : Result D.Temp D.IoError × D.State) (s : D.State)
      → Opening end
      → Ends (((λ _. end) >>= (λ tmp. dropping D tmp (fill_and_rename D path blob tmp))) s)
  Opening-Atomic (ok t, after) s o =
      let (empty, fresh) = o.made t refl in
      dropping-Atomic t fresh (fill_and_rename D path blob t after) after (
        fill_and_rename-Filling D laws path blob before t after
          (λ p other b. (
            o.keeps p b,
            λ h. elim (o.only p b h) [
              | inl was ↦ was
              | inr (t2, e, at_temp) ↦
                  let same : t ≡ t2 = ground (arith, e) in
                  absurd (other (at_temp ∙ ap laws.temp_path (sym same)))
            ],
          ))
          empty)
  Opening-Atomic (err e, after) s o = unopened-Atomic (err e) (err e) after (λ h. cc) (λ t h. cc) o
  Opening-Atomic (panic, after) s o = unopened-Atomic panic panic after (λ h. cc) (λ t h. cc) o

  map_action-Atomic :
      (end : Result (Unit {0}) D.IoError × D.State) (s : D.State)
      → Ends end
      → Ends {E = StorageError D.IoError} (map_action io (λ _. end) s)
  map_action-Atomic (ok u, after) s good = record {
    new_file = λ h. good.new_file refl;
    old_files = λ p b h why.
        good.old_files p b h (elim why [ inl other ↦ inl other | inr bad ↦ absurd (bad refl) ]);
    no_more = λ p b h why.
        good.no_more p b h (elim why [ inl other ↦ inl other | inr bad ↦ absurd (bad refl) ]);
  }
  map_action-Atomic (err e, after) s good = record {
    new_file = λ h. cc;
    old_files = λ p b h why. good.old_files p b h (inr (λ q. cc));
    no_more = λ p b h why. good.no_more p b h (inr (λ q. cc));
  }
  map_action-Atomic (panic, after) s good = record {
    new_file = λ h. cc;
    old_files = λ p b h why. good.old_files p b h (inr (λ q. cc));
    no_more = λ p b h why. good.no_more p b h (inr (λ q. cc));
  }

  -- Under the laws of the disk: after a write that succeeds the file has the new bytes, and every
  -- other file can be read exactly where it could before, with the same bytes. After a write that
  -- fails at any step, or panics, that holds of every file, the target included: no temporary file
  -- is left.
  pub write_atomic-Atomic : Atomic D path blob before (write_atomic D path blob before)
  unfolding write_atomic
  write_atomic-Atomic =
      let dir = dir_of D path in
      map_action-Atomic _ before (
        Opening-Atomic (D.new_in dir before) before (record {
          keeps = laws.new_in-keeps dir before;
          only = laws.new_in-only dir before;
          made = laws.new_in-new dir before;
        }))
