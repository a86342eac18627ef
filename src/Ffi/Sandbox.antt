-- ===== src/Ffi/Sandbox.antt =====
-- What the sandbox of the host's paths lets through, and what it has created by then.
use fortresswallet.Base.{
  ◌≡◌, refl, sym, ap, subst, ◌∙◌, Result-cases, done, failed, panics, true, false, Bool-cases, inl,
  inr, Option, none, some, Result, ok, err, arith,
}
use fortresswallet.Storage.Files.{Disk}
use fortresswallet.Wallet.{Folders}
use fortresswallet.Rpc.Client.{Net}
use fortresswallet.Ffi.{Host, FfiError, no_base_dir, sandbox_escape, validate_dir}

module _ (D : Disk) (F : Folders D) (H : Host D) (N : Net D.State) where
  open D use {State, FilePath, IoError}
  open N use {Code, Message}

  -- Without a base directory nothing happens. With one, the directory has been created before it is
  -- checked, whatever becomes of it; a path that is returned is the canonical one and lies under the
  -- canonical base; a path that does not is refused.
  pub record IsSandboxed (base : Option FilePath) (dir : FilePath) (before : State)
      (end : Result FilePath (FfiError IoError Code Message) × State) : Type 0 where
    pub unset : base ≡ none → end ≡ (err no_base_dir, before)
    pub created : (b : FilePath) → base ≡ some b → end.1 ≡ (F.create_dir_all dir before).1
    pub inside :
        (b path : FilePath)
        → base ≡ some b
        → end.0 ≡ ok path
        → (root : FilePath) × (H.canonicalize dir end.1 ≡ ok path)
          × (H.canonicalize b end.1 ≡ ok root)
          × (H.starts_with path root ≡ true)
    pub outside :
        (b path root : FilePath)
        → base ≡ some b
        → H.canonicalize dir end.1 ≡ ok path
        → H.canonicalize b end.1 ≡ ok root
        → H.starts_with path root ≡ false
        → end.0 ≡ err sandbox_escape

  module _ (b dir : FilePath) (s : State) where
    abbrev made : State
    made = (F.create_dir_all dir s).1

    abbrev run : Result FilePath (FfiError IoError Code Message) × State
    run = validate_dir D F H (some b) N dir s

    run-made : run.1 ≡ made
    unfolding validate_dir
    run-made = elim (Result-cases (H.canonicalize dir made)) [
      | done path e ↦ elim (Result-cases (H.canonicalize b made)) [
        | done root e' ↦ ground (arith, e, e')
        | failed x e' ↦ ground (arith, e, e')
        | panics e' ↦ ground (arith, e, e')
      ]
      | failed x e ↦ ground (arith, e)
      | panics e ↦ ground (arith, e)
    ]

    run-inside :
        (path : FilePath)
        → run.0 ≡ ok path
        → (root : FilePath) × (H.canonicalize dir made ≡ ok path)
          × (H.canonicalize b made ≡ ok root)
          × (H.starts_with path root ≡ true)
    unfolding validate_dir
    run-inside path h = elim (Result-cases (H.canonicalize dir made)) [
      | done found e ↦ elim (Result-cases (H.canonicalize b made)) [
        | done root e' ↦ elim (Bool-cases (H.starts_with found root)) [
          | inl under ↦
              let same : found ≡ path = ground (arith, e, e', under, h) in
              (root, e ∙ ap ok same, e', ap (λ p. H.starts_with p root) (sym same) ∙ under)
          | inr escapes ↦ absurd (ground (arith, e, e', escapes, h))
        ]
        | failed x e' ↦ absurd (ground (arith, e, e', h))
        | panics e' ↦ absurd (ground (arith, e, e', h))
      ]
      | failed x e ↦ absurd (ground (arith, e, h))
      | panics e ↦ absurd (ground (arith, e, h))
    ]

    run-outside :
        (path root : FilePath)
        → H.canonicalize dir made ≡ ok path
        → H.canonicalize b made ≡ ok root
        → H.starts_with path root ≡ false
        → run.0 ≡ err sandbox_escape
    unfolding validate_dir
    run-outside path root e e' escapes = ground (arith, e, e', escapes)

  -- For every base, directory and state: `validate_dir` returns only the canonical path of the
  -- directory, and only if it lies under the canonical base directory, and refuses a path that does
  -- not; but with a base set it has created the directory in every case, also where it refuses it.
  pub validate_dir-IsSandboxed :
      (base : Option FilePath) (dir : FilePath) (s : State)
      → IsSandboxed base dir s (validate_dir D F H base N dir s)
  unfolding validate_dir
  validate_dir-IsSandboxed none dir s = record {
    unset = λ h. refl;
    created = λ b h. absurd (cc (h));
    inside = λ b path h. absurd (cc (h));
    outside = λ b path root h. absurd (cc (h));
  }
  validate_dir-IsSandboxed (some b) dir s = record {
    unset = λ h. absurd (cc (h));
    created = λ b' h. run-made b dir s;
    inside = λ b' path h passed.
        let (root, found, base_found, under) = run-inside b dir s path passed in
        let same : b ≡ b' = ground (arith, h) in
        let stay = sym (run-made b dir s) in
        (
          root,
          subst (λ t. H.canonicalize dir t ≡ ok path) stay found,
          subst (λ t. H.canonicalize b' t ≡ ok root) stay
              (subst (λ q. H.canonicalize q (made b dir s) ≡ ok root) same base_found),
          under,
        );
    outside = λ b' path root h found base_found escapes.
        let same : b' ≡ b = ground (arith, h) in
        let stay = run-made b dir s in
        run-outside b dir s path root (subst (λ t. H.canonicalize dir t ≡ ok path) stay found)
          (subst (λ t. H.canonicalize b t ≡ ok root) stay
            (subst (λ q. H.canonicalize q (run b dir s).1 ≡ ok root) same base_found))
          escapes;
  }
