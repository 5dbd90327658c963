-- ===== src/ComputerUse/Filesystem/Confined.antt =====
-- Nothing outside the root is changed.
use plugin_baselithbot.Common.{
  ℕ, String, ◌≡◌, refl, sym, ◌∙◌, subst, inl, inr, Bool, true, false, some, List, [], ◌∷◌, arith,
  ltb, Bool-cases, Option-cases,
}
use plugin_baselithbot.ComputerUse.Audit.{record_action}
use plugin_baselithbot.ComputerUse.Config.{require_enabled}
use plugin_baselithbot.Security.Redaction.{Fields, end}
use plugin_baselithbot.ComputerUse.Paths.{FilePath, is_under, join_path, Host, IsLawful}
use plugin_baselithbot.ComputerUse.Filesystem.{
  Result, ok, ScopedFileSystem, gate, resolve_path, at_path, path_fields, read_at, read, verify,
  put_file, stored, store, write_at, write, list_at, list_dir,
}
use plugin_baselithbot.ComputerUse.Filesystem.Kept.{
  Result-cases, Keeps, Keeps-refl, Keeps-trans, put_file-Keeps,
}

pub data Call : Type 0 where
  reads : String → ℕ → Call
  writes : String → String → ℕ → Call
  lists : String → ℕ → Call

module _ {H : Host} where
  unfoldable pub step : ScopedFileSystem H → Call → ScopedFileSystem H
  unfolding read write list_dir
  step f (reads path now) = (read H f path now).0
  step f (writes path content now) = (write H f path content now).0
  step f (lists path now) = (list_dir H f path now).0

  unfoldable pub run : ScopedFileSystem H → List Call → ScopedFileSystem H
  unfolding step
  run f [] = f
  run f (c ∷ cs) = run (step f c) cs

module _ {H : Host} (L : IsLawful H) where
  -- A path that is resolved lies under the root, and resolving it again leads to it.
  pub resolve_path-inside :
      (f : ScopedFileSystem H) (root : FilePath) (path : String) (target : FilePath)
      → f.root ≡ some root
      → resolve_path H f path ≡ ok target
      → (is_under root target ≡ true) × (H.resolve f.disk target ≡ target)
  unfolding resolve_path
  resolve_path-inside f root path target rooted e =
      let candidate = H.resolve f.disk (join_path root path) in
      let same : candidate ≡ target = ground arith in
      (
        ground arith,
        subst (λ p. H.resolve f.disk p ≡ p) same (L.resolve-resolve f.disk (join_path root path)),
      )

  abbrev pub Kept : FilePath → ScopedFileSystem H → ScopedFileSystem H → Type 0
  Kept root f g = Keeps L root f.disk g.disk × (g.root ≡ f.root)

  pub Kept-refl : (root : FilePath) (f : ScopedFileSystem H) → Kept root f f
  Kept-refl root f = (Keeps-refl L root f.disk, refl)

  at_path-Kept {ℓ} :
      {A : Type ℓ} (f : ScopedFileSystem H) (root : FilePath) (path : String)
      (action : FilePath → ScopedFileSystem H × Result A)
      → f.root ≡ some root
      → ((target : FilePath)
          → is_under root target ≡ true
          → H.resolve f.disk target ≡ target
          → Kept root f (action target).0)
      → Kept root f (at_path H f path action).0
  unfolding at_path is_under
  at_path-Kept f root path action rooted keeps =
      elim (Option-cases (require_enabled f.config "filesystem")) [
        | inr (error, e) ↦ rw (at_path, e) (Kept-refl root f)
        | inl e ↦ elim (Result-cases (resolve_path H f path)) [
          | inl (target, r) ↦
              let (inside, resolved) = resolve_path-inside f root path target rooted r in
              rw (at_path, e, r) (keeps target inside resolved)
          | inr (inl (error, r)) ↦ rw (at_path, e, r) (Kept-refl root f)
          | inr (inr (name, r)) ↦ rw (at_path, e, r) (Kept-refl root f)
        ]
      ]

  pub gate-same :
      (f : ScopedFileSystem H) (action : String) (params : Fields → Fields) (now : ℕ)
      → ((gate H f action params now).0.disk ≡ f.disk)
        × ((gate H f action params now).0.root ≡ f.root)
  unfolding gate
  gate-same f action params now = ground arith

  pub verify-same :
      (f : ScopedFileSystem H) (target : FilePath) (now : ℕ)
      → ((verify H f target now).0.disk ≡ f.disk) × ((verify H f target now).0.root ≡ f.root)
  unfolding verify
  verify-same f target now = ground arith

  pub stored-same :
      (f : ScopedFileSystem H) (content : String) (now : ℕ) (target : FilePath) (disk : H.State)
      (done : Bool)
      → ((stored H f content now target disk done).0.disk ≡ disk)
        × ((stored H f content now target disk done).0.root ≡ f.root)
  unfolding stored
  stored-same f content now target disk false = (refl, refl)
  stored-same f content now target disk true =
      verify-same
        (record f {
          disk = disk;
          audit =
              record_action f.audit "fs_write"
                (path_fields H target (H.byte_count (H.encode content)) end) now;
        })
        target now

  store-Kept :
      (f : ScopedFileSystem H) (root : FilePath) (content : String) (now : ℕ) (target : FilePath)
      → is_under root target ≡ true
      → H.resolve f.disk target ≡ target
      → Kept root f (store H f content now target).0
  unfolding store
  store-Kept f root content now target inside resolved =
      let (disk, done) = put_file H f.disk target content in
      let same = stored-same f content now target disk done in
      (
        subst (Keeps L root f.disk) (sym same.0)
            (put_file-Keeps L root f.disk target content resolved inside),
        same.1,
      )

  pub Kept-trans :
      (root : FilePath) (f g h : ScopedFileSystem H) → Kept root f g → Kept root g h → Kept root f h
  Kept-trans root f g h k l = (Keeps-trans L root f.disk g.disk h.disk k.0 l.0, l.1 ∙ k.1)

  same-Kept :
      (root : FilePath) (f g : ScopedFileSystem H)
      → g.disk ≡ f.disk
      → g.root ≡ f.root
      → Kept root f g
  same-Kept root f g d r = (subst (Keeps L root f.disk) (sym d) (Keeps-refl L root f.disk), r)

  pub write_at-Kept :
      (f : ScopedFileSystem H) (root : FilePath) (content : String) (now : ℕ) (target : FilePath)
      → is_under root target ≡ true
      → H.resolve f.disk target ≡ target
      → Kept root f (write_at H f content now target).0
  unfolding write_at is_under
  write_at-Kept f root content now target inside resolved =
      let size = H.byte_count (H.encode content) in
      let (g, stopped) = gate H f "fs_write" (path_fields H target size) now in
      let same = gate-same f "fs_write" (path_fields H target size) now in
      let kept = same-Kept root f g same.0 same.1 in
      elim (Bool-cases (ltb f.config.filesystem_max_bytes size)) [
        | inl e ↦ rw (write_at, e) (Kept-refl root f)
        | inr e ↦ elim (Option-cases stopped) [
          | inr (error, e') ↦ rw (write_at, e, e') kept
          | inl e' ↦
              rw (write_at, e, e')
                (Kept-trans root f g (store H g content now target).0 kept
                  (store-Kept g root content now target inside (kept.0.0 target ∙ resolved)))
        ]
      ]

  read-Kept :
      (f : ScopedFileSystem H) (root : FilePath) (path : String) (now : ℕ) (target : FilePath)
      → Kept root f (read_at H f path now target).0
  unfolding read_at
  read-Kept f root path now target =
      same-Kept root f (read_at H f path now target).0 (ground arith) (ground arith)

  list-Kept :
      (f : ScopedFileSystem H) (root : FilePath) (path : String) (now : ℕ) (target : FilePath)
      → Kept root f (list_at H f path now target).0
  unfolding list_at
  list-Kept f root path now target =
      same-Kept root f (list_at H f path now target).0 (ground arith) (ground arith)

  pub step-Kept :
      (f : ScopedFileSystem H) (root : FilePath) (c : Call)
      → f.root ≡ some root
      → Kept root f (step f c)
  unfolding step read write list_dir
  step-Kept f root (reads path now) rooted =
      at_path-Kept f root path (read_at H f path now) rooted
        (λ target i r. read-Kept f root path now target)
  step-Kept f root (writes path content now) rooted =
      at_path-Kept f root path (write_at H f content now) rooted (write_at-Kept f root content now)
  step-Kept f root (lists path now) rooted =
      at_path-Kept f root path (list_at H f path now) rooted
        (λ target i r. list-Kept f root path now target)

  run-Kept :
      (f : ScopedFileSystem H) (root : FilePath) (cs : List Call)
      → f.root ≡ some root
      → Kept root f (run f cs)
  unfolding run
  run-Kept f root [] rooted = Kept-refl root f
  run-Kept f root (c ∷ cs) rooted =
      let kept = step-Kept f root c rooted in
      Kept-trans root f (step f c) (run (step f c) cs) kept
        (run-Kept (step f c) root cs (kept.1 ∙ rooted))

  -- On a host with the laws of a file system, whatever files are read, written and listed through a scoped
  -- file system, with whatever texts as paths and whatever the operator answers, every file whose
  -- resolved path is not under the root keeps its bytes, or stays missing.
  pub run-confined :
      (f : ScopedFileSystem H) (root : FilePath) (cs : List Call) (q : FilePath)
      → f.root ≡ some root
      → H.resolve f.disk q ≡ q
      → is_under root q ≡ false
      → H.content (run f cs).disk q ≡ H.content f.disk q
  run-confined f root cs q rooted resolved out = (run-Kept f root cs rooted).0.1 q resolved out
