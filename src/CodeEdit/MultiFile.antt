-- ===== src/CodeEdit/MultiFile.antt =====
-- code_edit/multi_file.py: a batch of writes with a rollback.
pub mod Restore
pub mod Rollback
pub mod Intact
use plugin_baselithbot.Common.{ℕ, String, Option, none, some, List, [], ◌∷◌, ◌++◌, map}
use plugin_baselithbot.ComputerUse.Config.{ComputerUseError}
use plugin_baselithbot.ComputerUse.Paths.{Host}
use plugin_baselithbot.ComputerUse.Filesystem.{
  Result, ok, refused, raised, ReadResult, WriteResult, ScopedFileSystem, read, write,
}

pub record MultiFileEdit : Type 0 where
  pub path : String
  pub content : String

-- An exception that a method of the file system raised.
pub data Failure : Type 0 where
  refusal : ComputerUseError → Failure
  host_error : String → Failure

-- A path with the content that it had, where it could be read.
abbrev pub Backup : Type 0
Backup = String × Option String

pub data Answer : Type 0 where
  success : List (String × ℕ) → Answer
  rolled_back : Failure → List (String × ℕ) → List String → Answer

abbrev pub paths_of : List Backup → List String
paths_of bs = map (λ b. b.0) bs

-- What a result holds, where it is no failure.
abbrev pub value {ℓ} : {A : Type ℓ} → Result A → Option A
value (ok a) = some a
value (refused e) = none
value (raised n) = none

module _ (H : Host) where
  abbrev pub restore : ScopedFileSystem H → Backup → ℕ → ScopedFileSystem H
  unfolding write
  restore f (path, none) now = f
  restore f (path, some original) now = (write H f path original now).0

  -- The loop over the reversed backups: the last one is restored first.
  unfoldable pub rollback : ScopedFileSystem H → List Backup → ℕ → ScopedFileSystem H
  unfolding write
  rollback f [] now = f
  rollback f (b ∷ bs) now = restore (rollback f bs now) b now

  -- The content that a path has before it is written.
  abbrev pub backup_of : String → Result ReadResult → Backup
  backup_of path r = (path, elim (value r) [ none ↦ none | some previous ↦ some previous.content ])

  -- The loop of `apply`, and what it does when a write fails.
  unfoldable pub apply_each :
      ScopedFileSystem H
      → List MultiFileEdit
      → List Backup
      → List (String × ℕ)
      → ℕ
      → ScopedFileSystem H × Answer
  unfolding read write rollback
  apply_each f [] backups applied now = (f, success applied)
  apply_each f (edit ∷ edits) backups applied now =
      let (g, previous) = read H f edit.path now in
      let backups' = backups ++ backup_of edit.path previous ∷ [] in
      let (h, written) = write H g edit.path edit.content now in
      let applied' = λ (w : WriteResult). applied ++ (edit.path, w.bytes_written) ∷ [] in
      let rest = λ (w : WriteResult). apply_each h edits backups' (applied' w) now in
      elim written [
        | ok w ↦ rest w
        | refused e ↦ (rollback h backups' now, rolled_back (refusal e) applied (paths_of backups'))
        | raised n ↦
            (rollback h backups' now, rolled_back (host_error n) applied (paths_of backups'))
      ]

  unfoldable pub apply : ScopedFileSystem H → List MultiFileEdit → ℕ → ScopedFileSystem H × Answer
  unfolding apply_each
  apply f edits now = apply_each f edits [] [] now
