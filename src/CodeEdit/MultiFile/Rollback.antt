-- ===== src/CodeEdit/MultiFile/Rollback.antt =====
-- What a batch leaves when it is rolled back.
use plugin_baselithbot.ComputerUse.Filesystem.Kept.{Result-cases}
use plugin_baselithbot.Common.{
  ℕ, String, ◌≡◌, refl, ap, ◌∙◌, inl, inr, Bool, true, false, ◌&&◌, Option, none, some, List, [],
  ◌∷◌, ◌++◌, if◌then◌else◌, Bool-cases, is_some, and_left, and_right, arith,
}
use plugin_baselithbot.ComputerUse.Paths.{FilePath, same_path, Host, IsLawful}
use plugin_baselithbot.ComputerUse.Filesystem.{
  Result, ok, refused, raised, ScopedFileSystem, read, write,
}
use plugin_baselithbot.ComputerUse.Filesystem.Confined.{
  writes, step, Kept, Kept-refl, Kept-trans, step-Kept,
}
use plugin_baselithbot.CodeEdit.MultiFile.{
  MultiFileEdit, Backup, value, restore, rollback, backup_of, apply_each,
}
use plugin_baselithbot.CodeEdit.MultiFile.Restore.{
  leads_to, resolve_path-same, write-elsewhere, write-there,
}

module _ (H : Host) where
  -- The content in the first backup of a path, of those that lead to it.
  unfoldable pub first_for : ScopedFileSystem H → FilePath → List Backup → Option String
  unfolding leads_to
  first_for f t [] = none
  first_for f t ((p, none) ∷ bs) = first_for f t bs
  first_for f t ((p, some c) ∷ bs) = if leads_to H f p t then some c else first_for f t bs

  -- Whether the write of a backup returns.
  abbrev pub is_restored : ScopedFileSystem H → Backup → ℕ → Bool
  unfolding write
  is_restored f (p, none) now = true
  is_restored f (p, some c) now = is_some (value (write H f p c now).1)

  -- Whether every write of a rollback returns.
  unfoldable pub all_restored : ScopedFileSystem H → List Backup → ℕ → Bool
  unfolding rollback
  all_restored f [] now = true
  all_restored f (b ∷ bs) now = all_restored f bs now && is_restored (rollback H f bs now) b now

  -- The backups and the file system where a write of the batch fails.
  unfoldable pub failing :
      ScopedFileSystem H
      → List MultiFileEdit
      → List Backup
      → ℕ
      → Option (ScopedFileSystem H × List Backup)
  unfolding read write
  failing f [] bs now = none
  failing f (edit ∷ edits) bs now =
      let (g, previous) = read H f edit.path now in
      let bs' = bs ++ backup_of H edit.path previous ∷ [] in
      let (h, written) = write H g edit.path edit.content now in
      let rest = failing h edits bs' now in if is_some (value written) then rest else some (h, bs')

value-ok {ℓ} : {A : Type ℓ} (r : Result A) → is_some (value r) ≡ true → (a : A) × (r ≡ ok a)
value-ok (ok a) h = (a, refl)
value-ok (refused e) h = absurd (ground arith)
value-ok (raised n) h = absurd (ground arith)

module _ {H : Host} (L : IsLawful H) where
  restore-Kept :
      (f : ScopedFileSystem H) (root : FilePath) (b : Backup) (now : ℕ)
      → f.root ≡ some root
      → Kept L root f (restore H f b now)
  unfolding step
  restore-Kept f root (p, none) now rooted = Kept-refl L root f
  restore-Kept f root (p, some c) now rooted = step-Kept L f root (writes p c now) rooted

  rollback-Kept :
      (f : ScopedFileSystem H) (root : FilePath) (bs : List Backup) (now : ℕ)
      → f.root ≡ some root
      → Kept L root f (rollback H f bs now)
  unfolding rollback
  rollback-Kept f root [] now rooted = Kept-refl L root f
  rollback-Kept f root (b ∷ bs) now rooted =
      let kept = rollback-Kept f root bs now rooted in
      let g = rollback H f bs now in
      Kept-trans L root f g (restore H g b now) kept (restore-Kept g root b now (kept.1 ∙ rooted))

  pub leads-same :
      (f g : ScopedFileSystem H) (root : FilePath) (p : String) (t : FilePath)
      → f.root ≡ some root
      → Kept L root f g
      → leads_to H g p t ≡ leads_to H f p t
  unfolding leads_to
  leads-same f g root p t rooted kept =
      ap (λ r. elim (value r) [ none ↦ false | some u ↦ same_path u t ])
        (resolve_path-same L f g root p rooted kept)

  -- A rollback whose writes return gives a file the content of its first backup, and leaves the others.
  pub rollback-content :
      (f : ScopedFileSystem H) (root : FilePath) (bs : List Backup) (now : ℕ) (t : FilePath)
      → f.root ≡ some root
      → H.resolve f.disk t ≡ t
      → all_restored H f bs now ≡ true
      → H.content (rollback H f bs now).disk t
        ≡ elim (first_for H f t bs) [ none ↦ H.content f.disk t | some c ↦ some (H.encode c) ]
  unfolding rollback first_for all_restored
  rollback-content f root [] now t rooted r h = refl
  rollback-content f root ((p, none) ∷ bs) now t rooted r h =
      rollback-content f root bs now t rooted r (and_left (all_restored H f bs now) true h)
  rollback-content f root ((p, some c) ∷ bs) now t rooted r h =
      let g = rollback H f bs now in
      let kept = rollback-Kept f root bs now rooted in
      let before = and_left (all_restored H f bs now) (is_restored H g (p, some c) now) h in
      let returns = and_right (all_restored H f bs now) (is_restored H g (p, some c) now) h in
      let leads = leads-same f g root p t rooted kept in
      elim (Bool-cases (leads_to H f p t)) [
        | inl e ↦
            let (w, same) = value-ok (write H g p c now).1 returns in
            rw (first_for, e) (write-there L g root p c now t w (kept.1 ∙ rooted) (leads ∙ e) same)
        | inr e ↦
            rw (first_for, e)
              (write-elsewhere L g root p c now t (kept.1 ∙ rooted) (kept.0.0 t ∙ r) (leads ∙ e)
                ∙ rollback-content f root bs now t rooted r before)
      ]

pub apply_each-failing :
    (H : Host) (f h : ScopedFileSystem H) (edits : List MultiFileEdit) (bs saved : List Backup)
    (applied : List (String × ℕ)) (now : ℕ)
    → failing H f edits bs now ≡ some (h, saved)
    → (apply_each H f edits bs applied now).0 ≡ rollback H h saved now
unfolding failing apply_each
apply_each-failing H f h [] bs saved applied now e = absurd (ground arith)
apply_each-failing H f h (edit ∷ edits) bs saved applied now e =
    let (g, previous) = read H f edit.path now in
    let bs' = bs ++ backup_of H edit.path previous ∷ [] in
    let (f', written) = write H g edit.path edit.content now in
    let stops : is_some (value written) ≡ false → rollback H f' bs' now ≡ rollback H h saved now =
      λ no.
        let same_fs : f' ≡ h = ground arith in
        let same_bs : bs' ≡ saved = ground arith in rw (same_fs, same_bs) refl in
    elim (Result-cases written) [
      | inl (w, r) ↦
          rw (apply_each, r)
            (apply_each-failing H f' h edits bs' saved
              (applied ++ (edit.path, w.bytes_written) ∷ []) now (ground arith))
      | inr (inl (error, r)) ↦ rw (apply_each, r) (stops (ap (λ x. is_some (value x)) r))
      | inr (inr (name, r)) ↦ rw (apply_each, r) (stops (ap (λ x. is_some (value x)) r))
    ]
