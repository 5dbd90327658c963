-- ===== src/CodeEdit/MultiFile/Intact.antt =====
-- A batch that fails leaves the files that were there as they were.
use plugin_baselithbot.Common.{
  ℕ, String, ◌≡◌, refl, ◌∙◌, ◌⊎◌, inl, inr, false, none, some, List, [], ◌∷◌, ◌++◌, ltb,
  if◌then◌else◌, Bool-cases, ap, Option, Option-cases, subst, arith, is_some, true,
}
use plugin_baselithbot.ComputerUse.Config.{require_enabled}
use plugin_baselithbot.ComputerUse.Paths.{FilePath, Host, IsLawful}
use plugin_baselithbot.ComputerUse.Filesystem.{read_text, ScopedFileSystem, read, write}
use plugin_baselithbot.ComputerUse.Filesystem.Confined.{
  Kept, reads, step-Kept, writes, step, Kept-trans, Kept-refl,
}
use plugin_baselithbot.CodeEdit.MultiFile.{Backup, backup_of, MultiFileEdit, value, apply}
use plugin_baselithbot.CodeEdit.MultiFile.Rollback.{
  first_for, all_restored, failing, leads-same, rollback-content, apply_each-failing,
}
use plugin_baselithbot.CodeEdit.MultiFile.Restore.{
  leads_to, read-same, off-same, write-elsewhere, read-there, write-config,
}

first_for-append :
    (H : Host) (f : ScopedFileSystem H) (t : FilePath) (bs : List Backup) (b : Backup)
    → first_for H f t (bs ++ b ∷ [])
      ≡ elim (first_for H f t bs) [ none ↦ first_for H f t (b ∷ []) | some c ↦ some c ]
unfolding first_for
first_for-append H f t [] b = refl
first_for-append H f t ((p, none) ∷ bs) b = first_for-append H f t bs b
first_for-append H f t ((p, some c) ∷ bs) b = elim (Bool-cases (leads_to H f p t)) [
  | inl e ↦ rw (first_for, e) refl
  | inr e ↦ rw (first_for, e) (first_for-append H f t bs b)
]

-- One backup, of a path that leads to the file or does not.
first_for-one :
    (H : Host) (f : ScopedFileSystem H) (t : FilePath) (p c : String)
    → first_for H f t ((p, some c) ∷ []) ≡ (if leads_to H f p t then some c else none)
unfolding first_for
first_for-one H f t p c = refl

first_for-away :
    (H : Host) (f : ScopedFileSystem H) (t : FilePath) (p : String) (o : Option String)
    → leads_to H f p t ≡ false
    → first_for H f t ((p, o) ∷ []) ≡ none
unfolding first_for
first_for-away H f t p none e = refl
first_for-away H f t p (some c) e = rw (first_for, e) refl

module _ {H : Host} (L : IsLawful H) where
  first_for-same :
      (f g : ScopedFileSystem H) (root : FilePath) (t : FilePath) (bs : List Backup)
      → f.root ≡ some root
      → Kept L root f g
      → first_for H g t bs ≡ first_for H f t bs
  unfolding first_for
  first_for-same f g root t [] rooted kept = refl
  first_for-same f g root t ((p, none) ∷ bs) rooted kept = first_for-same f g root t bs rooted kept
  first_for-same f g root t ((p, some c) ∷ bs) rooted kept =
      rw
        (first_for, leads-same L f g root p t rooted kept, first_for-same f g root t bs rooted kept)
        refl

  module _ (start : ScopedFileSystem H) (root t : FilePath) (s : String)
      (rooted : start.root ≡ some root) (resolved : H.resolve start.disk t ≡ t)
      (plain : read_text s ≡ s)
      (small : ltb start.config.filesystem_max_bytes (H.byte_count (H.encode s)) ≡ false) where
    -- The file's text is in its first backup, or is still there with no backup.
    abbrev Saved : ScopedFileSystem H → List Backup → Type 0
    Saved f bs =
        (first_for H start t bs ≡ some s)
        ⊎ ((first_for H start t bs ≡ none) × (H.content f.disk t ≡ some (H.encode s)))

    abbrev IsCurrent : ScopedFileSystem H → Type 0
    IsCurrent f = Kept L root start f × (f.config ≡ start.config)

    -- An edit backs the file up before it changes it.
    edit-Saved :
        (f : ScopedFileSystem H) (bs : List Backup) (path content : String) (now : ℕ)
        → IsCurrent f
        → Saved f bs
        → let (g, previous) = read H f path now in
          Saved (write H g path content now).0 (bs ++ backup_of H path previous ∷ [])
    unfolding first_for read step
    edit-Saved f bs path content now (kept, config) (inl e) =
        inl (first_for-append H start t bs (backup_of H path (read H f path now).1) ∙ rw e refl)
    edit-Saved f bs path content now (kept, config) (inr (e, there)) =
        let (g, previous) = read H f path now in
        let b = backup_of H path previous in
        let more = first_for-append H start t bs b ∙ rw e refl in
        let (same_config, same_disk) = read-same L f path now in
        let leads = leads-same L start f root path t rooted kept in
        let read_kept = step-Kept L f root (reads path now) (kept.1 ∙ rooted) in
        let unread = ap (λ d. H.content d t) same_disk ∙ there in
        elim (Bool-cases (leads_to H start path t)) [
          | inr away ↦ inr (
            more ∙ first_for-away H start t path b.1 away,
            write-elsewhere L g root path content now t (read_kept.1 ∙ kept.1 ∙ rooted)
                  (read_kept.0.0 t ∙ kept.0.0 t ∙ resolved)
                  (leads-same L f g root path t (kept.1 ∙ rooted) read_kept ∙ leads ∙ away)
                ∙ unread,
          )
          | inl here ↦ elim (Option-cases (require_enabled f.config "filesystem")) [
            | inr (error, off) ↦
                let off_here = off-same L f path content now error off in
                let off_there =
                  off-same L g path content now error
                    (ap (λ c. require_enabled c "filesystem") same_config ∙ off) in
                inr (
                  more ∙ ap (λ o. first_for H start t (o ∷ [])) off_here.0,
                  ap (λ d. H.content d t) off_there.1 ∙ unread,
                )
            | inl on ↦
                let fits =
                  ap (λ c. ltb c.filesystem_max_bytes (H.byte_count (H.encode s))) config ∙ small in
                let saved = read-there L f path s now t on (leads ∙ here) there fits in
                inl (
                  more
                  ∙ ap (λ o. first_for H start t (o ∷ [])) saved
                  ∙ first_for-one H start t path (read_text s)
                  ∙ rw here (ap some plain))
          ]
        ]

    write-IsCurrent :
        (f : ScopedFileSystem H) (path content : String) (now : ℕ)
        → IsCurrent f
        → IsCurrent (write H (read H f path now).0 path content now).0
    unfolding step
    write-IsCurrent f path content now (kept, config) =
        let g = (read H f path now).0 in
        let h = (write H g path content now).0 in
        let read_kept = step-Kept L f root (reads path now) (kept.1 ∙ rooted) in
        let write_kept =
          step-Kept L g root (writes path content now) (read_kept.1 ∙ kept.1 ∙ rooted) in
        (
          Kept-trans L root start f h kept (Kept-trans L root f g h read_kept write_kept),
          write-config L g path content now ∙ (read-same L f path now).0 ∙ config,
        )

    failing-Saved :
        (f h : ScopedFileSystem H) (edits : List MultiFileEdit) (bs saved : List Backup) (now : ℕ)
        → IsCurrent f
        → Saved f bs
        → failing H f edits bs now ≡ some (h, saved)
        → IsCurrent h × Saved h saved
    unfolding failing
    failing-Saved f h [] bs saved now i j e = absurd (ground arith)
    failing-Saved f h (edit ∷ edits) bs saved now i j e =
        let (g, previous) = read H f edit.path now in
        let bs' = bs ++ backup_of H edit.path previous ∷ [] in
        let (f', written) = write H g edit.path edit.content now in
        let i' = write-IsCurrent f edit.path edit.content now i in
        let j' = edit-Saved f bs edit.path edit.content now i j in
        elim (Bool-cases (is_some (value written))) [
          | inl goes ↦ failing-Saved f' h edits bs' saved now i' j' (ground arith)
          | inr fails ↦
              let same_fs : f' ≡ h = ground arith in
              let same_bs : bs' ≡ saved = ground arith in
              (
                subst IsCurrent same_fs i',
                subst (λ x. Saved x saved) same_fs (subst (Saved f') same_bs j'),
              )
        ]

module _ {H : Host} (L : IsLawful H) where
  -- On a host with the laws of a file system: when a write of a batch fails and the writes of the rollback
  -- return, every file that was within the size limit and held the bytes of a text with no carriage
  -- return has them again, however often and under whatever paths the batch edits it.
  pub apply-restores :
      (f h : ScopedFileSystem H) (edits : List MultiFileEdit) (saved : List Backup) (now : ℕ)
      (root t : FilePath) (s : String)
      → f.root ≡ some root
      → H.resolve f.disk t ≡ t
      → H.content f.disk t ≡ some (H.encode s)
      → read_text s ≡ s
      → ltb f.config.filesystem_max_bytes (H.byte_count (H.encode s)) ≡ false
      → failing H f edits [] now ≡ some (h, saved)
      → all_restored H h saved now ≡ true
      → H.content (apply H f edits now).0.disk t ≡ some (H.encode s)
  unfolding apply first_for
  apply-restores f h edits saved now root t s rooted resolved there plain small fails restored =
      let ((kept, config), still) =
        failing-Saved L f root t s rooted resolved plain small f h edits [] saved now
          (Kept-refl L root f, refl) (inr (refl, there)) fails in
      let rolled =
        rollback-content L h root saved now t (kept.1 ∙ rooted) (kept.0.0 t ∙ resolved) restored in
      let first = first_for-same L f h root t saved rooted kept in
      ap (λ g. H.content g.disk t) (apply_each-failing H f h edits [] saved [] now fails)
      ∙ rolled
      ∙ elim still [ inl e ↦ rw (first, e) refl | inr (e, current) ↦ rw (first, e) current ]
