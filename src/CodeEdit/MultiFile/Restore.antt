-- ===== src/CodeEdit/MultiFile/Restore.antt =====
-- What a read and a write do to the file at one path.
use plugin_baselithbot.ComputerUse.Filesystem.Confined.{
  resolve_path-inside, Kept, gate-same, stored-same,
}
use plugin_baselithbot.ComputerUse.Paths.{FilePath, same_path, is_under, join_path, Host, IsLawful}
use plugin_baselithbot.ComputerUse.Filesystem.{
  Result, ok, refused, WriteResult, read_text, has_null, ScopedFileSystem, gate, resolve_path,
  at_path, path_fields, read_at, read, put_file, store, write_at, write,
}
use plugin_baselithbot.ComputerUse.Config.{
  null_byte, escapes_root, require_enabled, ComputerUseError,
}
use plugin_baselithbot.ComputerUse.Filesystem.Kept.{
  Result-cases, same_path→eq, content-put_file, content-put_file_other,
}
use plugin_baselithbot.ComputerUse.Filesystem.Resolution.{resolve_path-is_under}
use plugin_baselithbot.ComputerUse.Filesystem.Written.{stored-config, gate-config, write_at-Written}
use plugin_baselithbot.ComputerUse.Filesystem.RoundTrip.{at_path-ok, read_at-content, read-at}
use plugin_baselithbot.CodeEdit.MultiFile.{value, backup_of}
use plugin_baselithbot.Common.{
  ℕ, String, ◌≡◌, refl, sym, ap, ◌∙◌, inl, inr, Bool, false, none, some, arith, if◌then◌else◌,
  Bool-cases, Option-cases, subst, ◌⊎◌, true, ltb,
}

-- Whether a text is resolved to the path.
unfoldable pub leads_to : (H : Host) → ScopedFileSystem H → String → FilePath → Bool
unfolding same_path
leads_to H f path t = elim (value (resolve_path H f path)) [ none ↦ false | some u ↦ same_path u t ]

module _ {H : Host} (L : IsLawful H) where
  null-refused :
      (f : ScopedFileSystem H) (root : FilePath) (path : String)
      → f.root ≡ some root
      → has_null path ≡ true
      → resolve_path H f path ≡ refused null_byte
  unfolding resolve_path
  null-refused f root path rooted e = rw (rooted, e) refl

  pub resolve_path-same :
      (f g : ScopedFileSystem H) (root : FilePath) (path : String)
      → f.root ≡ some root
      → Kept L root f g
      → resolve_path H g path ≡ resolve_path H f path
  resolve_path-same f g root path rooted kept = elim (Bool-cases (has_null path)) [
    | inl e ↦ null-refused g root path (kept.1 ∙ rooted) e ∙ sym (null-refused f root path rooted e)
    | inr e ↦
        resolve_path-is_under L g root path (kept.1 ∙ rooted) e
        ∙ ap (λ c. if is_under root c then ok c else refused (escapes_root path))
            (kept.0.0 (join_path root path))
        ∙ sym (resolve_path-is_under L f root path rooted e)
  ]

  -- What an action keeps, at_path keeps.
  at_path-same {ℓ κ} :
      {A : Type ℓ} {B : Type κ} (view : ScopedFileSystem H → B) (f : ScopedFileSystem H)
      (path : String) (action : FilePath → ScopedFileSystem H × Result A)
      → ((target : FilePath) → view (action target).0 ≡ view f)
      → view (at_path H f path action).0 ≡ view f
  unfolding at_path
  at_path-same view f path action same =
      elim (Option-cases (require_enabled f.config "filesystem")) [
        | inr (error, e) ↦ rw (at_path, e) refl
        | inl e ↦ elim (Result-cases (resolve_path H f path)) [
          | inl (target, r) ↦ rw (at_path, e, r) (same target)
          | inr (inl (error, r)) ↦ rw (at_path, e, r) refl
          | inr (inr (name, r)) ↦ rw (at_path, e, r) refl
        ]
      ]

  pub read-same :
      (f : ScopedFileSystem H) (path : String) (now : ℕ)
      → ((read H f path now).0.config ≡ f.config) × ((read H f path now).0.disk ≡ f.disk)
  unfolding read read_at
  read-same f path now = (
    at_path-same (λ g. g.config) f path (read_at H f path now) (λ target. ground arith),
    at_path-same (λ g. g.disk) f path (read_at H f path now) (λ target. ground arith),
  )

  store-config :
      (f : ScopedFileSystem H) (content : String) (now : ℕ) (target : FilePath)
      → (store H f content now target).0.config ≡ f.config
  unfolding store
  store-config f content now target =
      let (disk, done) = put_file H f.disk target content in
      stored-config L f content now target disk done

  pub write-config :
      (f : ScopedFileSystem H) (path content : String) (now : ℕ)
      → (write H f path content now).0.config ≡ f.config
  unfolding write write_at
  write-config f path content now =
      at_path-same (λ g. g.config) f path (write_at H f content now)
        (λ target.
          let params = path_fields H target (H.byte_count (H.encode content)) in
          let g = (gate H f "fs_write" params now).0 in
          ground (arith, gate-config L f "fs_write" params now, store-config g content now target))

  -- With the capability off, a read fails and a write changes nothing.
  pub off-same :
      (f : ScopedFileSystem H) (path content : String) (now : ℕ) (error : ComputerUseError)
      → require_enabled f.config "filesystem" ≡ some error
      → (backup_of H path (read H f path now).1 ≡ (path, none))
        × ((write H f path content now).0.disk ≡ f.disk)
  unfolding read write at_path
  off-same f path content now error e = (rw (at_path, e) refl, rw (at_path, e) refl)

  -- A path that leads to another.
  leads-eq :
      (f : ScopedFileSystem H) (path : String) (u t : FilePath)
      → resolve_path H f path ≡ ok u
      → leads_to H f path t ≡ same_path u t
  unfolding leads_to
  leads-eq f path u t r = rw (leads_to, r) refl

  write_at-disk :
      (f : ScopedFileSystem H) (content : String) (now : ℕ) (target : FilePath)
      → ((write_at H f content now target).0.disk ≡ f.disk)
        ⊎ ((write_at H f content now target).0.disk ≡ (put_file H f.disk target content).0)
  unfolding write_at store
  write_at-disk f content now target =
      let params = path_fields H target (H.byte_count (H.encode content)) in
      let (g, stopped) = gate H f "fs_write" params now in
      let same = (gate-same L f "fs_write" params now).0 in
      let (disk, done) = put_file H g.disk target content in
      let put = (stored-same L g content now target disk done).0 in
      elim (Bool-cases (ltb f.config.filesystem_max_bytes (H.byte_count (H.encode content)))) [
        | inl e ↦ inl (rw (write_at, e) refl)
        | inr e ↦ elim (Option-cases stopped) [
          | inr (error, e') ↦ inl (rw (write_at, e, e') same)
          | inl e' ↦
              inr (rw (write_at, e, e') (put ∙ ap (λ s. (put_file H s target content).0) same))
        ]
      ]

  write_at-elsewhere :
      (f : ScopedFileSystem H) (content : String) (now : ℕ) (target t : FilePath)
      → H.resolve f.disk target ≡ target
      → H.resolve f.disk t ≡ t
      → same_path target t ≡ false
      → H.content (write_at H f content now target).0.disk t ≡ H.content f.disk t
  write_at-elsewhere f content now target t resolved r other =
      elim (write_at-disk f content now target) [
        | inl e ↦ ap (λ s. H.content s t) e
        | inr e ↦
            ap (λ s. H.content s t) e
            ∙ content-put_file_other L f.disk target t content resolved r other
      ]

  -- A write leaves a file as it is that its path does not lead to.
  pub write-elsewhere :
      (f : ScopedFileSystem H) (root : FilePath) (path content : String) (now : ℕ) (t : FilePath)
      → f.root ≡ some root
      → H.resolve f.disk t ≡ t
      → leads_to H f path t ≡ false
      → H.content (write H f path content now).0.disk t ≡ H.content f.disk t
  unfolding write at_path
  write-elsewhere f root path content now t rooted r away =
      elim (Option-cases (require_enabled f.config "filesystem")) [
        | inr (error, e) ↦ rw (at_path, e) refl
        | inl e ↦ elim (Result-cases (resolve_path H f path)) [
          | inl (u, e') ↦
              let (inside, resolved) = resolve_path-inside L f root path u rooted e' in
              rw (at_path, e, e')
                (write_at-elsewhere f content now u t resolved r
                  (sym (leads-eq f path u t e') ∙ away))
          | inr (inl (error, e')) ↦ rw (at_path, e, e') refl
          | inr (inr (name, e')) ↦ rw (at_path, e, e') refl
        ]
      ]

  -- A write that returns has put the file that its path leads to.
  pub write-there :
      (f : ScopedFileSystem H) (root : FilePath) (path content : String) (now : ℕ) (t : FilePath)
      (w : WriteResult)
      → f.root ≡ some root
      → leads_to H f path t ≡ true
      → (write H f path content now).1 ≡ ok w
      → H.content (write H f path content now).0.disk t ≡ some (H.encode content)
  unfolding write
  write-there f root path content now t w rooted there h =
      let (enabled, (u, r, at)) = at_path-ok L f path (write_at H f content now) w h in
      let (inside, resolved) = resolve_path-inside L f root path u rooted r in
      let (small, disk, done, config, same, bytes) =
        write_at-Written L f content now u w (sym (ap (λ p. p.1) at) ∙ h) in
      let same_target = same_path→eq L u t (sym (leads-eq f path u t r) ∙ there) in
      ap (λ p. H.content p.0.disk t) at
      ∙ ap (λ s. H.content s t) disk
      ∙ subst (λ v. H.content (put_file H f.disk u content).0 v ≡ some (H.encode content))
          same_target (content-put_file L f.disk u content resolved done)

  -- A file with the bytes of a text is read where its path leads to it, if it is not too large.
  pub read-there :
      (f : ScopedFileSystem H) (path s : String) (now : ℕ) (t : FilePath)
      → require_enabled f.config "filesystem" ≡ none
      → leads_to H f path t ≡ true
      → H.content f.disk t ≡ some (H.encode s)
      → ltb f.config.filesystem_max_bytes (H.byte_count (H.encode s)) ≡ false
      → backup_of H path (read H f path now).1 ≡ (path, some (read_text s))
  unfolding leads_to
  read-there f path s now t enabled there found small =
      elim (Result-cases (resolve_path H f path)) [
        | inl (u, e) ↦
            let same = same_path→eq L u t (sym (leads-eq f path u t e) ∙ there) in
            rw
              (
                read-at L f path now u enabled e,
                read_at-content L f path s now u (ap (H.content f.disk) same ∙ found) small,
              )
              refl
        | inr (inl (error, e)) ↦ absurd (ground (arith, e))
        | inr (inr (name, e)) ↦ absurd (ground (arith, e))
      ]
