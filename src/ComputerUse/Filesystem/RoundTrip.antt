-- ===== src/ComputerUse/Filesystem/RoundTrip.antt =====
-- A file that was written is read.
use plugin_baselithbot.ComputerUse.Filesystem.Confined.{resolve_path-inside, Kept, write_at-Kept}
use plugin_baselithbot.ComputerUse.Paths.{
  FilePath, same_path, is_under, join_path, render, Host, IsLawful,
}
use plugin_baselithbot.ComputerUse.Filesystem.{
  Result, ok, refused, WriteResult, read_text, has_null, ScopedFileSystem, resolve_path, at_path,
  read_at, read, write_at, write,
}
use plugin_baselithbot.ComputerUse.Config.{escapes_root, require_enabled}
use plugin_baselithbot.ComputerUse.Filesystem.Kept.{Result-cases, content-put_file}
use plugin_baselithbot.ComputerUse.Filesystem.Resolution.{resolve_path-is_under}
use plugin_baselithbot.ComputerUse.Filesystem.Written.{write_at-Written}
use plugin_baselithbot.Common.{
  ℕ, String, ◌≡◌, refl, sym, ap, ◌∙◌, inl, inr, false, none, some, arith, ltb, if◌then◌else◌,
  Option-cases,
}

module _ {H : Host} (L : IsLawful H) where
  -- A method that returns has passed the test of the capability and the resolution.
  pub at_path-ok {ℓ} :
      {A : Type ℓ} (f : ScopedFileSystem H) (path : String)
      (action : FilePath → ScopedFileSystem H × Result A) (a : A)
      → (at_path H f path action).1 ≡ ok a
      → (require_enabled f.config "filesystem" ≡ none)
        × ((target : FilePath) × (resolve_path H f path ≡ ok target)
            × (at_path H f path action ≡ action target))
  unfolding at_path
  at_path-ok f path action a h = elim (Option-cases (require_enabled f.config "filesystem")) [
    | inr (error, e) ↦ absurd (ground arith)
    | inl e ↦ elim (Result-cases (resolve_path H f path)) [
      | inl (target, r) ↦ (e, (target, r, rw (at_path, e, r) refl))
      | inr (inl (error, r)) ↦ absurd (ground arith)
      | inr (inr (name, r)) ↦ absurd (ground arith)
    ]
  ]

  pub read_at-content :
      (g : ScopedFileSystem H) (path content : String) (now : ℕ) (target : FilePath)
      → H.content g.disk target ≡ some (H.encode content)
      → ltb g.config.filesystem_max_bytes (H.byte_count (H.encode content)) ≡ false
      → (read_at H g path now target).1
        ≡ ok (record {
          path = render target;
          content = read_text content;
          bytes = H.byte_count (H.encode content);
        })
  unfolding read_at
  read_at-content g path content now target found small =
      rw (read_at, found, small, L.decode-encode content) refl

  -- A path that is resolved is still resolved the same when the host resolves paths as before.
  resolve_path-stable :
      (f g : ScopedFileSystem H) (root : FilePath) (path : String) (target : FilePath)
      → f.root ≡ some root
      → Kept L root f g
      → has_null path ≡ false
      → resolve_path H f path ≡ ok target
      → resolve_path H g path ≡ ok target
  resolve_path-stable f g root path target rooted kept no_null r =
      resolve_path-is_under L g root path (kept.1 ∙ rooted) no_null
      ∙ ap (λ c. if is_under root c then ok c else refused (escapes_root path))
          (kept.0.0 (join_path root path))
      ∙ sym (resolve_path-is_under L f root path rooted no_null)
      ∙ r

  ok-no_null :
      (f : ScopedFileSystem H) (path : String) (target : FilePath)
      → resolve_path H f path ≡ ok target
      → has_null path ≡ false
  unfolding resolve_path
  ok-no_null f path target r = ground arith

  pub read-at :
      (g : ScopedFileSystem H) (path : String) (now : ℕ) (target : FilePath)
      → require_enabled g.config "filesystem" ≡ none
      → resolve_path H g path ≡ ok target
      → read H g path now ≡ read_at H g path now target
  unfolding read at_path
  read-at g path now target e r = rw (at_path, e, r) refl

  -- On a host with the laws of a file system, a write that returns is followed by a read of the same path
  -- that returns the same path and byte count, and the content with "\r\n" and "\r" read as "\n".
  pub read-write :
      (f : ScopedFileSystem H) (root : FilePath) (path content : String) (now later : ℕ)
      (w : WriteResult)
      → f.root ≡ some root
      → (write H f path content now).1 ≡ ok w
      → (read H (write H f path content now).0 path later).1
        ≡ ok (record { path = w.path; content = read_text content; bytes = w.bytes_written })
  unfolding write
  read-write f root path content now later w rooted h =
      let (enabled, (target, r, at)) = at_path-ok f path (write_at H f content now) w h in
      let (inside, resolved) = resolve_path-inside L f root path target rooted r in
      let g = (write_at H f content now target).0 in
      let kept = write_at-Kept L f root content now target inside resolved in
      let (small, disk, done, config, same_path, bytes) =
        write_at-Written L f content now target w (sym (ap (λ p. p.1) at) ∙ h) in
      let found =
        ap (λ s. H.content s target) disk
        ∙ content-put_file L f.disk target content resolved done in
      rw (at, same_path, bytes)
        (ap (λ p. p.1)
            (read-at g path later target (ap (λ c. require_enabled c "filesystem") config ∙ enabled)
              (resolve_path-stable f g root path target rooted kept (ok-no_null f path target r) r))
          ∙ read_at-content g path content later target found (
              ap (λ c. ltb c.filesystem_max_bytes (H.byte_count (H.encode content))) config
              ∙ small))
