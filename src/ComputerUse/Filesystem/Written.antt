-- ===== src/ComputerUse/Filesystem/Written.antt =====
-- What a write that returns has done.
use plugin_baselithbot.ComputerUse.Filesystem.Confined.{gate-same, stored-same}
use plugin_baselithbot.ComputerUse.Audit.{record_action}
use plugin_baselithbot.ComputerUse.Paths.{FilePath, render, Host, IsLawful}
use plugin_baselithbot.ComputerUse.Filesystem.{
  ok, WriteResult, ScopedFileSystem, gate, path_fields, verify, put_file, stored, store, write_at,
}
use plugin_baselithbot.Security.Redaction.{Fields, end}
use plugin_baselithbot.Common.{
  ℕ, String, ◌≡◌, ap, Bool, true, false, arith, ltb, refl, inl, inr, Bool-cases, Option-cases, sym,
  ◌∙◌, none,
}

module _ {H : Host} (L : IsLawful H) where
  verify-config :
      (f : ScopedFileSystem H) (target : FilePath) (now : ℕ)
      → (verify H f target now).0.config ≡ f.config
  unfolding verify
  verify-config f target now = ground arith

  pub stored-config :
      (f : ScopedFileSystem H) (content : String) (now : ℕ) (target : FilePath) (disk : H.State)
      (done : Bool)
      → (stored H f content now target disk done).0.config ≡ f.config
  unfolding stored
  stored-config f content now target disk false = refl
  stored-config f content now target disk true =
      verify-config
        (record f {
          disk = disk;
          audit =
              record_action f.audit "fs_write"
                (path_fields H target (H.byte_count (H.encode content)) end) now;
        })
        target now

  stored-ok :
      (f : ScopedFileSystem H) (content : String) (now : ℕ) (target : FilePath) (disk : H.State)
      (done : Bool) (w : WriteResult)
      → (stored H f content now target disk done).1 ≡ ok w
      → (done ≡ true)
        × (w.path ≡ render target)
        × (w.bytes_written ≡ H.byte_count (H.encode content))
  unfolding stored
  stored-ok f content now target disk false w h = absurd (ground arith)
  stored-ok f content now target disk true w h = (refl, ground arith, ground arith)

  -- What a write has done when it returns: the size was in the limit and the file was put at the target.
  abbrev pub Written :
      ScopedFileSystem H → String → FilePath → ScopedFileSystem H → WriteResult → Type 0
  Written f content target g w =
      (ltb f.config.filesystem_max_bytes (H.byte_count (H.encode content)) ≡ false)
      × (g.disk ≡ (put_file H f.disk target content).0)
      × ((put_file H f.disk target content).1 ≡ true)
      × (g.config ≡ f.config)
      × (w.path ≡ render target)
      × (w.bytes_written ≡ H.byte_count (H.encode content))

  pub gate-config :
      (f : ScopedFileSystem H) (action : String) (params : Fields → Fields) (now : ℕ)
      → (gate H f action params now).0.config ≡ f.config
  unfolding gate
  gate-config f action params now = ground arith

  store-Written :
      (f : ScopedFileSystem H) (content : String) (now : ℕ) (target : FilePath) (w : WriteResult)
      → ltb f.config.filesystem_max_bytes (H.byte_count (H.encode content)) ≡ false
      → (store H f content now target).1 ≡ ok w
      → Written f content target (store H f content now target).0 w
  unfolding store
  store-Written f content now target w small h =
      let (disk, done) = put_file H f.disk target content in
      let (finished, path, size) = stored-ok f content now target disk done w h in
      (
        small,
        (stored-same L f content now target disk done).0,
        finished,
        stored-config f content now target disk done,
        path,
        size,
      )

  pub write_at-store :
      (f : ScopedFileSystem H) (content : String) (now : ℕ) (target : FilePath)
      → ltb f.config.filesystem_max_bytes (H.byte_count (H.encode content)) ≡ false
      → let (g, stopped) =
          gate H f "fs_write" (path_fields H target (H.byte_count (H.encode content))) now in
        stopped ≡ none → write_at H f content now target ≡ store H g content now target
  unfolding write_at
  write_at-store f content now target small e = rw (write_at, small, e) refl

  write_at-ok :
      (f : ScopedFileSystem H) (content : String) (now : ℕ) (target : FilePath) (w : WriteResult)
      → (write_at H f content now target).1 ≡ ok w
      → (ltb f.config.filesystem_max_bytes (H.byte_count (H.encode content)) ≡ false)
        × ((gate H f "fs_write" (path_fields H target (H.byte_count (H.encode content))) now).1
            ≡ none)
  unfolding write_at
  write_at-ok f content now target w h =
      let params = path_fields H target (H.byte_count (H.encode content)) in
      elim (Bool-cases (ltb f.config.filesystem_max_bytes (H.byte_count (H.encode content)))) [
        | inl e ↦ absurd (ground arith)
        | inr e ↦ elim (Option-cases (gate H f "fs_write" params now).1) [
          | inr (error, e') ↦ absurd (ground arith)
          | inl e' ↦ (e, e')
        ]
      ]

  pub write_at-Written :
      (f : ScopedFileSystem H) (content : String) (now : ℕ) (target : FilePath) (w : WriteResult)
      → (write_at H f content now target).1 ≡ ok w
      → Written f content target (write_at H f content now target).0 w
  write_at-Written f content now target w h =
      let size = H.byte_count (H.encode content) in
      let g = (gate H f "fs_write" (path_fields H target size) now).0 in
      let same = gate-same L f "fs_write" (path_fields H target size) now in
      let config = gate-config f "fs_write" (path_fields H target size) now in
      let (small, passed) = write_at-ok f content now target w h in
      let eq = write_at-store f content now target small passed in
      let (_, disk, done, kept, path, bytes) =
        store-Written g content now target w
          (ap (λ c. ltb c.filesystem_max_bytes size) config ∙ small) (sym (ap (λ p. p.1) eq) ∙ h) in
      (
        small,
        ap (λ p. p.0.disk) eq ∙ disk ∙ ap (λ s. (put_file H s target content).0) same.0,
        sym (ap (λ s. (put_file H s target content).1) same.0) ∙ done,
        ap (λ p. p.0.config) eq ∙ kept ∙ config,
        path,
        bytes,
      )
