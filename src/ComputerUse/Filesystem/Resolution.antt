-- ===== src/ComputerUse/Filesystem/Resolution.antt =====
-- What `_resolve` answers.
use plugin_baselithbot.Common.{String, ◌≡◌, refl, false, none, some, [], ◌∷◌, arith, if◌then◌else◌}
use plugin_baselithbot.ComputerUse.Config.{escapes_root}
use plugin_baselithbot.ComputerUse.Paths.{FilePath, is_under, join_path, Host, IsLawful}
use plugin_baselithbot.ComputerUse.Filesystem.{
  ok, refused, has_null, ScopedFileSystem, leading_out, resolve_path,
}

module _ {H : Host} (L : IsLawful H) where
  -- The loop over the symbolic links finds nothing at a path that is resolved.
  leading_out-none :
      (s : H.State) (root p : FilePath) → H.resolve s p ≡ p → leading_out H s root p ≡ none
  unfolding leading_out
  leading_out-none s root [] h = refl
  leading_out-none s root (n ∷ p) h =
      ground
        (arith, leading_out-none s root p (L.resolved_parent s n p h), L.symlink_moves s (n ∷ p) h)

  -- On a host with the laws of a file system the loop of `_resolve` over the symbolic links refuses
  -- nothing: a path with no null byte is resolved to where it leads exactly if that lies under the root.
  pub resolve_path-is_under :
      (f : ScopedFileSystem H) (root : FilePath) (path : String)
      → f.root ≡ some root
      → has_null path ≡ false
      → let candidate = H.resolve f.disk (join_path root path) in
        resolve_path H f path
        ≡ (if is_under root candidate then ok candidate else refused (escapes_root path))
  unfolding resolve_path
  resolve_path-is_under f root path rooted no_null =
      let candidate = H.resolve f.disk (join_path root path) in
      ground (
        arith,
        leading_out-none f.disk root candidate (L.resolve-resolve f.disk (join_path root path)),
      )
