-- ===== src/ComputerUse/Filesystem.antt =====
-- computer_use/filesystem.py, the methods of `ScopedFileSystem`, with `compile_python_source` of
-- computer_use/write_verify.py: reading and writing below a root.
pub mod Kept
pub mod Confined
pub mod Resolution
pub mod Written
pub mod RoundTrip
use plugin_baselithbot.Slices.{pos}
use plugin_baselithbot.Text.{strip}
use plugin_baselithbot.Lists.{length}
use plugin_baselithbot.Common.{
  ℕ, String, Bool, false, not, ◌&&◌, Option, none, some, List, [], ◌∷◌, map, ltb, eqb,
  if◌then◌else◌, true,
}
use Prim.Native.Char.{code}
use mathlib.Core.Option
use plugin_baselithbot.Strings.{joined}
use plugin_baselithbot.Security.Redaction.{number, text, Fields, end, field}
use plugin_baselithbot.ComputerUse.Config.{file_not_found, not_a_directory, exceeds_max_size}
use plugin_baselithbot.ComputerUse.Audit.{record_action}
use plugin_baselithbot.ComputerUse.Paths.{
  FilePath, render, parent, ends_in_py, has_py_suffix, clean, other_failure, syntax_error, Host,
  sorted,
}
pub use plugin_baselithbot.ComputerUse.Scope.{Result, ok, refused, raised, ScopedFileSystem}
unfoldable pub use plugin_baselithbot.ComputerUse.Scope.{
  has_null, init, gate, leading_out, resolve_path, at_path,
}

pub record ReadResult : Type 0 where
  pub path : String
  pub content : String
  pub bytes : ℕ

pub record WriteResult : Type 0 where
  pub path : String
  pub bytes_written : ℕ
  pub verification : Option String

pub record DirEntry : Type 0 where
  pub name : String
  pub is_dir : Bool
  pub size : Option ℕ

-- The universal newlines of `read_text`: "\r\n" and "\r" are read as "\n".
unfoldable pub universal : Bool → String → String
universal after_cr String.[] = ""
universal after_cr (String.◌∷◌ c s) =
    let rest = universal (eqb (code c) 13) s in
    if eqb (code c) 13
    then String.◌∷◌ "\n" rest
    else if after_cr && eqb (code c) 10
    then rest
    else String.◌∷◌ c rest

abbrev pub read_text : String → String
read_text s = universal false s

module _ (H : Host) where
  open H use {State, iterdir, write_bytes, mkdir, encode, decode, byte_count, compile}

  abbrev pub path_fields : FilePath → ℕ → Fields → Fields
  unfolding render
  path_fields target size rest =
      field "path" (text (render target)) (field "bytes" (number (pos size)) rest)

  unfoldable pub read_at :
      ScopedFileSystem H → String → ℕ → FilePath → ScopedFileSystem H × Result ReadResult
  unfolding universal record_action render
  read_at f path now target = elim (H.content f.disk target) [
    | none ↦ (f, refused (file_not_found path))
    | some bytes ↦
        let size = byte_count bytes in
        if ltb f.config.filesystem_max_bytes size
        then (f, refused (exceeds_max_size size))
        else elim (decode bytes) [
          | none ↦ (f, raised "UnicodeDecodeError")
          | some content ↦ (
            record f { audit = record_action f.audit "fs_read" (path_fields target size end) now },
            ok (record { path = render target; content = read_text content; bytes = size }),
          )
        ]
  ]

  unfoldable pub read : ScopedFileSystem H → String → ℕ → ScopedFileSystem H × Result ReadResult
  unfolding at_path read_at
  read f path now = at_path H f path (read_at f path now)

  unfoldable pub compile_python_source : State → FilePath → Option String
  unfolding strip
  compile_python_source s target = elim (compile s target) [
    | clean ↦ none
    | other_failure ↦ none
    | syntax_error message ↦ some (strip message)
  ]

  -- The verification of a file that was written.
  unfoldable pub verify : ScopedFileSystem H → FilePath → ℕ → ScopedFileSystem H × Option String
  unfolding ends_in_py compile_python_source record_action render joined
  verify f target now =
      if has_py_suffix target && f.config.post_write_verify
      then elim (compile_python_source f.disk target) [
        | none ↦ (f, some "ok")
        | some error ↦ (
          record f {
            audit =
                record_action f.audit "fs_write_verify_failed"
                  (field "path" (text (render target)) (field "error" (text error) end)) now;
          },
          some (joined "compile failed: " error),
        )
      ]
      else (f, none)

  -- The parent directories and the bytes, with whether there was no OSError.
  unfoldable pub put_file : State → FilePath → String → State × Bool
  put_file s target content = elim (mkdir s (parent target)) [
    | none ↦ (s, false)
    | some made ↦ elim (write_bytes made target (encode content)) [
      | none ↦ (made, false)
      | some written ↦ (written, true)
    ]
  ]

  -- The end of `write`, for the host that the file was put on and whether there was no OSError.
  unfoldable pub stored :
      ScopedFileSystem H
      → String
      → ℕ
      → FilePath
      → State
      → Bool
      → ScopedFileSystem H × Result WriteResult
  unfolding record_action verify render
  stored f content now target disk false = (record f { disk = disk }, raised "OSError")
  stored f content now target disk true =
      let size = byte_count (encode content) in
      let written = record f {
        disk = disk;
        audit = record_action f.audit "fs_write" (path_fields target size end) now;
      } in
      let (verified, verification) = verify written target now in
      (
        verified,
        ok (record { path = render target; bytes_written = size; verification = verification }),
      )

  -- `write`, behind the gate
  unfoldable pub store :
      ScopedFileSystem H → String → ℕ → FilePath → ScopedFileSystem H × Result WriteResult
  unfolding put_file stored
  store f content now target =
      let (disk, done) = put_file f.disk target content in stored f content now target disk done

  unfoldable pub write_at :
      ScopedFileSystem H → String → ℕ → FilePath → ScopedFileSystem H × Result WriteResult
  unfolding gate store
  write_at f content now target =
      let size = byte_count (encode content) in
      if ltb f.config.filesystem_max_bytes size
      then (f, refused (exceeds_max_size size))
      else let (g, stopped) = gate H f "fs_write" (path_fields target size) now in
        elim stopped [ some error ↦ (g, refused error) | none ↦ store g content now target ]

  unfoldable pub write :
      ScopedFileSystem H → String → String → ℕ → ScopedFileSystem H × Result WriteResult
  unfolding at_path write_at
  write f path content now = at_path H f path (write_at f content now)

  abbrev pub entry_at : State → FilePath → String → DirEntry
  entry_at s target name = record {
    name = name;
    is_dir = H.is_dir s (name ∷ target);
    size = Option.map byte_count (H.content s (name ∷ target));
  }

  unfoldable pub list_at :
      ScopedFileSystem H
      → String
      → ℕ
      → FilePath
      → ScopedFileSystem H × Result (String × List DirEntry)
  unfolding sorted record_action render
  list_at f path now target =
      if not (H.is_dir f.disk target)
      then (f, refused (not_a_directory path))
      else let entries = map (entry_at f.disk target) (sorted (iterdir f.disk target)) in
        (
          record f {
            audit =
                record_action f.audit "fs_list"
                  (field "path" (text (render target))
                    (field "entries" (number (pos (length entries))) end))
                  now;
          },
          ok (render target, entries),
        )

  unfoldable pub list_dir :
      ScopedFileSystem H → String → ℕ → ScopedFileSystem H × Result (String × List DirEntry)
  unfolding at_path list_at
  list_dir f path now = at_path H f path (list_at f path now)
