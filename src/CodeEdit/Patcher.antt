-- ===== src/CodeEdit/Patcher.antt =====
-- code_edit/patcher.py: replacements of ranges of lines.
pub mod Ranges
use plugin_baselithbot.Text.{is_empty}
use plugin_baselithbot.Dict.{Dict, get, put}
use plugin_baselithbot.Lists.{length, drop}
use plugin_baselithbot.Common.{
  ℕ, ◌-◌, String, ◌⊎◌, inl, inr, Bool, false, Option, none, some, List, [], ◌∷◌, ◌++◌, ltb, leb,
  eqb, if◌then◌else◌,
}
use Prim.Native.Char.{code}
use plugin_baselithbot.Strings.{joined}
use plugin_baselithbot.CodeEdit.Lines.{splitlines, join, take}
use plugin_baselithbot.ComputerUse.Config.{ComputerUseError}
use plugin_baselithbot.ComputerUse.Paths.{Host}
use plugin_baselithbot.ComputerUse.Filesystem.{
  ScopedFileSystem, Result, ok, refused, raised, read, write,
}

pub record LineRangeEdit : Type 0 where
  pub path : String
  pub start_line : ℕ
  pub end_line : ℕ
  pub replacement : String

-- The reasons of the ComputerUseErrors that the patcher raises itself, beside those of the file system.
pub data PatchError : Type 0 where
  reversed_range out_of_range : LineRangeEdit → PatchError
  refusal : ComputerUseError → PatchError
  host_error : String → PatchError

-- grouped.setdefault(edit.path, []).append(edit)
abbrev pub grouped_with : Dict (List LineRangeEdit) → LineRangeEdit → Dict (List LineRangeEdit)
unfolding get put
grouped_with d e = elim (get d e.path) [
  | none ↦ put d e.path (e ∷ [])
  | some es ↦ put d e.path (es ++ e ∷ [])
]

-- The edits by path, or the first whose range is reversed.
unfoldable pub group :
    Dict (List LineRangeEdit)
    → List LineRangeEdit
    → Dict (List LineRangeEdit) × Option LineRangeEdit
unfolding get put
group d [] = (d, none)
group d (e ∷ es) =
    let rest = group (grouped_with d e) es in
    if ltb e.end_line e.start_line then (d, some e) else rest

-- sorted(file_edits, key=lambda e: e.start_line, reverse=True), which keeps the order of equal keys
unfoldable pub insert_edit : LineRangeEdit → List LineRangeEdit → List LineRangeEdit
insert_edit e [] = e ∷ []
insert_edit e (x ∷ xs) = if leb x.start_line e.start_line then e ∷ x ∷ xs else x ∷ insert_edit e xs

unfoldable pub sort_edits : List LineRangeEdit → List LineRangeEdit
unfolding insert_edit
sort_edits [] = []
sort_edits (e ∷ es) = insert_edit e (sort_edits es)

-- s.endswith("\n")
unfoldable pub ends_line : String → Bool
ends_line String.[] = false
ends_line (String.◌∷◌ c s) = if is_empty s then eqb (code c) 10 else ends_line s

-- The line break that the last line gets.
unfoldable pub end_last : List String → List String
unfolding ends_line joined
end_last [] = []
end_last (l ∷ []) = (if ends_line l then l else joined l "\n") ∷ []
end_last (l ∷ m ∷ ls) = l ∷ end_last (m ∷ ls)

-- The lines of a replacement; `followed` is whether lines stand behind the range.
unfoldable pub replacement_lines : LineRangeEdit → Bool → List String
unfolding splitlines end_last
replacement_lines e followed =
    let ls = if is_empty e.replacement then [] else splitlines e.replacement in
    if followed then end_last ls else ls

-- One edit of the lines of a file; none if it is out of range.
unfoldable pub apply_edit : List String → LineRangeEdit → Option (List String)
unfolding replacement_lines take
apply_edit lines e =
    let start = e.start_line - 1 in
    if leb (length lines) start
    then none
    else some (
        take start lines
        ++ replacement_lines e (ltb e.end_line (length lines))
        ++ drop e.end_line lines)

-- The loop over the edits of a file, or the edit that is out of range.
pub data Patched : Type 0 where
  lines_are : List String → Patched
  stops_at : LineRangeEdit → Patched

unfoldable pub apply_edits : List String → List LineRangeEdit → Patched
unfolding apply_edit
apply_edits lines [] = lines_are lines
apply_edits lines (e ∷ es) = elim (apply_edit lines e) [
  | none ↦ stops_at e
  | some lines' ↦ apply_edits lines' es
]

unfoldable pub patch_lines : List String → List LineRangeEdit → Patched
unfolding sort_edits apply_edits
patch_lines lines es = apply_edits lines (sort_edits es)

-- A file that was patched: its path, the number of its edits, and the bytes written.
abbrev pub PatchedFile : Type 0
PatchedFile = String × ℕ × ℕ

module _ (H : Host) where
  unfoldable pub patch_file :
      ScopedFileSystem H
      → String
      → List LineRangeEdit
      → ℕ
      → ScopedFileSystem H × (PatchError ⊎ PatchedFile)
  unfolding read write patch_lines splitlines join
  patch_file f path es now =
      let (g, current) = read H f path now in
      elim current [
        | refused e ↦ (g, inl (refusal e))
        | raised n ↦ (g, inl (host_error n))
        | ok r ↦ elim (patch_lines (splitlines r.content) es) [
          | stops_at e ↦ (g, inl (out_of_range e))
          | lines_are lines ↦
              let (h, written) = write H g path (join lines) now in
              elim written [
                | refused e ↦ (h, inl (refusal e))
                | raised n ↦ (h, inl (host_error n))
                | ok w ↦ (h, inr (path, length es, w.bytes_written))
              ]
        ]
      ]

  unfoldable pub patch_each :
      ScopedFileSystem H
      → Dict (List LineRangeEdit)
      → List PatchedFile
      → ℕ
      → ScopedFileSystem H × (PatchError ⊎ List PatchedFile)
  unfolding patch_file
  patch_each f [] out now = (f, inr out)
  patch_each f ((path, es) ∷ rest) out now =
      let (g, result) = patch_file f path es now in
      let goes = λ (p : PatchedFile). patch_each g rest (out ++ p ∷ []) now in
      elim result [ inl error ↦ (g, inl error) | inr p ↦ goes p ]

  unfoldable pub apply :
      ScopedFileSystem H
      → List LineRangeEdit
      → ℕ
      → ScopedFileSystem H × (PatchError ⊎ List PatchedFile)
  unfolding group patch_each
  apply f edits now =
      let (grouped, bad) = group [] edits in
      elim bad [ some e ↦ (f, inl (reversed_range e)) | none ↦ patch_each f grouped [] now ]
