-- ===== src/CodeEdit/Diff.antt =====
-- code_edit/diff.py: unified diffs.
pub mod Hunks
pub mod Applied
use plugin_baselithbot.Slices.{ℤ, pos, negsuc, slice_from}
use plugin_baselithbot.Lists.{length, is_nil, drop}
use plugin_baselithbot.Text.{strip_right, strip}
use plugin_baselithbot.Common.{
  ◌||◌, ℕ, zero, suc, ◌+◌, ◌-◌, min, String, ◌⊎◌, inl, inr, Option, none, some, List, [], ◌∷◌, ◌++◌,
  map, ltb, eqb, if◌then◌else◌, is_some,
}
use plugin_baselithbot.Strings.{starts_with, after_prefix}
use Prim.Native.Char.{code}
use mathlib.Core.Option
use plugin_baselithbot.Numerals.{int}
use plugin_baselithbot.CodeEdit.Lines.{splitlines, join, take}
use plugin_baselithbot.ComputerUse.Config.{ComputerUseError}
use plugin_baselithbot.ComputerUse.Paths.{Host}
use plugin_baselithbot.ComputerUse.Filesystem.{
  ScopedFileSystem, Result, ok, refused, raised, read, write,
}

-- s.split(c)[0], for the code of a character
unfoldable pub until_char : ℕ → String → String
until_char b String.[] = ""
until_char b (String.◌∷◌ c s) = if eqb (code c) b then "" else String.◌∷◌ c (until_char b s)

-- s.split("@@")[0]
unfoldable pub until_at : String → String
unfolding starts_with
until_at String.[] = ""
until_at (String.◌∷◌ c s) =
    if starts_with "@@" (String.◌∷◌ c s) then "" else String.◌∷◌ c (until_at s)

-- The name behind "--- " or "+++ ", without the prefix "a/" or "b/".
unfoldable pub name_of : String → String → String
unfolding strip_right until_char after_prefix
name_of prefix rest =
    let name = until_char 9 (strip_right rest) in
    elim (after_prefix prefix name) [ none ↦ name | some short ↦ short ]

-- A file of a diff with the lines of its hunks.
abbrev pub Block : Type 0
Block = String × List String

-- The file that is open and its lines, put behind the files that are complete.
abbrev pub closed : List Block → Option String → List String → List Block
closed files none lines = files
closed files (some name) lines = files ++ (name, lines) ∷ []

unfoldable pub split_lines : List Block → Option String → List String → List String → List Block
unfolding after_prefix name_of
split_lines files current lines [] = closed files current lines
split_lines files current lines (l ∷ ls) =
    let opened = λ (rest : String).
      split_lines (closed files current lines) (some (name_of "a/" rest))
        (if is_some current then [] else lines) ls in
    let renamed = λ (rest : String). split_lines files (some (name_of "b/" rest)) lines ls in
    let more = split_lines files current (lines ++ l ∷ []) ls in
    elim (after_prefix "--- " l) [
      | some rest ↦ opened rest
      | none ↦ elim (after_prefix "+++ " l) [ some rest ↦ renamed rest | none ↦ more ]
    ]

unfoldable pub split_diff_files : String → List Block
unfolding splitlines split_lines
split_diff_files diff_text = split_lines [] none [] (splitlines diff_text)

-- i - 1 and i + 1
abbrev pub pred_int : ℤ → ℤ
pred_int (pos zero) = negsuc 0
pred_int (pos (suc n)) = pos n
pred_int (negsuc n) = negsuc (suc n)

abbrev pub succ_int : ℤ → ℤ
succ_int (pos n) = pos (suc n)
succ_int (negsuc zero) = pos 0
succ_int (negsuc (suc n)) = negsuc n

-- s.lstrip("-")
unfoldable pub strip_dashes : String → String
strip_dashes String.[] = ""
strip_dashes (String.◌∷◌ c s) = if eqb (code c) b'-' then strip_dashes s else String.◌∷◌ c s

-- The old start of a hunk, less one, from its header; none for the ValueError.
unfoldable pub old_start : String → Option ℤ
unfolding after_prefix until_at strip until_char strip_dashes int
old_start line = elim (after_prefix "@@" line) [
  | none ↦ none
  | some rest ↦
      let old_part = until_char b' ' (strip (until_at rest)) in
      Option.map pred_int (int (until_char b',' (strip_dashes old_part)))
]

-- The position of a bound of a slice in a list of so many items.
abbrev pub bound : ℕ → ℤ → ℕ
bound n (pos i) = min i n
bound n (negsuc i) = n - suc i

-- xs[a:b]
unfoldable pub slice : ℤ → ℤ → List String → List String
unfolding take
slice a b xs = let n = length xs in drop (bound n a) (take (bound n b) xs)

-- Where the loop over the hunks stands: the lines that are written, and the next line of the source.
abbrev pub Cursor : Type 0
Cursor = List String × ℤ

-- How a line of the hunks fails: with a malformed header, which is a ComputerUseError, or with an
-- IndexError.
pub data HunkError : Type 0 where
  malformed_header index_error : HunkError

-- out.append(src_lines[i]) if i < len(src_lines)
unfoldable pub append_line : List String → ℤ → List String → HunkError ⊎ List String
append_line out (pos i) src = elim (drop i src) [ [] ↦ inr out | x ∷ rest ↦ inr (out ++ x ∷ []) ]
append_line out (negsuc i) src =
    if ltb i (length src)
    then elim (drop (length src - suc i) src) [ [] ↦ inr out | x ∷ rest ↦ inr (out ++ x ∷ []) ]
    else inl index_error

-- A line that is neither a header nor the name of a file.
unfoldable pub apply_change : List String → Cursor → String → HunkError ⊎ Cursor
unfolding starts_with after_prefix append_line
apply_change src (out, i) line = elim (after_prefix "+" line) [
  | some added ↦ inr (out ++ added ∷ [], i)
  | none ↦
      if starts_with "-" line
      then inr (out, succ_int i)
      else if starts_with " " line
      then elim (append_line out i src) [ inl e ↦ inl e | inr out' ↦ inr (out', succ_int i) ]
      else inr (out, i)
]

-- One line of the hunks.
unfoldable pub apply_line : List String → Cursor → String → HunkError ⊎ Cursor
unfolding old_start starts_with slice apply_change
apply_line src (out, i) line =
    if starts_with "@@" line
    then elim (old_start line) [
      | none ↦ inl malformed_header
      | some start ↦ inr (out ++ slice i start src, start)
    ]
    else if starts_with "---" line || starts_with "+++" line
    then inr (out, i)
    else apply_change src (out, i) line

unfoldable pub apply_lines : List String → Cursor → List String → HunkError ⊎ Cursor
unfolding apply_line
apply_lines src at [] = inr at
apply_lines src at (l ∷ ls) = elim (apply_line src at l) [
  | inl e ↦ inl e
  | inr at' ↦ apply_lines src at' ls
]

-- The lines of the new text.
unfoldable pub hunks_to_lines : List String → List String → HunkError ⊎ List String
unfolding apply_lines slice_from
hunks_to_lines src hunk_lines = elim (apply_lines src ([], pos 0) hunk_lines) [
  | inl e ↦ inl e
  | inr (out, i) ↦ inr (out ++ slice_from i src)
]

-- `_apply_hunks_to_text`
unfoldable pub apply_hunks_to_text : String → List String → HunkError ⊎ String
unfolding splitlines hunks_to_lines join
apply_hunks_to_text original hunk_lines = elim (hunks_to_lines (splitlines original) hunk_lines) [
  | inl e ↦ inl e
  | inr lines ↦ inr (join lines)
]

-- A file of the summary: an error, or the bytes that were written. The preview of a diff is left out.
pub data FileStatus : Type 0 where
  malformed_hunk : FileStatus
  error : ComputerUseError → FileStatus
  patched : ℕ → FileStatus

-- What `apply_unified_diff` returns or raises; `success` has the summary.
pub data DiffAnswer : Type 0 where
  noop : DiffAnswer
  success : List (String × FileStatus) → DiffAnswer
  refused_write : ComputerUseError → DiffAnswer
  host_error : String → DiffAnswer

module _ (H : Host) where
  unfoldable pub apply_blocks :
      ScopedFileSystem H
      → List Block
      → List (String × FileStatus)
      → ℕ
      → ScopedFileSystem H × DiffAnswer
  unfolding read write apply_hunks_to_text
  apply_blocks f [] summary now = (f, success summary)
  apply_blocks f ((name, hunks) ∷ blocks) summary now =
      let (g, current) = read H f name now in
      let goes : String → ScopedFileSystem H × DiffAnswer = λ content.
        let (h, written) = write H g name content now in
        let rest =
          λ (bytes : ℕ). apply_blocks h blocks (summary ++ (name, patched bytes) ∷ []) now in
        elim written [
          | refused e ↦ (h, refused_write e)
          | raised n ↦ (h, host_error n)
          | ok w ↦ rest w.bytes_written
        ] in
      elim current [
        | refused e ↦ (g, success (summary ++ (name, error e) ∷ []))
        | raised n ↦ (g, host_error n)
        | ok r ↦ elim (apply_hunks_to_text r.content hunks) [
          | inl malformed_header ↦ (g, success (summary ++ (name, malformed_hunk) ∷ []))
          | inl index_error ↦ (g, host_error "IndexError")
          | inr content ↦ goes content
        ]
      ]

  unfoldable pub apply_unified_diff :
      String → ScopedFileSystem H → ℕ → ScopedFileSystem H × DiffAnswer
  unfolding split_diff_files apply_blocks
  apply_unified_diff diff_text f now =
      let blocks = split_diff_files diff_text in
      if is_nil blocks then (f, noop) else apply_blocks f blocks [] now
