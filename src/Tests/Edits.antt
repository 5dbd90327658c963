-- ===== src/Tests/Edits.antt =====
-- Inputs for the edits of files, on the host in memory.
use plugin_baselithbot.Slices.{slice_from}
use plugin_baselithbot.Text.{is_space, strip_left, strip_right, strip}
use plugin_baselithbot.Lists.{take_last, keep, contains}
use plugin_baselithbot.Common.{
  String, ◌≡◌, refl, inr, true, false, none, some, List, [], ◌∷◌, arith,
}
use plugin_baselithbot.Strings.{joined, starts_with, after_prefix}
use plugin_baselithbot.Numerals.{int}
use plugin_baselithbot.CodeEdit.Lines.{next_char, lines_from, splitlines, take, join}
use plugin_baselithbot.CodeEdit.Diff.{
  until_char, until_at, name_of, split_lines, split_diff_files, strip_dashes, old_start, slice,
  apply_change, apply_line, apply_lines, hunks_to_lines,
}
use plugin_baselithbot.CodeEdit.Diff.Hunks.{
  keeps, removes, adds, line_of, old_lines, new_lines, Hunk, old_text, new_text, diff_of,
}
use plugin_baselithbot.CodeEdit.Diff.Applied.{hunks_to_lines-new_text}
use plugin_baselithbot.CodeEdit.Patcher.{
  LineRangeEdit, patch_lines, lines_are, sort_edits, insert_edit, apply_edits, apply_edit,
  replacement_lines, end_last, ends_line,
}
use plugin_baselithbot.CodeEdit.Patcher.Ranges.{replaced, patch_lines-replaced}
use plugin_baselithbot.CodeEdit.SearchReplace.{
  SearchReplaceEdit, replace_literal, count_text, count_from, replace_text, replace_from,
  interleave,
}
use plugin_baselithbot.CodeEdit.AstRefactor.{
  extracted_lines, indent_of, identifiers_of, find_names, runs_from, is_name, all_name_chars,
  distinct, comma_joined, helper_lines,
}
use plugin_baselithbot.CodeEdit.MultiFile
use plugin_baselithbot.CodeEdit.MultiFile.{rollback, apply_each, apply, MultiFileEdit, Backup}
use plugin_baselithbot.CodeEdit.MultiFile.Rollback.{failing, all_restored}
use plugin_baselithbot.CodeEdit.MultiFile.Intact.{apply-restores}
use plugin_baselithbot.ComputerUse.Audit.{record_action}
use plugin_baselithbot.ComputerUse.Config.{flag, require_enabled}
use plugin_baselithbot.ComputerUse.Paths.{
  FilePath, same_path, is_under, components, descend, join_path, render_below, render, ends_in_py,
  sorted, insert_name, text_leb,
}
use plugin_baselithbot.ComputerUse.Paths.Memory.{
  normal, Files, lookup, has_below, is_blocked, memory_host, memory_host-IsLawful,
}
use plugin_baselithbot.ComputerUse.Filesystem.{
  ScopedFileSystem, universal, has_null, gate, leading_out, resolve_path, at_path, read_at, read,
  compile_python_source, verify, put_file, stored, store, write_at, write,
}

broken_lines : splitlines "a\r\nb\rc\n\nd" ≡ "a\r\n" ∷ "b\r" ∷ "c\n" ∷ "\n" ∷ "d" ∷ []
unfolding splitlines lines_from next_char joined
broken_lines = refl

abbrev four : List String
four = "a\n" ∷ "b\n" ∷ "c\n" ∷ "d" ∷ []

abbrev ranges : List LineRangeEdit
ranges =
    record { path = "f"; start_line = 1; end_line = 2; replacement = "x" }
    ∷ record { path = "f"; start_line = 4; end_line = 4; replacement = "y\nz" }
    ∷ []

patched_four : patch_lines four ranges ≡ lines_are ("x\n" ∷ "c\n" ∷ "y\n" ∷ "z" ∷ [])
unfolding patch_lines sort_edits insert_edit apply_edits apply_edit take replacement_lines
    splitlines lines_from next_char joined end_last ends_line
patched_four = refl

patch_lines-replaced_example : patch_lines four ranges ≡ lines_are (replaced 0 four ranges)
patch_lines-replaced_example =
    patch_lines-replaced four ranges
      ((omega arith, omega arith, omega arith, (omega arith, omega arith, omega arith, tt)))

abbrev hunk : Hunk
hunk = record {
  gap = "a\n" ∷ [];
  header = "@@ -2,2 +2,2 @@\n";
  changes = keeps "b\n" ∷ removes "c\n" ∷ adds "C\n" ∷ [];
}

hunks_to_lines-new_text_example :
    hunks_to_lines
      ("a\n" ∷ "b\n" ∷ "c\n" ∷ "d" ∷ [])
      ("@@ -2,2 +2,2 @@\n" ∷ " b\n" ∷ "-c\n" ∷ "+C\n" ∷ [])
    ≡ inr ("a\n" ∷ "b\n" ∷ "C\n" ∷ "d" ∷ [])
unfolding old_text new_text diff_of line_of old_lines new_lines old_start starts_with after_prefix
    until_at strip strip_left strip_right is_space until_char strip_dashes int
hunks_to_lines-new_text_example =
    hunks_to_lines-new_text (hunk ∷ []) ("d" ∷ []) (refl, refl, (tt, (refl, (refl, tt))), tt)

-- A hunk without context that inserts behind line 2 inserts in front of it, and one that inserts at the
-- top inserts in front of the last line.
insertions_misplaced :
    (hunks_to_lines four ("@@ -2,0 +3 @@\n" ∷ "+new\n" ∷ [])
      ≡ inr ("a\n" ∷ "new\n" ∷ "b\n" ∷ "c\n" ∷ "d" ∷ []))
    × (hunks_to_lines four ("@@ -0,0 +1 @@\n" ∷ "+new\n" ∷ [])
        ≡ inr ("a\n" ∷ "b\n" ∷ "c\n" ∷ "new\n" ∷ "d" ∷ []))
unfolding hunks_to_lines apply_lines apply_line apply_change slice slice_from take take_last
    old_start starts_with after_prefix until_at strip strip_left strip_right is_space until_char
    strip_dashes int
insertions_misplaced = (refl, refl)

-- A removed line that begins with "-- " is read as the name of a file.
removal_opens_file :
    split_diff_files "--- a/q\n+++ b/q\n@@ -1 +0,0 @@\n--- note\n"
    ≡ ("q", "@@ -1 +0,0 @@\n" ∷ []) ∷ ("note", []) ∷ []
unfolding split_diff_files split_lines splitlines lines_from next_char joined name_of strip_right
    is_space until_char after_prefix
removal_opens_file = refl

abbrev literal : SearchReplaceEdit
literal = record {
  path = "f";
  pattern = "aa";
  replacement = "b";
  regex = false;
  count = 0;
  case_insensitive = false;
}

replaced_twice : replace_literal literal "aaaxaa" ≡ ("baxb", 2)
unfolding replace_literal count_text count_from replace_text replace_from interleave starts_with
    joined
replaced_twice = refl

abbrev work : FilePath
work = "work" ∷ "srv" ∷ []

abbrev scoped : ScopedFileSystem memory_host
scoped = record {
  config = record {
    enabled = true;
    allow_mouse = false;
    allow_keyboard = false;
    allow_screenshot = false;
    allow_shell = false;
    allow_filesystem = true;
    allowed_shell_commands = [];
    shell_timeout_seconds = 1000;
    filesystem_root = some "/srv/work";
    filesystem_max_bytes = 10;
    post_write_verify = false;
    require_approval_for = [];
    approval_timeout_seconds = 1000;
  };
  audit = record {
    has_path = false;
    file = [];
    buffer = [];
    batch_size = 1;
    flush_interval = 100;
    last_flush = 0;
  };
  approvals = none;
  root = some work;
  disk = ("a" ∷ work, "one") ∷ [];
}

-- The third write escapes the root.
abbrev batch : List MultiFileEdit
batch =
    record { path = "a"; content = "two" }
    ∷ record { path = "new"; content = "x" }
    ∷ record { path = "../b"; content = "y" }
    ∷ []

abbrev disk_after : Files
disk_after = (apply memory_host scoped batch 5).0.disk

-- The file that was there has its content again; the one that was not is left.
new_file_left :
    (lookup disk_after ("a" ∷ work) ≡ some "one") × (lookup disk_after ("new" ∷ work) ≡ some "x")
unfolding apply apply_each rollback read read_at universal write write_at store stored put_file gate
    verify at_path require_enabled flag resolve_path has_null join_path descend components
    starts_with joined normal is_under same_path leading_out is_blocked has_below lookup
    record_action ends_in_py compile_python_source render render_below
new_file_left = (refl, refl)

abbrev short_batch : List MultiFileEdit
short_batch = record { path = "a"; content = "two" } ∷ record { path = "../b"; content = "y" } ∷ []

-- Where the second write fails.
abbrev stopped : ScopedFileSystem memory_host
stopped = record scoped { disk = ("a" ∷ work, "two") ∷ scoped.disk }

abbrev backups : List MultiFile.Backup
backups = ("a", some "one") ∷ ("../b", none) ∷ []

short_fails : failing memory_host scoped short_batch [] 5 ≡ some (stopped, backups)
unfolding failing read read_at universal write write_at store stored put_file gate verify at_path
    require_enabled flag resolve_path has_null join_path descend components starts_with joined
    normal is_under same_path leading_out is_blocked has_below lookup record_action ends_in_py
    compile_python_source render render_below
short_fails = refl

short_restored : all_restored memory_host stopped backups 5 ≡ true
unfolding all_restored rollback write write_at store stored put_file gate verify at_path
    require_enabled flag resolve_path has_null join_path descend components starts_with joined
    normal is_under same_path leading_out is_blocked has_below lookup record_action ends_in_py
    compile_python_source render render_below
short_restored = refl

apply-restores_example :
    lookup (apply memory_host scoped short_batch 5).0.disk ("a" ∷ work) ≡ some "one"
unfolding normal lookup same_path universal
apply-restores_example =
    apply-restores memory_host-IsLawful scoped stopped short_batch backups 5 work ("a" ∷ work) "one"
      refl refl refl refl refl short_fails short_restored

extracted_one :
    extracted_lines (λ c. false) ("x = 1\n" ∷ "  y = foo(x)\n" ∷ "z\n" ∷ []) 2 2 "h"
    ≡ some (
      "def h(foo, x, y):\n" ∷ "    y = foo(x)\n" ∷ "\n" ∷ "x = 1\n" ∷ "  h(foo, x, y)\n" ∷ "z\n"
          ∷ [],
      "foo" ∷ "x" ∷ "y" ∷ [],
    )
unfolding extracted_lines take indent_of join joined after_prefix identifiers_of find_names
    runs_from is_name all_name_chars distinct keep contains sorted insert_name text_leb comma_joined
    helper_lines end_last ends_line splitlines lines_from next_char strip strip_left strip_right
    is_space
extracted_one = refl
