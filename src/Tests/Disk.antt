-- ===== src/Tests/Disk.antt =====
-- Inputs for the scoped file system, on the host in memory.
use plugin_baselithbot.Common.{◌≡◌, refl, true, false, none, some, List, [], ◌∷◌, if◌then◌else◌}
use plugin_baselithbot.Strings.{joined, starts_with}
use plugin_baselithbot.ComputerUse.Config.{
  ComputerUseConfig, escapes_root, exceeds_max_size, flag, require_enabled,
}
use plugin_baselithbot.ComputerUse.Audit.{AuditLogger, record_action}
use plugin_baselithbot.ComputerUse.Paths.{
  FilePath, same_path, is_under, components, descend, join_path, render_below, render, ends_in_py,
}
use plugin_baselithbot.ComputerUse.Paths.Memory.{
  normal, Files, lookup, has_below, is_blocked, memory_host, memory_host-IsLawful,
}
use plugin_baselithbot.ComputerUse.Filesystem.{
  ok, refused, universal, read_text, has_null, ScopedFileSystem, init, gate, leading_out,
  resolve_path, at_path, read, compile_python_source, verify, put_file, stored, store, write_at,
  write,
}
use plugin_baselithbot.ComputerUse.Filesystem.Confined.{
  Call, reads, writes, lists, run, run-confined,
}
use plugin_baselithbot.ComputerUse.Filesystem.Resolution.{resolve_path-is_under}
use plugin_baselithbot.ComputerUse.Filesystem.RoundTrip.{read-write}

abbrev disk_config : ComputerUseConfig
disk_config = record {
  enabled = true;
  allow_mouse = false;
  allow_keyboard = false;
  allow_screenshot = false;
  allow_shell = false;
  allow_filesystem = true;
  allowed_shell_commands = [];
  shell_timeout_seconds = 1000;
  filesystem_root = some "/srv/work";
  filesystem_max_bytes = 10;
  post_write_verify = true;
  require_approval_for = [];
  approval_timeout_seconds = 1000;
}

abbrev silent : AuditLogger
silent = record {
  has_path = false;
  file = [];
  buffer = [];
  batch_size = 1;
  flush_interval = 100;
  last_flush = 0;
}

abbrev work : FilePath
work = "work" ∷ "srv" ∷ []

abbrev files : Files
files = ("a" ∷ work, "one") ∷ ("secret" ∷ "srv" ∷ [], "key") ∷ []

abbrev scoped : ScopedFileSystem memory_host
scoped = record {
  config = disk_config;
  audit = silent;
  approvals = none;
  root = some work;
  disk = files;
}

init_root : (init memory_host [] disk_config silent none files).root ≡ some work
unfolding init join_path descend components starts_with joined normal
init_root = refl

escape_refused : (read memory_host scoped "../secret" 5).1 ≡ refused (escapes_root "../secret")
unfolding read at_path require_enabled flag resolve_path has_null join_path descend components
    starts_with joined normal is_under same_path leading_out
escape_refused = refl

too_large : (write memory_host scoped "b.py" "01234567890" 5).1 ≡ refused (exceeds_max_size 11)
unfolding write write_at at_path require_enabled flag resolve_path has_null join_path descend
    components starts_with joined normal is_under same_path leading_out lookup has_below
too_large = refl

written :
    (write memory_host scoped "d/b.py" "x\r\n" 5).1
    ≡ ok (record { path = "/srv/work/d/b.py"; bytes_written = 3; verification = some "ok" })
unfolding write write_at store stored put_file gate verify at_path require_enabled flag resolve_path
    has_null join_path descend components starts_with joined normal is_under same_path leading_out
    is_blocked has_below lookup record_action ends_in_py compile_python_source render render_below
written = refl

read-write_example :
    (read memory_host (write memory_host scoped "d/b.py" "x\r\n" 5).0 "d/b.py" 6).1
    ≡ ok (record { path = "/srv/work/d/b.py"; content = read_text "x\r\n"; bytes = 3 })
read-write_example =
    read-write memory_host-IsLawful scoped work "d/b.py" "x\r\n" 5 6
      (record { path = "/srv/work/d/b.py"; bytes_written = 3; verification = some "ok" }) refl
      written

newlines_read : read_text "x\r\ny\rz" ≡ "x\ny\nz"
unfolding universal
newlines_read = refl

resolve_path-is_under_example : resolve_path memory_host scoped "d/../a" ≡ (
    if is_under work (memory_host.resolve files (join_path work "d/../a"))
    then ok (memory_host.resolve files (join_path work "d/../a"))
    else refused (escapes_root "d/../a"))
unfolding has_null
resolve_path-is_under_example =
    resolve_path-is_under memory_host-IsLawful scoped work "d/../a" refl refl

abbrev calls : List Call
calls = writes "../secret" "x" 1 ∷ writes "a" "y" 2 ∷ reads "/srv/secret" 3 ∷ lists "." 4 ∷ []

run-confined_example :
    lookup (run scoped calls).disk ("secret" ∷ "srv" ∷ []) ≡ lookup files ("secret" ∷ "srv" ∷ [])
unfolding normal is_under same_path
run-confined_example =
    run-confined memory_host-IsLawful scoped work calls ("secret" ∷ "srv" ∷ []) refl refl refl
