-- ===== src/Tests/Shell.antt =====
-- Inputs for the shell and the ssh gateway.
use plugin_baselithbot.Slices.{pos}
use plugin_baselithbot.Text.{lower, lower_eq}
use plugin_baselithbot.Lists.{All, contains}
use plugin_baselithbot.Common.{
  ℕ, String, ◌≡◌, refl, true, false, not, none, some, List, [], ◌∷◌, ◌++◌, if◌then◌else◌, is_some,
}
use plugin_baselithbot.Strings.{joined, starts_with, after_prefix, first_chars, has_text, has_any}
use plugin_baselithbot.Control.Approvals.{approved}
use plugin_baselithbot.Security.Shlex.{emit, begin, read, read_all, finish, lex, split}
use plugin_baselithbot.Security.ShellMeta.{
  lex_command, first_inside, is_meta, first_meta, find_shell_meta,
}
use plugin_baselithbot.Security.ShellMeta.Plain.{is_plain, has_operator}
use plugin_baselithbot.Security.ShellMeta.Complete.{find_shell_meta-has_operator}
use plugin_baselithbot.ComputerUse.Config.{
  ComputerUseConfig, not_allowlisted, flag, require_enabled,
}
use plugin_baselithbot.ComputerUse.Audit.{record_action}
use plugin_baselithbot.ComputerUse.ShellExec.{
  completed, System, ShellExecutor, result, items_of, command_fields, gate, check_no_shell_meta,
  matches, check_allowed, execute, run_argv, run,
}
use plugin_baselithbot.ComputerUse.ShellExec.Allowlist.{is_listed, check_allowed-is_listed}
use plugin_baselithbot.ComputerUse.ShellExec.Guard.{permitted, run-permitted}
use plugin_baselithbot.Gateway.Ssh
use plugin_baselithbot.Gateway.Ssh.Commands

quoted_words : split "grep 'a b' \"c\\\"d\" e\\ f" ≡ some ("grep" ∷ "a b" ∷ "c\"d" ∷ "e f" ∷ [])
unfolding split lex read_all read begin emit finish joined
quoted_words = refl

piped : lex_command "cat x|wc" ≡ some ("cat" ∷ "x" ∷ "|" ∷ "wc" ∷ [])
unfolding lex_command lex read_all read begin emit finish joined
piped = refl

find_shell_meta-has_operator_example :
    (tokens : List String) × (lex_command "cat x|wc" ≡ some tokens)
    × (has_operator "cat x|wc" ≡ true → is_some (find_shell_meta "cat x|wc" tokens) ≡ true)
unfolding is_plain
find_shell_meta-has_operator_example = find_shell_meta-has_operator "cat x|wc" refl

abbrev shell_config : ComputerUseConfig
shell_config = record {
  enabled = true;
  allow_mouse = false;
  allow_keyboard = false;
  allow_screenshot = false;
  allow_shell = true;
  allow_filesystem = false;
  allowed_shell_commands = "ls" ∷ "/usr/bin/wc" ∷ "./tool" ∷ [];
  shell_timeout_seconds = 1000;
  filesystem_root = none;
  filesystem_max_bytes = 1;
  post_write_verify = false;
  require_approval_for = "shell" ∷ [];
  approval_timeout_seconds = 1000;
}

abbrev shell : ShellExecutor
shell = record {
  config = shell_config;
  audit = record {
    has_path = false;
    file = [];
    buffer = [];
    batch_size = 1;
    flush_interval = 100;
    last_flush = 0;
  };
  approvals = some (λ capability action params timeout. (approved, "r1"));
  spawned = [];
}

abbrev host : System
host = record { spawn = λ argv cwd. completed (pos 0) "out" ""; decode = λ b. b }

ls_runs : (run host shell "ls -l" none 5).1 ≡ result (pos 0) "out" "" ("ls" ∷ "-l" ∷ [])
unfolding run require_enabled flag check_no_shell_meta lex_command find_shell_meta split run_argv
    check_allowed gate execute lex read_all read begin emit finish joined first_inside has_text
    first_meta is_meta contains has_any starts_with matches first_chars record_action command_fields
    items_of
ls_runs = refl

relative_refused : check_allowed shell_config ("./tool" ∷ []) ≡ some (not_allowlisted "./tool")
unfolding check_allowed matches has_text starts_with
relative_refused = refl

check_allowed-is_listed_example :
    is_some (check_allowed shell_config ("./tool" ∷ []))
    ≡ not (is_listed shell_config ("./tool" ∷ []))
check_allowed-is_listed_example = check_allowed-is_listed shell_config ("./tool" ∷ [])

run-permitted_example :
    (run host shell "ls -l" none 5).0.spawned ≡ [] ++ permitted shell "ls -l" none
run-permitted_example = run-permitted host shell "ls -l" none 5

abbrev remote : Ssh.SshGatewayConfig
remote = record {
  host = "h";
  user = some "u";
  port = "22";
  key_path = none;
  extra_options = "-v" ∷ "-oBatchMode=yes" ∷ [];
  allowed_commands = "ls" ∷ [];
  timeout_seconds = 60000;
}

-- Operators that the lexer glues, a substitution in double quotes and what follows a "#" pass the check.
operators_pass :
    (Ssh.check remote "ls |& sh" ≡ none)
    × (Ssh.check remote "ls \"$(reboot)\"" ≡ none)
    × (Ssh.check remote "ls a#;reboot" ≡ none)
unfolding Ssh.check Ssh.check_no_shell_meta lex_command find_shell_meta split lex read_all read
    begin emit finish joined first_inside has_text first_meta is_meta contains has_any starts_with
operators_pass = (refl, refl, refl)

abbrev answering : List String → ℕ → Ssh.Outcome
answering argv timeout = Ssh.completed (pos 0) "" ""

run-is_permitted_example :
    (Ssh.run answering (λ s. s) remote "ls /tmp").0
    ≡ (if Commands.is_permitted remote "ls /tmp" then Ssh.argv_of remote "ls /tmp" ∷ [] else [])
run-is_permitted_example = Commands.run-is_permitted answering (λ s. s) remote "ls /tmp"

ls_reaches :
    Ssh.argv_of remote "ls /tmp"
    ≡ "ssh" ∷ "-p" ∷ "22" ∷ "-v" ∷ "-oBatchMode=yes" ∷ "u@h" ∷ "ls /tmp" ∷ []
unfolding Ssh.argv_of Ssh.target joined
ls_reaches = refl

run-no_operator_example : (Ssh.run answering (λ s. s) remote "ls; reboot").0 ≡ []
unfolding is_plain has_operator
run-no_operator_example = Commands.run-no_operator answering (λ s. s) remote "ls; reboot" refl refl

build_config-AreSafe_example : All Commands.IsSafe remote.extra_options
unfolding Ssh.build_config Ssh.check_extra_options Ssh.validate_extra_option contains after_prefix
    Ssh.partition_equals Ssh.has_lower lower_eq lower
build_config-AreSafe_example = Commands.build_config-AreSafe remote remote refl
