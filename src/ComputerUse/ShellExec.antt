-- ===== src/ComputerUse/ShellExec.antt =====
-- computer_use/shell_exec.py: commands from an allowlist, run without a shell.
pub mod Allowlist
pub mod Guard
use plugin_baselithbot.Slices.{ℤ, pos}
use plugin_baselithbot.Lists.{is_nil, contains}
use plugin_baselithbot.Common.{
  ℕ, String, Bool, false, not, ◌&&◌, ◌||◌, Option, none, some, List, [], ◌∷◌, ◌++◌, map, ◌==◌,
  if◌then◌else◌,
}
use mathlib.Core.Option
use plugin_baselithbot.Strings.{joined, starts_with, first_chars, size, has_text}
use plugin_baselithbot.Control.Approvals.{denied}
use plugin_baselithbot.Security.Redaction.{
  Payload, nothing, number, text, list, Items, nil, cons, end, field, Fields,
}
use plugin_baselithbot.Security.Shlex.{split}
use plugin_baselithbot.Security.ShellMeta.{lex_command, find_shell_meta}
use plugin_baselithbot.ComputerUse.Config.{
  ComputerUseConfig, ComputerUseError, unparsable_command, empty_command, nothing_allowlisted,
  command_timed_out, shell_metacharacter, not_allowlisted, refused_by_operator, require_enabled,
  Operator, status_value, is_approved_status,
}
use plugin_baselithbot.ComputerUse.Audit.{AuditLogger, record_action}

abbrev pub max_output_bytes : ℕ
max_output_bytes = 65536

-- How `subprocess.run` ends; an `OSError` such as that of a missing binary is not caught.
pub data Outcome : Type 0 where
  completed : ℤ → String → String → Outcome
  timeout_expired os_error : Outcome

-- The system below: `subprocess.run` of a vector in a directory, and the decoding of its output.
pub record System : Type 0 where
  pub spawn : List String → Option String → Outcome
  pub decode : String → String

-- `spawned` are the vectors that were handed to the system.
pub record ShellExecutor : Type 0 where
  pub config : ComputerUseConfig
  pub audit : AuditLogger
  pub approvals : Option Operator
  pub spawned : List (List String)

pub data Answer : Type 0 where
  result : ℤ → String → String → List String → Answer
  refused : ComputerUseError → Answer
  value_error os_error : Answer

unfoldable pub items_of : List String → Items
items_of [] = nil
items_of (s ∷ ss) = cons (text s) (items_of ss)

abbrev pub cwd_of : Option String → Payload
cwd_of none = nothing
cwd_of (some cwd) = text cwd

unfoldable pub command_fields : List String → Option String → Fields → Fields
unfolding items_of
command_fields argv cwd rest = field "argv" (list (items_of argv)) (field "cwd" (cwd_of cwd) rest)

-- `_gate`; none where the command may go on.
unfoldable pub gate :
    ShellExecutor → List String → Option String → ℕ → ShellExecutor × Option ComputerUseError
unfolding contains record_action command_fields joined
gate x argv cwd now = elim x.approvals [
  | none ↦ (x, none)
  | some operator ↦
      if not (contains "shell" x.config.require_approval_for)
      then (x, none)
      else let params = command_fields argv cwd end in
        let (status, id) = operator "shell" "shell_run" params x.config.approval_timeout_seconds in
        if is_approved_status status
        then (x, none)
        else let value = status_value status in
          let fields =
            command_fields argv cwd
              (field "status" (text value) (field "approval_id" (text id) end)) in
          (
            record x { audit = record_action x.audit (joined "shell_run." value) fields now },
            some (refused_by_operator status id),
          )
]

unfoldable pub check_no_shell_meta : String → Option ComputerUseError
unfolding lex_command find_shell_meta
check_no_shell_meta command = elim (lex_command command) [
  | none ↦ some unparsable_command
  | some tokens ↦ Option.map shell_metacharacter (find_shell_meta command tokens)
]

abbrev pub is_absolute : String → Bool
is_absolute path = starts_with "/" path

abbrev pub is_path : String → Bool
is_path head = has_text "/" head || starts_with "./" head || starts_with "../" head

-- Whether a pattern of the list matches.
unfoldable pub matches : List String → String → Bool
unfolding has_text starts_with
matches [] head = false
matches (p ∷ ps) head =
    (if is_absolute p then head == p else not (is_path head) && head == p) || matches ps head

unfoldable pub check_allowed : ComputerUseConfig → List String → Option ComputerUseError
unfolding matches
check_allowed c [] = some empty_command
check_allowed c (head ∷ args) =
    if is_nil c.allowed_shell_commands
    then some nothing_allowlisted
    else if matches c.allowed_shell_commands head
    then none
    else some (not_allowlisted head)

-- `stdout_b[:_MAX_OUTPUT_BYTES].decode(...)`, for bytes as a text of the code points up to 255
abbrev pub shown : System → String → String
shown system out = system.decode (first_chars max_output_bytes out)

-- `run`, behind the gate
unfoldable pub execute :
    System → ShellExecutor → List String → Option String → ℕ → ShellExecutor × Answer
unfolding record_action command_fields first_chars
execute system x argv cwd now =
    let x' = record x { spawned = x.spawned ++ argv ∷ [] } in
    elim (system.spawn argv cwd) [
      | timeout_expired ↦ (
        record x' {
          audit = record_action x.audit "shell_timeout" (command_fields argv cwd end) now;
        },
        refused command_timed_out,
      )
      | os_error ↦ (x', os_error)
      | completed code out err ↦
          let fields = command_fields argv cwd (
            field "return_code" (number code) (
              field "stdout_bytes" (number (pos (size out)))
                (field "stderr_bytes" (number (pos (size err))) end))) in
          (
            record x' { audit = record_action x.audit "shell_run" fields now },
            result code (shown system out) (shown system err) argv,
          )
    ]

unfoldable pub run_argv :
    System → ShellExecutor → List String → Option String → ℕ → ShellExecutor × Answer
unfolding check_allowed gate execute
run_argv system x argv cwd now = elim (check_allowed x.config argv) [
  | some error ↦ (x, refused error)
  | none ↦
      let (x', stopped) = gate x argv cwd now in
      elim stopped [ some error ↦ (x', refused error) | none ↦ execute system x' argv cwd now ]
]

-- `now` is what the clock shows when the one entry of the audit log is made.
unfoldable pub run : System → ShellExecutor → String → Option String → ℕ → ShellExecutor × Answer
unfolding require_enabled check_no_shell_meta split run_argv
run system x command cwd now = elim (require_enabled x.config "shell") [
  | some error ↦ (x, refused error)
  | none ↦ elim (check_no_shell_meta command) [
    | some error ↦ (x, refused error)
    | none ↦ elim (split command) [
      | none ↦ (x, value_error)
      | some argv ↦ run_argv system x argv cwd now
    ]
  ]
]
