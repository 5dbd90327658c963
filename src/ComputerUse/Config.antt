-- ===== src/ComputerUse/Config.antt =====
-- computer_use/config.py, `ComputerUseConfig`: the capabilities, off by default. Times are in
-- milliseconds.
use plugin_baselithbot.Clock.{second}
use plugin_baselithbot.Common.{
  ℕ, ◌*◌, String, Bool, true, false, not, Option, none, some, List, [], ◌==◌, if◌then◌else◌,
}
use plugin_baselithbot.Control.Approvals.{ApprovalStatus, pending, approved, denied, timed_out}
use plugin_baselithbot.Security.Redaction.{Fields}

pub record ComputerUseConfig : Type 0 where
  pub enabled : Bool
  pub allow_mouse : Bool
  pub allow_keyboard : Bool
  pub allow_screenshot : Bool
  pub allow_shell : Bool
  pub allow_filesystem : Bool
  pub allowed_shell_commands : List String
  pub shell_timeout_seconds : ℕ
  pub filesystem_root : Option String
  pub filesystem_max_bytes : ℕ
  pub post_write_verify : Bool
  pub require_approval_for : List String
  pub approval_timeout_seconds : ℕ

-- The reasons of a `ComputerUseError`, where the file system and the shell raise it.
pub data ComputerUseError : Type 0 where
  disabled unparsable_command empty_command nothing_allowlisted command_timed_out : ComputerUseError
  no_filesystem_root null_byte : ComputerUseError
  capability_not_allowed shell_metacharacter not_allowlisted escapes_root :
      String → ComputerUseError
  symlink_escapes file_not_found not_a_directory : String → ComputerUseError
  exceeds_max_size : ℕ → ComputerUseError
  refused_by_operator : ApprovalStatus → String → ComputerUseError

-- ComputerUseConfig()
unfoldable pub default_config : Bool → ComputerUseConfig
default_config verify = record {
  enabled = false;
  allow_mouse = true;
  allow_keyboard = true;
  allow_screenshot = true;
  allow_shell = false;
  allow_filesystem = false;
  allowed_shell_commands = [];
  shell_timeout_seconds = 30 * second;
  filesystem_root = none;
  filesystem_max_bytes = 10000000;
  post_write_verify = verify;
  require_approval_for = [];
  approval_timeout_seconds = 120 * second;
}

-- getattr(self, f"allow_{capability}", False)
unfoldable pub flag : ComputerUseConfig → String → Bool
flag c capability =
    if capability == "mouse"
    then c.allow_mouse
    else if capability == "keyboard"
    then c.allow_keyboard
    else if capability == "screenshot"
    then c.allow_screenshot
    else if capability == "shell"
    then c.allow_shell
    else if capability == "filesystem"
    then c.allow_filesystem
    else false

-- What it raises, if anything.
unfoldable pub require_enabled : ComputerUseConfig → String → Option ComputerUseError
unfolding flag
require_enabled c capability =
    if not c.enabled
    then some disabled
    else if not (flag c capability)
    then some (capability_not_allowed capability)
    else none

-- The operator behind the gate: for a capability, an action, its parameters and a timeout, the final
-- status of the request, when `submit` returns, and the id it has.
abbrev pub Operator : Type 0
Operator = String → String → Fields → ℕ → ApprovalStatus × String

abbrev pub status_value : ApprovalStatus → String
status_value pending = "pending"
status_value approved = "approved"
status_value denied = "denied"
status_value timed_out = "timed_out"

abbrev pub is_approved_status : ApprovalStatus → Bool
is_approved_status approved = true
is_approved_status _ = false
