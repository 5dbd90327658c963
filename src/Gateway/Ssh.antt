-- ===== src/Gateway/Ssh.antt =====
-- gateway/ssh.py: allowlisted commands for a remote host, through the ssh binary. A port is given as its
-- decimal text.
pub mod Commands
use plugin_baselithbot.Slices.{ℤ}
use plugin_baselithbot.Text.{is_empty, lower_eq, truthy}
use plugin_baselithbot.Lists.{is_nil, contains}
use plugin_baselithbot.Common.{
  ℕ, String, Bool, true, false, ◌&&◌, ◌||◌, Option, none, some, List, [], ◌∷◌, ◌++◌, map, eqb,
  if◌then◌else◌,
}
use Prim.Native.Char.{code}
use mathlib.Core.Option
use plugin_baselithbot.Strings.{joined, after_prefix}
use plugin_baselithbot.Security.Shlex.{split}
use plugin_baselithbot.Security.ShellMeta.{lex_command, find_shell_meta}

abbrev pub safe_ssh_o_keys : List String
safe_ssh_o_keys =
    "batchmode" ∷ "ciphers" ∷ "compression" ∷ "connectionattempts" ∷ "connecttimeout"
    ∷ "hostkeyalgorithms" ∷ "identitiesonly" ∷ "kexalgorithms" ∷ "loglevel" ∷ "macs"
    ∷ "passwordauthentication" ∷ "preferredauthentications" ∷ "pubkeyauthentication"
    ∷ "serveralivecountmax" ∷ "serveraliveinterval" ∷ "stricthostkeychecking" ∷ "userknownhostsfile"
    ∷ []

abbrev pub safe_ssh_short_flags : List String
safe_ssh_short_flags = "-4" ∷ "-6" ∷ "-A" ∷ "-C" ∷ "-q" ∷ "-T" ∷ "-v" ∷ "-vv" ∷ "-vvv" ∷ []

-- body.partition("="), where the separator is there
unfoldable pub partition_equals : String → Option (String × String)
partition_equals String.[] = none
partition_equals (String.◌∷◌ c s) =
    if eqb (code c) b'='
    then some ("", s)
    else Option.map (λ p. (String.◌∷◌ c p.0, p.1)) (partition_equals s)

-- key.lower() in keys
unfoldable pub has_lower : List String → String → Bool
unfolding lower_eq
has_lower [] key = false
has_lower (k ∷ ks) key = lower_eq k key || has_lower ks key

-- Whether `_validate_extra_option` returns the option; it raises a `ValueError` otherwise.
unfoldable pub validate_extra_option : String → Bool
unfolding contains after_prefix partition_equals has_lower
validate_extra_option opt =
    if is_empty opt
    then false
    else if contains opt safe_ssh_short_flags
    then true
    else elim (after_prefix "-o" opt) [
      | none ↦ false
      | some body ↦ if is_empty body then false else elim (partition_equals body) [
        | none ↦ false
        | some (key, value) ↦ has_lower safe_ssh_o_keys key
      ]
    ]

unfoldable pub check_extra_options : List String → Bool
unfolding validate_extra_option
check_extra_options [] = true
check_extra_options (opt ∷ opts) = validate_extra_option opt && check_extra_options opts

pub record SshGatewayConfig : Type 0 where
  pub host : String
  pub user : Option String
  pub port : String
  pub key_path : Option String
  pub extra_options : List String
  pub allowed_commands : List String
  pub timeout_seconds : ℕ

-- The construction of a configuration: none for the `ValidationError` of an option.
unfoldable pub build_config : SshGatewayConfig → Option SshGatewayConfig
unfolding check_extra_options
build_config c = if check_extra_options c.extra_options then some c else none

-- The `PermissionError` of a command.
pub data PermissionError : Type 0 where
  nothing_allowed unparsable : PermissionError
  metacharacter not_allowed : String → PermissionError

unfoldable pub check_no_shell_meta : String → Option PermissionError
unfolding lex_command find_shell_meta
check_no_shell_meta command = elim (lex_command command) [
  | none ↦ some unparsable
  | some tokens ↦ Option.map metacharacter (find_shell_meta command tokens)
]

-- parts[0] if parts else ""
abbrev pub head_of : List String → String
head_of [] = ""
head_of (part ∷ parts) = part

-- `_check`
unfoldable pub check : SshGatewayConfig → String → Option PermissionError
unfolding check_no_shell_meta split contains
check c command =
    if is_nil c.allowed_commands then some nothing_allowed else elim (check_no_shell_meta command) [
      | some error ↦ some error
      | none ↦ elim (split command) [
        | none ↦ some unparsable
        | some parts ↦
            if contains (head_of parts) c.allowed_commands
            then none
            else some (not_allowed (head_of parts))
      ]
    ]

unfoldable pub target : SshGatewayConfig → String
unfolding joined
target c =
    if truthy c.user
    then elim c.user [ none ↦ c.host | some user ↦ joined user (joined "@" c.host) ]
    else c.host

-- The vector that `run` gives to the system.
unfoldable pub argv_of : SshGatewayConfig → String → List String
unfolding target
argv_of c command =
    let key =
      if truthy c.key_path
      then elim c.key_path [ none ↦ [] | some path ↦ "-i" ∷ path ∷ [] ]
      else [] in
    "ssh" ∷ "-p" ∷ c.port ∷ key ++ c.extra_options ++ target c ∷ command ∷ []

-- How the ssh process ends; its `TimeoutExpired` and `OSError` are not caught.
pub data Outcome : Type 0 where
  completed : ℤ → String → String → Outcome
  raised : String → Outcome

pub data Answer : Type 0 where
  result : ℤ → String → String → List String → Answer
  refused : PermissionError → Answer
  raises : String → Answer

-- `run`, for a system that runs a vector within a time, and the decoding of its output. The vectors that
-- were run are the first component.
unfoldable pub run :
    (List String → ℕ → Outcome)
    → (String → String)
    → SshGatewayConfig
    → String
    → List (List String) × Answer
unfolding check argv_of
run system decode c command = elim (check c command) [
  | some error ↦ ([], refused error)
  | none ↦
      let argv = argv_of c command in
      elim (system argv c.timeout_seconds) [
        | completed code out err ↦ (argv ∷ [], result code (decode out) (decode err) argv)
        | raised name ↦ (argv ∷ [], raises name)
      ]
]
