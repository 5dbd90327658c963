-- ===== src/ComputerUse/ShellExec/Guard.antt =====
-- When a command reaches the system.
use plugin_baselithbot.Lists.{contains}
use mathlib.Core.List.{append-nil}
use plugin_baselithbot.Common.{
  ℕ, String, ◌≡◌, Bool, true, false, not, ◌&&◌, ◌||◌, Option, none, some, List, [], ◌∷◌, ◌++◌,
  arith, if◌then◌else◌, is_some, refl, sym, inl, inr, Option-cases,
}
use plugin_baselithbot.Security.Redaction.{end}
use plugin_baselithbot.Security.Shlex.{split}
use plugin_baselithbot.Security.ShellMeta.{lex_command, find_shell_meta}
use plugin_baselithbot.ComputerUse.Config.{
  is_approved_status, ComputerUseConfig, flag, require_enabled,
}
use plugin_baselithbot.ComputerUse.ShellExec.{
  System, ShellExecutor, command_fields, gate, execute, check_no_shell_meta, run_argv, run,
}
use plugin_baselithbot.ComputerUse.ShellExec.Allowlist.{is_listed, check_allowed-is_listed}

-- Whether no metacharacter is found in the command, and it can be lexed.
unfoldable pub is_clean : String → Bool
unfolding lex_command find_shell_meta
is_clean command = elim (lex_command command) [
  | none ↦ false
  | some tokens ↦ not (is_some (find_shell_meta command tokens))
]

-- Whether the operator lets the vector run, or need not be asked.
unfoldable pub is_let : ShellExecutor → List String → Option String → Bool
unfolding contains command_fields
is_let x argv cwd = elim x.approvals [
  | none ↦ true
  | some operator ↦
      not (contains "shell" x.config.require_approval_for)
      || is_approved_status
          (operator "shell" "shell_run" (command_fields argv cwd end)
            x.config.approval_timeout_seconds).0
]

-- The vectors that a command may run: none or one.
unfoldable pub permitted : ShellExecutor → String → Option String → List (List String)
unfolding is_clean split is_listed is_let
permitted x command cwd = elim (split command) [
  | none ↦ []
  | some argv ↦
      if x.config.enabled
        && x.config.allow_shell
        && is_clean command
        && is_listed x.config argv
        && is_let x argv cwd
      then argv ∷ []
      else []
]

execute-spawned :
    (system : System) (x : ShellExecutor) (argv : List String) (cwd : Option String) (now : ℕ)
    → (execute system x argv cwd now).0.spawned ≡ x.spawned ++ argv ∷ []
unfolding execute
execute-spawned system x argv cwd now = ground arith

gate-is_let :
    (x : ShellExecutor) (argv : List String) (cwd : Option String) (now : ℕ)
    → ((gate x argv cwd now).0.spawned ≡ x.spawned)
      × (is_some (gate x argv cwd now).1 ≡ not (is_let x argv cwd))
unfolding gate is_let
gate-is_let x argv cwd now = ground arith

-- The vector that is run, behind the allowlist and the gate.
run_argv-spawned :
    (system : System) (x : ShellExecutor) (argv : List String) (cwd : Option String) (now : ℕ)
    → (run_argv system x argv cwd now).0.spawned
      ≡ (if is_listed x.config argv && is_let x argv cwd then x.spawned ++ argv ∷ [] else x.spawned)
unfolding run_argv
run_argv-spawned system x argv cwd now =
    let x' = (gate x argv cwd now).0 in
    ground (
      arith,
      check_allowed-is_listed x.config argv,
      gate-is_let x argv cwd now,
      execute-spawned system x' argv cwd now,
    )

check-is_clean : (command : String) → is_some (check_no_shell_meta command) ≡ not (is_clean command)
unfolding check_no_shell_meta is_clean
check-is_clean command = ground arith

require-shell :
    (c : ComputerUseConfig) → is_some (require_enabled c "shell") ≡ not (c.enabled && c.allow_shell)
unfolding require_enabled flag
require-shell c = ground arith

run-cases :
    (system : System) (x : ShellExecutor) (command : String) (cwd : Option String) (now : ℕ)
    → (run system x command cwd now).0.spawned ≡ (
        if x.config.enabled && x.config.allow_shell && is_clean command
        then elim (split command) [
          | none ↦ x.spawned
          | some argv ↦ (run_argv system x argv cwd now).0.spawned
        ]
        else x.spawned)
unfolding run
run-cases system x command cwd now = ground (arith, require-shell x.config, check-is_clean command)

either_way : (g : Bool) (xs : List (List String)) → (if g then xs else xs) ≡ xs ++ []
either_way true xs = sym (append-nil xs)
either_way false xs = sym (append-nil xs)

one_or_none :
    (a b c d e : Bool) (xs : List (List String)) (argv : List String)
    → (if a && b && c then (if d && e then xs ++ argv ∷ [] else xs) else xs)
      ≡ xs ++ (if a && b && c && d && e then argv ∷ [] else [])
one_or_none true true true true true xs argv = refl
one_or_none true true true true false xs argv = sym (append-nil xs)
one_or_none true true true false e xs argv = sym (append-nil xs)
one_or_none true true false d e xs argv = sym (append-nil xs)
one_or_none true false c d e xs argv = sym (append-nil xs)
one_or_none false b c d e xs argv = sym (append-nil xs)

-- Running a command hands the system at most one vector, its words. It does so exactly if the switch and
-- the shell are enabled, no metacharacter is found in the command, its binary is in the allowlist as a
-- bare name or an absolute path, and the operator, if he is to be asked, approved the vector.
pub run-permitted :
    (system : System) (x : ShellExecutor) (command : String) (cwd : Option String) (now : ℕ)
    → (run system x command cwd now).0.spawned ≡ x.spawned ++ permitted x command cwd
unfolding permitted
run-permitted system x command cwd now = elim (Option-cases (split command)) [
  | inl e ↦
      rw (run-cases system x command cwd now, permitted, e)
        (either_way (x.config.enabled && x.config.allow_shell && is_clean command) x.spawned)
  | inr (argv, e) ↦
      rw (run-cases system x command cwd now, permitted, e, run_argv-spawned system x argv cwd now)
        (one_or_none x.config.enabled x.config.allow_shell (is_clean command)
          (is_listed x.config argv) (is_let x argv cwd) x.spawned argv)
]
