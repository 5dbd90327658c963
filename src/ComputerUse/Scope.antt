-- ===== src/ComputerUse/Scope.antt =====
-- computer_use/filesystem.py, `ScopedFileSystem`: its state, the operator's gate and the resolution of
-- a path below the root. Its methods are in ComputerUse/Filesystem.
use plugin_baselithbot.Text.{truthy}
use plugin_baselithbot.Lists.{contains}
use plugin_baselithbot.Common.{
  ℕ, String, Bool, false, not, ◌&&◌, ◌||◌, Option, none, some, [], ◌∷◌, eqb, if◌then◌else◌,
}
use Prim.Native.Char.{code}
use mathlib.Core.Option
use plugin_baselithbot.Strings.{joined}
use plugin_baselithbot.Security.Redaction.{text, Fields, end, field}
use plugin_baselithbot.ComputerUse.Config.{
  ComputerUseConfig, ComputerUseError, no_filesystem_root, null_byte, escapes_root, symlink_escapes,
  refused_by_operator, require_enabled, Operator, status_value, is_approved_status,
}
use plugin_baselithbot.ComputerUse.Audit.{AuditLogger, record_action}
use plugin_baselithbot.ComputerUse.Paths.{FilePath, same_path, is_under, join_path, render, Host}

-- What a method returns or raises; `raised` are the exceptions of the host.
pub data Result {ℓ} (A : Type ℓ) : Type ℓ where
  ok : A → Result A
  refused : ComputerUseError → Result A
  raised : String → Result A

-- "\x00" in path
unfoldable pub has_null : String → Bool
has_null String.[] = false
has_null (String.◌∷◌ c s) = eqb (code c) 0 || has_null s

module _ (H : Host) where
  open H use {State, resolve, exists}

  -- The object, with the state of the host that its methods change.
  pub record ScopedFileSystem : Type 0 where
    pub config : ComputerUseConfig
    pub audit : AuditLogger
    pub approvals : Option Operator
    pub root : Option FilePath
    pub disk : State

  -- `cwd` is the directory of the process.
  unfoldable pub init :
      FilePath → ComputerUseConfig → AuditLogger → Option Operator → State → ScopedFileSystem
  unfolding join_path
  init cwd config audit approvals disk = record {
    config = config;
    audit = audit;
    approvals = approvals;
    root =
        if truthy config.filesystem_root
        then Option.map (λ r. resolve disk (join_path cwd r)) config.filesystem_root
        else none;
    disk = disk;
  }

  -- `_gate`; none where the operation may go on. `params` are followed by other fields in the log.
  unfoldable pub gate :
      ScopedFileSystem → String → (Fields → Fields) → ℕ → ScopedFileSystem × Option ComputerUseError
  unfolding contains record_action joined
  gate f action params now = elim f.approvals [
    | none ↦ (f, none)
    | some operator ↦
        if not (contains "filesystem" f.config.require_approval_for)
        then (f, none)
        else let (status, id) =
            operator "filesystem" action (params end) f.config.approval_timeout_seconds in
          if is_approved_status status
          then (f, none)
          else let value = status_value status in
            let fields = field "status" (text value) (field "approval_id" (text id) (params end)) in
            (
              record f {
                audit = record_action f.audit (joined action (joined "." value)) fields now;
              },
              some (refused_by_operator status id),
            )
  ]

  -- The loop of `_resolve`: a symbolic link at the path or above it, below the root, that leads out.
  unfoldable pub leading_out : State → FilePath → FilePath → Option FilePath
  unfolding same_path is_under
  leading_out s root [] = none
  leading_out s root (n ∷ p) =
      if same_path (n ∷ p) root
      then none
      else if exists s (n ∷ p) && H.is_symlink s (n ∷ p) && not (is_under root (resolve s (n ∷ p)))
      then some (n ∷ p)
      else leading_out s root p

  unfoldable pub resolve_path : ScopedFileSystem → String → Result FilePath
  unfolding has_null join_path is_under leading_out render
  resolve_path f path = elim f.root [
    | none ↦ refused no_filesystem_root
    | some root ↦
        if has_null path
        then refused null_byte
        else let candidate = resolve f.disk (join_path root path) in
          if not (is_under root candidate)
          then refused (escapes_root path)
          else elim (leading_out f.disk root candidate) [
            | none ↦ ok candidate
            | some cursor ↦ refused (symlink_escapes (render cursor))
          ]
  ]

  -- What a method does at the path that a text is resolved to, behind the test of the capability.
  unfoldable pub at_path {ℓ} :
      {A : Type ℓ}
      → ScopedFileSystem
      → String
      → (FilePath → ScopedFileSystem × Result A)
      → ScopedFileSystem × Result A
  unfolding require_enabled resolve_path
  at_path f path action = elim (require_enabled f.config "filesystem") [
    | some error ↦ (f, refused error)
    | none ↦ elim (resolve_path f path) [
      | refused error ↦ (f, refused error)
      | raised name ↦ (f, raised name)
      | ok target ↦ action target
    ]
  ]
