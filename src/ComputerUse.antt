-- ===== src/ComputerUse.antt =====
-- computer_use/: the actions on the host, each behind the configuration, the operator and the audit log.
pub mod Config
pub mod Audit
pub mod ShellExec
pub mod Paths
pub mod Scope
pub mod Filesystem
