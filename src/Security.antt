-- ===== src/Security.antt =====
-- security/: what keeps secrets and shell operators out.
pub mod Redaction
pub mod Shlex
pub mod ShellMeta
