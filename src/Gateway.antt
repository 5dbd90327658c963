-- ===== src/Gateway.antt =====
-- gateway/: commands on other hosts.
pub mod Ssh
