-- ===== src/Policies.antt =====
-- policies/: who may use a channel, a host action or the dashboard, and how often.
pub mod RateLimit
pub mod DmPolicy
pub mod HostAcl
pub mod DashboardAuth
