-- ===== src/Tests.antt =====
-- The theorems at concrete inputs, and runs of the definitions.
mod Limits
mod Gate
mod Access
mod Stores
mod Jobs
mod Archive
mod Models
mod Webhooks
mod Threads
mod Ledger
mod Commands
mod Secrets
mod Shell
mod Disk
mod Edits
