-- ===== src/Observability.antt =====
-- observability/: the ledger of token and cost usage.
pub mod Usage
