-- ===== src/Inbound.antt =====
-- inbound/: webhook requests that are authenticated, parsed and dispatched to handlers.
pub mod Signatures
pub mod Auth
pub mod Dispatcher
pub mod Counts
pub mod DefaultHandler
