-- ===== src/Routing.antt =====
-- model_routing/: the choice of a model provider and of the key it is called with.
pub mod AuthRotation
pub mod Failover
pub mod Router
