-- ===== src/Control.antt =====
-- control/: the approval gate of privileged actions, the tracker of live runs and the replay store.
pub mod Approvals
pub mod RunTracker
pub mod Replay
