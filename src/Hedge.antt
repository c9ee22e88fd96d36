-- ===== src/Hedge.antt =====
-- The package hedge: the triggers and the latency tracker.
pub mod Tracker
pub mod Triggers
pub mod Registry
