-- ===== src/Observe.antt =====
-- The package observe: what observers receive, observers of several, and the capture of timelines.
pub mod Types
pub mod Capture
pub mod Observers
