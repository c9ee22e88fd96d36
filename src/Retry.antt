-- ===== src/Retry.antt =====
-- The package retry: backoff, failure modes, the budget gate, resolution of policies and
-- classifiers, classification with recovery, the group of hedged attempts, and the loops.
pub mod Backoff
pub mod Modes
pub mod Gate
pub mod Outcomes
pub mod Group
pub mod Resolve
pub mod Fast
pub mod Timeline
pub mod Values
pub mod Executor
pub mod Global
pub mod Whole
pub mod Sleep
