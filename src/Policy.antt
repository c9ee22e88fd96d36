-- ===== src/Policy.antt =====
-- The package policy: keys, the policy schema with its defaults, and normalisation.
pub mod Key
pub mod Schema
pub mod Normalize
pub mod Options
