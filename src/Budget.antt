-- ===== src/Budget.antt =====
-- The package budget: the decision types, the token bucket and the registry.
mod Types
pub mod Bucket
pub mod Registry
pub use Types.*
