-- ===== src/Classify.antt =====
-- The package classify: outcomes, the built-in classifiers, and their registry.
mod Types
pub mod Builtins
pub mod Registry
pub use Types.*
