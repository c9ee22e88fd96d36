-- ===== src/Policy/Normalize.antt =====
-- policy/schema.go, `Normalize`. Each field's checks are a function of the field and of the record
-- of changes, in the source's order; `normalize` threads the record through all of them.
mod Stages
pub mod Bounds
pub mod Honest
pub mod Idempotent
pub mod Gaps
unfoldable pub use Stages.*
