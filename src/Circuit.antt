-- ===== src/Circuit.antt =====
-- The package circuit: the consecutive-failure breaker and the registry of breakers.
pub mod Breaker
pub mod Registry
