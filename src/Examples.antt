-- ===== src/Examples.antt =====
-- examples: the observers that the examples show.
pub mod Prometheus
pub mod Otel
