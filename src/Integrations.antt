-- ===== src/Integrations.antt =====
-- The packages under integrations: HTTP and gRPC clients that call through an executor.
pub mod Http
pub mod Grpc
