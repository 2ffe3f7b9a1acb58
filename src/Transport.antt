-- ===== src/Transport.antt =====
-- internal/transport/grpc/client.go: the gRPC client through which the manager reaches a provider.
pub mod Status
pub mod Breaker
pub mod Tasks
mod Tests
