-- ===== src/Balancer.antt =====
-- The choice of a connection: internal/balancer.
pub mod Connections
mod Tests
