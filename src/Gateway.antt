-- ===== src/Gateway.antt =====
-- backend/gateway/logic: how the gateway wakes consumers and moves queues.
pub mod Waiters
pub mod Moves
pub mod Owners
pub mod Routing
pub mod Cache
pub mod Admin
pub mod Metrics
pub mod Cluster
pub mod Tests
