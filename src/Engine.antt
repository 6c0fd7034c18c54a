-- ===== src/Engine.antt =====
-- backend/queue/logic/engine: the queue engine.
pub mod Deque
pub mod Message
pub mod Heaps
pub mod State
pub mod Config
pub mod Bands
pub mod Deliver
pub mod Timers
pub mod Handoff
pub mod Accounts
pub mod Lifecycle
pub mod Queue
pub mod Dispatch
pub mod Upkeep
pub mod Migrate
pub mod Capacity
pub mod Tests
