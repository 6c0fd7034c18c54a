-- ===== src/Wal.antt =====
-- backend/queue/repo/walfile: the log of a slot.
pub mod Letters
pub mod Record
pub mod Framing
pub mod GroupCommit
pub mod Names
pub mod Replay
pub mod Recovery
pub mod Told
pub mod Holding
pub mod Compaction
pub mod Changes
pub mod Codec
pub mod Directory
pub mod Tests
