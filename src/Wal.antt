-- ===== src/Wal.antt =====
-- The write-ahead log (src/vmod_cachetag_wal.c).
pub mod Frame
pub mod Meta
pub mod Replay
pub mod Log
pub mod Append
pub mod Checkpoint
pub mod Compact
pub mod Start
pub mod Recovery
