-- ===== src/Index.antt =====
-- The index's operations on the purge history (src/vmod_cachetag_purgemap.c, vmod_cachetag_index.c).
pub mod Purge
pub mod Restore
pub mod Answer
pub mod Accept
pub mod Stale
pub mod Limited
pub mod Limits
