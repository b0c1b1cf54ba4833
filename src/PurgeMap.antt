-- ===== src/PurgeMap.antt =====
-- The purge history (src/vmod_cachetag_purgemap.c).
pub mod Table
pub mod Map
pub mod Probe
pub mod Insert
pub mod Rebuild
pub mod Well
pub mod Grow
pub mod Upsert
pub mod Verdict
pub mod Prune
