-- ===== src/Objects.antt =====
-- The object index: where objects live, and how they are found (src/vmod_cachetag_index.c).
pub mod Segments
pub mod Side
pub mod Migrate
pub mod Interning
pub mod Sizing
