-- ===== src/Objects/Sizing/Ready.antt =====
-- When a shrink begins (src/vmod_cachetag_index.c).
