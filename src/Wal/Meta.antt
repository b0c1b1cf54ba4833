-- ===== src/Wal/Meta.antt =====
-- What a checkpoint holds (src/vmod_cachetag_wal.h).
use libvmod_cachetag.Base.{ℕ}

pub record CheckpointMeta : Type 0 where
  pub purge_sequence : ℕ
  pub wal_sequence : ℕ
  pub hard_floor : ℕ
  pub soft_floor : ℕ
  pub entries : ℕ

pub record CheckpointEntry : Type 0 where
  pub fold : ℕ
  pub hard_sequence : ℕ
  pub soft_sequence : ℕ
