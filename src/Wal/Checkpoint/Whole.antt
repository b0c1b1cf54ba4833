-- ===== src/Wal/Checkpoint/Whole.antt =====
-- A whole checkpoint file under the manifest that names it (src/vmod_cachetag_wal.c).
use libvmod_cachetag.Base.{ok, true}
use libvmod_cachetag.Base.{ℕ, ◌^◌, ◌<◌}
use libvmod_cachetag.Base.{true, Option, List}
use libvmod_cachetag.Base.{Errno}
use libvmod_cachetag.Wal.Log.{Wal, CheckpointRef}
use libvmod_cachetag.Wal.Checkpoint.{meta_of_ref, checkpoint_header, checkpoint_file, ReplayIo}

-- The numbers of a checkpoint fit their fields.
pub record RefFits (wal : Wal) (c : CheckpointRef) : Type 0 where
  pub root_hi : wal.root_id_hi < 2 ^ 64
  pub root_lo : wal.root_id_lo < 2 ^ 64
  pub generation : c.generation < 2 ^ 64
  pub purge : c.purge_sequence < 2 ^ 64
  pub log : c.wal_sequence < 2 ^ 64
  pub hard : c.hard_floor < 2 ^ 64
  pub soft : c.soft_floor < 2 ^ 64
  pub count : c.entries < 2 ^ 64

module _ (xxh3 : List ℕ → ℕ) (xxh3_fits : (bytes : List ℕ) → xxh3 bytes < 2 ^ 64) (wal : Wal)
    (c : CheckpointRef) (bytes : List ℕ) where
  abbrev head : List ℕ
  head = checkpoint_header xxh3 wal (meta_of_ref c) c.generation

  abbrev file : List ℕ
  file = checkpoint_file xxh3 wal (meta_of_ref c) c.generation bytes

-- The file is opened, the hash's state is had, and closing the file ends as `closed` tells.
abbrev pub opened : List ℕ → Option Errno → ReplayIo
opened file closed = record {
  path_alloc = true;
  open_file = ok file;
  state_alloc = true;
  close_file = closed;
}
