-- ===== src/Wal/Log.antt =====
-- The open log, its files, and its manifest (src/vmod_cachetag_wal.c). The files are a state of their
-- own, and the outcome of each system call is an argument.
use libvmod_cachetag.Base.{ℕ, ◌+◌, ◌-◌}
use libvmod_cachetag.Base.{Bool, true, false, ◌&&◌, Option, none, some, List, [], ◌∷◌}
use libvmod_cachetag.Base.{◌==◌, if◌then◌else◌}
use libvmod_cachetag.Base.{Errno, eio}
use libvmod_cachetag.Wal.Replay.{Segment}

pub record CheckpointRef : Type 0 where
  pub generation : ℕ
  pub purge_sequence : ℕ
  pub wal_sequence : ℕ
  pub hard_floor : ℕ
  pub soft_floor : ℕ
  pub entries : ℕ
  pub bytes : ℕ
  pub checksum : ℕ

-- `sealed` and then `active` are the list `segments`; `is_open` is `fd >= 0`.
pub record Wal : Type 0 where
  pub is_open : Bool
  pub next_seq : ℕ
  pub segment_max_bytes : ℕ
  pub records : ℕ
  pub bytes : ℕ
  pub failures : ℕ
  pub degraded : Bool
  pub replayed : Bool
  pub generation : ℕ
  pub root_id_hi : ℕ
  pub root_id_lo : ℕ
  pub namespace : List ℕ
  pub checkpoint : Option CheckpointRef
  pub checkpoint_publications : ℕ
  pub checkpoint_segments_collected : ℕ
  pub replay_records : ℕ
  pub sealed : List Segment
  pub active : Segment

-- The manifest's values; its segments have no record counts.
pub record Manifest : Type 0 where
  pub generation : ℕ
  pub last_sequence : ℕ
  pub checkpoint : Option CheckpointRef
  pub segments : List Segment

-- A segment's file is named by the segment's first sequence, a checkpoint's by its generation.
pub record Disk : Type 0 where
  pub logs : ℕ → Option (List ℕ)
  pub checkpoints : ℕ → Option (List ℕ)
  pub manifest : Option Manifest

pub record Log : Type 0 where
  pub wal : Wal
  pub disk : Disk

-- `write_all` ends, or fails after so many bytes.
pub data Write : Type 0 where
  whole : Write
  cut : ℕ → Errno → Write

-- Where publishing a manifest fails: before its text, before the rename, or after it.
pub data Publish : Type 0 where
  published : Publish
  unprepared unrenamed unsynced : Errno → Publish

-- The outcomes of the system calls of one operation, `none` for success.
pub record Io : Type 0 where
  pub mkdir_root : Option Errno
  pub mkdir_log : Option Errno
  pub stat_active : Option Errno
  pub open_active : Option Errno
  pub fstat_active : Bool
  pub truncate_active : Option Errno
  pub sync_log_dir : Option Errno
  pub publish_new : Publish
  pub segment_alloc : Bool
  pub rotate_sync : Option Errno
  pub rotate_close : Option Errno
  pub rotate_open : Option Errno
  pub rotate_sync_dir : Option Errno
  pub rotate_publish : Publish
  pub write_header : Write
  pub write_payload : Write
  pub sync : Option Errno

abbrev pub Outcome : Type 0
Outcome = Log × Option Errno

abbrev pub fail : Log → Errno → Outcome
fail log e = (
  record log { wal = record log.wal { degraded = true; failures = log.wal.failures + 1 } },
  some e,
)

abbrev pub attempt : Option Errno → Log → (Log → Outcome) → Outcome
attempt none log next = next log
attempt (some e) log next = fail log e

abbrev pub on_success : Outcome → (Log → Outcome) → Outcome
on_success (log, none) next = next log
on_success (log, some e) next = (log, some e)

abbrev pub or_empty : Option (List ℕ) → List ℕ
or_empty none = []
or_empty (some bytes) = bytes

abbrev pub exists_file : Option (List ℕ) → Bool
exists_file none = false
exists_file (some bytes) = true

abbrev pub file_of : Log → ℕ → List ℕ
file_of log n = or_empty (log.disk.logs n)

abbrev pub write_log : Log → ℕ → List ℕ → Log
write_log log n bytes = record log {
  disk = record log.disk { logs = λ m. if m == n then some bytes else log.disk.logs m };
}

abbrev pub set_open : Log → Bool → Log
set_open log b = record log { wal = record log.wal { is_open = b } }

-- A sealed segment without bytes and records is left out.
unfoldable pub written_segments : List Segment → Segment → List Segment
written_segments [] active = active ∷ []
written_segments (seg ∷ sealed) active =
    if seg.bytes == 0 && seg.records == 0
    then written_segments sealed active
    else seg ∷ written_segments sealed active

abbrev pub manifest_of : Wal → Manifest
manifest_of wal = record {
  generation = wal.generation;
  last_sequence = wal.next_seq - 1;
  checkpoint = wal.checkpoint;
  segments = written_segments wal.sealed wal.active;
}

abbrev pub next_generation : Log → Log
next_generation log = record log { wal = record log.wal { generation = log.wal.generation + 1 } }

abbrev pub rename_manifest : Log → Log
rename_manifest log = record log {
  disk = record log.disk { manifest = some (manifest_of log.wal) };
}

-- The part of `manifest_publish_locked` after the test of `degraded`.
abbrev pub publish_as : Log → Publish → Outcome
publish_as log published = (rename_manifest (next_generation log), none)
publish_as log (unprepared e) = fail log e
publish_as log (unrenamed e) = fail (next_generation log) e
publish_as log (unsynced e) = fail (rename_manifest (next_generation log)) e

unfoldable pub manifest_publish : Log → Publish → Outcome
unfolding written_segments
manifest_publish log outcome = if log.wal.degraded then (log, some eio) else publish_as log outcome
