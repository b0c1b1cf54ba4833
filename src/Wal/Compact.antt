-- ===== src/Wal/Compact.antt =====
-- Taking a checkpoint: its file, the rotation, the new manifest, and the files that go
-- (src/vmod_cachetag_wal.c).
use libvmod_cachetag.Base.{ℕ, ◌+◌, ◌-◌}
use libvmod_cachetag.Base.{Bool, not, ◌&&◌, Option, none, some, List, [], ◌∷◌, ◌++◌}
use libvmod_cachetag.Base.{ltb, leb, ◌==◌, if◌then◌else◌}
use libvmod_cachetag.Base.{Errno, einval, efbig, ebusy}
use libvmod_cachetag.Wal.Meta.{CheckpointMeta, CheckpointEntry}
use libvmod_cachetag.Wal.Replay.{Segment}
use libvmod_cachetag.Wal.Log.{
  Log, CheckpointRef, Outcome, Io, fail, on_success, manifest_publish, Publish,
}
use libvmod_cachetag.Wal.Append.{prepare, rotate}
use libvmod_cachetag.Wal.Checkpoint.{
  checkpoint_bytes, checkpoint_file, checkpoint_header, emit_entries, max_entries,
}

module _ (xxh3 : List ℕ → ℕ) where
  -- The outcomes of the calls that a checkpoint adds; `stored` says whether the file is renamed.
  pub record CheckpointIo : Type 0 where
    pub io : Io
    pub store : Option Errno
    pub stored : Bool
    pub unlink_segment : ℕ → Bool
    pub unlink_checkpoint : Bool
    pub publish : Publish

  abbrev pub put_checkpoint : Log → ℕ → Option (List ℕ) → Log
  put_checkpoint log generation file = record log {
    disk = record log.disk {
      checkpoints = λ g. if g == generation then file else log.disk.checkpoints g;
    };
  }

  abbrev is_covered : ℕ → Segment → Bool
  is_covered wal_sequence seg = not (seg.last_seq == 0) && leb seg.last_seq wal_sequence

  -- The sealed segments that a checkpoint leaves, and those that it collects.
  unfoldable pub uncovered : ℕ → List Segment → List Segment
  uncovered wal_sequence [] = []
  uncovered wal_sequence (seg ∷ segs) =
      if is_covered wal_sequence seg
      then uncovered wal_sequence segs
      else seg ∷ uncovered wal_sequence segs

  unfoldable pub unlink_covered : CheckpointIo → ℕ → List Segment → Log → Log
  unlink_covered cio wal_sequence [] log = log
  unlink_covered cio wal_sequence (seg ∷ segs) log = unlink_covered cio wal_sequence segs (
      if is_covered wal_sequence seg && cio.unlink_segment seg.first_seq
      then record log {
        wal = record log.wal {
          checkpoint_segments_collected = log.wal.checkpoint_segments_collected + 1;
        };
        disk = record log.disk { logs = λ n. if n == seg.first_seq then none else log.disk.logs n };
      }
      else log)

  abbrev drop_old : CheckpointIo → Option CheckpointRef → Log → Log
  drop_old cio none log = log
  drop_old cio (some c) log =
      if cio.unlink_checkpoint then put_checkpoint log c.generation none else log

  abbrev fail_again : Outcome → Outcome
  fail_again (log, none) = (log, none)
  fail_again (log, some e) = fail log e

  -- From the stored file on: the rotation, the new manifest, and the files it no longer names.
  abbrev pub adopt : CheckpointIo → CheckpointMeta → ℕ → ℕ → Log → Outcome
  adopt cio m generation checksum log =
      on_success
        (if log.wal.active.records == 0 then (log, none) else fail_again (rotate cio.io log))
        λ log.
          let sealed = log.wal.sealed in
          let old = log.wal.checkpoint in
          let ref : CheckpointRef = record {
            generation = generation;
            purge_sequence = m.purge_sequence;
            wal_sequence = m.wal_sequence;
            hard_floor = m.hard_floor;
            soft_floor = m.soft_floor;
            entries = m.entries;
            bytes = checkpoint_bytes m.entries;
            checksum = checksum;
          } in
          on_success
            (manifest_publish
              (record log {
                wal = record log.wal {
                  sealed = uncovered m.wal_sequence sealed;
                  checkpoint = some ref;
                };
              })
              cio.publish)
            λ log. (
              drop_old cio old (
                  unlink_covered cio m.wal_sequence sealed (record log {
                    wal = record log.wal {
                      checkpoint_publications = log.wal.checkpoint_publications + 1;
                    };
                  })),
              none,
            )

  abbrev stored_as : CheckpointIo → CheckpointMeta → ℕ → List ℕ → ℕ → Log → Outcome
  stored_as cio m generation file checksum log = elim cio.store [
    | some e ↦ fail (if cio.stored then put_checkpoint log generation (some file) else log) e
    | none ↦ adopt cio m generation checksum (put_checkpoint log generation (some file))
  ]

  -- `cachetag_wal_checkpoint`, with the entries that `next` yields.
  unfoldable pub checkpoint : CheckpointIo → CheckpointMeta → List CheckpointEntry → Log → Outcome
  unfolding prepare rotate manifest_publish emit_entries uncovered unlink_covered checkpoint_file
      checkpoint_header
  checkpoint cio m entries log =
      if ltb max_entries m.entries
      then (log, some efbig)
      else on_success (prepare cio.io log) λ log.
        let m' = record m { wal_sequence = log.wal.next_seq - 1 } in
        let generation = log.wal.generation + 1 in
        if not log.wal.replayed then fail log ebusy else elim (emit_entries m' 0 entries) [
          | none ↦ fail log einval
          | some bytes ↦
              stored_as cio m' generation (checkpoint_file xxh3 log.wal m' generation bytes)
                (xxh3 (checkpoint_header xxh3 log.wal m' generation ++ bytes)) log
        ]
