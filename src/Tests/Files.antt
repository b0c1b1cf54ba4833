-- ===== src/Tests/Files.antt =====
-- The log's files at concrete inputs (src/vmod_cachetag_wal.c).
use libvmod_cachetag.Base.{
  ℕ, ◌+◌, ◌^◌, ◌≡◌, refl, Bool, true, false, Option, none, some, List, [], ◌∷◌, ◌++◌, ◌<◌, arith,
  Errno, eio, ok, length, take, if◌then◌else◌, ltb,
}
use libvmod_cachetag.PurgeMap.Map.{hard, soft}
use mathlib.Core.List.{Perm}
use libvmod_cachetag.Base.{inl}
use libvmod_cachetag.Persist.Order.{IsAscending}
use libvmod_cachetag.Persist.{
  PurgeKey, key_purge_payload, key_purge_batch_payload, decode_key_purge_record,
  decode_key_purge_batch_record,
}
use libvmod_cachetag.Persist.RoundTrip.{decode-key_purge_payload, decode-key_purge_batch_payload}
use libvmod_cachetag.Wal.Meta.{CheckpointEntry}
use libvmod_cachetag.Wal.Frame.{LogRecord, frame}
use libvmod_cachetag.Wal.Replay.{Segment, tolerated, settle, replay_segment}
use libvmod_cachetag.Wal.Recovery.{frames, deliver}
use libvmod_cachetag.Wal.Recovery.Torn.{start, replay_segment-torn_log}
use libvmod_cachetag.Wal.Log.{Log, Io, cut, whole, published, CheckpointRef}
use libvmod_cachetag.Wal.Append.{append}
use libvmod_cachetag.Wal.Append.Durable.{Appended, next_record, append-Appended}
use libvmod_cachetag.Wal.Append.Crash.{Recovered, replay_segment-append}
use libvmod_cachetag.Wal.Checkpoint.{Restorer, entry_bytes}

-- A stand-in for the hash: the length, of short inputs.
abbrev hash : List ℕ → ℕ
hash bytes = if ltb (length bytes) 1000 then length bytes else 0

hash_fits : (bytes : List ℕ) → hash bytes < 2 ^ 64
hash_fits bytes = ground arith

abbrev room : ℕ → Bool
room n = true

-- A callback that counts the records.
abbrev counted : ℕ → LogRecord → ℕ × Option Errno
counted n rec = (n + 1, none)

abbrev note : ℕ → LogRecord
note n = record { type = 3; sequence = n; payload = 7 ∷ 8 ∷ [] }

abbrev segment1 : Segment
segment1 = record { first_seq = 1; last_seq = 0; bytes = 0; records = 0 }

decode-key_purge_payload_example :
    decode_key_purge_record (key_purge_payload 6 3 hard 1)
    ≡ ok (record { key = record { digest_hi = 6; digest_lo = 3 }; mode = hard; seq = 1 })
decode-key_purge_payload_example =
    decode-key_purge_payload 6 3 1 hard (omega arith) (omega arith) (omega arith) (omega arith)

abbrev two_keys : List PurgeKey
two_keys = record { digest_hi = 6; digest_lo = 3 } ∷ record { digest_hi = 2; digest_lo = 9 } ∷ []

decode-key_purge_batch_payload_example :
    (sorted : List PurgeKey) × (decode_key_purge_batch_record
        (key_purge_batch_payload two_keys soft 4)
        true
      ≡ ok (record { keys = sorted; mode = soft; seq = 4 }))
    × IsAscending sorted
    × Perm sorted two_keys
decode-key_purge_batch_payload_example =
    decode-key_purge_batch_payload two_keys soft 4 (omega arith) (omega arith)
      ((omega arith, omega arith), ((omega arith, omega arith), tt))
      ((inl (λ e. omega (arith, e)), tt), (tt, tt)) (omega arith) (omega arith)

replay_segment-torn_log_example :
    replay_segment hash room counted
      (frames hash (note 1 ∷ note 2 ∷ []) ++ take 33 (frame hash (note 3)))
      segment1
      0
      0
      0
    ≡ settle segment1
        (deliver counted (note 1 ∷ note 2 ∷ []) (start 0 0 0) λ r. (tolerated true eio, r))
replay_segment-torn_log_example =
    replay_segment-torn_log hash hash_fits room counted (note 1 ∷ note 2 ∷ []) (note 3) 33 segment1
      0 0 0 refl (omega arith)
      (
        record { sequence_fits = omega arith; payload_fits = omega arith },
        refl,
        refl,
        (record { sequence_fits = omega arith; payload_fits = omega arith }, refl, refl, tt),
      )
      (record { sequence_fits = omega arith; payload_fits = omega arith }) refl (omega arith)

abbrev torn_io : Io
torn_io = record {
  mkdir_root = none;
  mkdir_log = none;
  stat_active = none;
  open_active = none;
  fstat_active = true;
  truncate_active = none;
  sync_log_dir = none;
  publish_new = published;
  segment_alloc = true;
  rotate_sync = none;
  rotate_close = none;
  rotate_open = none;
  rotate_sync_dir = none;
  rotate_publish = published;
  write_header = whole;
  write_payload = cut 1 eio;
  sync = none;
}

abbrev open_log : Log
open_log = record {
  wal = record {
    is_open = true;
    next_seq = 1;
    segment_max_bytes = 1000;
    records = 0;
    bytes = 0;
    failures = 0;
    degraded = false;
    replayed = true;
    generation = 1;
    root_id_hi = 1;
    root_id_lo = 2;
    namespace = b'n' ∷ [];
    checkpoint = none;
    checkpoint_publications = 0;
    checkpoint_segments_collected = 0;
    replay_records = 0;
    sealed = [];
    active = segment1;
  };
  disk = record { logs = λ n. none; checkpoints = λ n. none; manifest = none };
}

append-Appended_example :
    Appended hash 3 (7 ∷ 8 ∷ []) open_log (append hash torn_io 3 (7 ∷ 8 ∷ []) open_log)
append-Appended_example =
    append-Appended hash torn_io 3 (7 ∷ 8 ∷ []) open_log refl refl (omega arith) refl

abbrev one_entry : List CheckpointEntry
one_entry = record { fold = 5; hard_sequence = 1; soft_sequence = 0 } ∷ []

abbrev ref1 : CheckpointRef
ref1 = record {
  generation = 2;
  purge_sequence = 1;
  wal_sequence = 1;
  hard_floor = 0;
  soft_floor = 0;
  entries = 1;
  bytes = 120;
  checksum = 112;
}

-- Callbacks that collect the entries.
abbrev collect : Restorer (List CheckpointEntry)
collect = record { begin = λ s m. (s, none); entry = λ s c. (c ∷ s, none) }

abbrev emitted : List ℕ
emitted = entry_bytes (record { fold = 5; hard_sequence = 1; soft_sequence = 0 }) ++ []

-- A log whose active file holds one record.
abbrev held_log : Log
held_log = record open_log {
  wal = record open_log.wal { next_seq = 2; active = record segment1 { records = 1; bytes = 34 } };
  disk = record open_log.disk { logs = λ n. some (frames hash (note 1 ∷ [])) };
}

replay_segment-append_example :
    Recovered hash hash_fits room counted
      (note 1 ∷ [])
      (next_record held_log 3 (9 ∷ []))
      held_log.wal.active
      0
      0
      0
      (append hash torn_io 3 (9 ∷ []) held_log)
replay_segment-append_example =
    replay_segment-append hash hash_fits room counted torn_io (note 1 ∷ []) 3 (9 ∷ []) held_log 0 0
      0 refl refl (omega arith) refl refl refl refl
      (record { sequence_fits = omega arith; payload_fits = omega arith }, refl, refl, tt) refl refl
      (omega arith)
