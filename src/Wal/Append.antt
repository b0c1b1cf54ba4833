-- ===== src/Wal/Append.antt =====
-- Appending to the log (src/vmod_cachetag_wal.c).
pub mod Durable
pub mod Crash
use libvmod_cachetag.Base.{
  ℕ, zero, suc, ◌+◌, ◌-◌, ◌*◌, ◌/◌, ◌%◌, ◌^◌, ◌≤◌, ◌<◌, ◌≡◌, ◌≢◌, ap, ◌∙◌, refl, sym,
}
use libvmod_cachetag.Base.{
  Bool, true, false, not, ◌&&◌, ◌||◌, Option, none, some, List, [], ◌∷◌, ◌++◌, arith,
}
use libvmod_cachetag.Base.{ltb, leb, ◌==◌, if◌then◌else◌, ==_iff, Bool-cases, ◌⊎◌, inl, inr, ◌↔◌}
use libvmod_cachetag.Base.{
  length, get_or, set, replicate, All, take, drop, append_assoc, append-nil,
}
use libvmod_cachetag.Base.{
  length-set, length-append, length-replicate, get_or-replicate, get_or-set_self, get_or-set_ne,
}
use libvmod_cachetag.Base.{Errno, einval, eio, enomem, efbig}
use libvmod_cachetag.Wal.Frame.{LogRecord, header_len, header, frame}
use libvmod_cachetag.Wal.Replay.{Segment}
use libvmod_cachetag.Wal.Log.{
  CheckpointRef, Disk, Io, Log, Manifest, Outcome, Publish, Wal, Write, attempt, cut, exists_file,
  fail, file_of, manifest_of, manifest_publish, next_generation, on_success, or_empty, publish_as,
  published, rename_manifest, set_open, unprepared, unrenamed, unsynced, whole, write_log,
  written_segments,
}

abbrev pub truncated : Option Errno → Log → ℕ → ℕ → (Log → Outcome) → Outcome
truncated none log first size next = next (write_log log first (take size (file_of log first)))
truncated (some e) log first size next = fail log e

-- What a replay left behind the last whole record is cut off, if `fstat` tells the size.
abbrev pub cut_tail : Io → Log → (Log → Outcome) → Outcome
cut_tail io log next =
    let first = log.wal.active.first_seq in
    let size = log.wal.active.bytes in
    if log.wal.replayed
      && (log.wal.active.last_seq == 0
          && (io.fstat_active && ltb size (length (file_of log first))))
    then truncated io.truncate_active log first size next
    else next log

-- A new file is listed in the manifest before it is used.
unfoldable pub announce : Bool → Io → Log → Outcome
unfolding manifest_publish
announce false io log = (log, none)
announce true io log = attempt io.sync_log_dir log λ log. manifest_publish log io.publish_new

unfoldable pub prepare : Io → Log → Outcome
unfolding announce
prepare io log =
    let first = log.wal.active.first_seq in
    let created = not (exists_file (log.disk.logs first)) in
    if log.wal.degraded
    then (log, some eio)
    else if log.wal.is_open
    then (log, none)
    else attempt io.mkdir_root log λ log. attempt io.mkdir_log log λ log.
      attempt io.stat_active log λ log. attempt io.open_active log λ log.
        cut_tail io (set_open (write_log log first (file_of log first)) true)
          λ log. announce created io log

-- The segment that follows the active one.
abbrev pub next_segment : Wal → Segment
next_segment wal = record { first_seq = wal.next_seq; last_seq = 0; bytes = 0; records = 0 }

-- `next_seq - 1` on 64 bits
abbrev pub last_given : Wal → ℕ
last_given wal = (wal.next_seq + (2 ^ 64 - 1)) % 2 ^ 64

abbrev pub seal_active : Log → Log
seal_active log = record log {
  wal = record log.wal {
    is_open = false;
    sealed = log.wal.sealed ++ (record log.wal.active { last_seq = last_given log.wal }) ∷ [];
    active = next_segment log.wal;
  };
}

unfoldable pub rotate : Io → Log → Outcome
unfolding manifest_publish
rotate io log =
    let first = log.wal.next_seq in
    if log.wal.active.records == 0
    then (log, none)
    else if not io.segment_alloc
    then fail log enomem
    else attempt io.rotate_sync log λ log. attempt io.rotate_close (set_open log false) λ log.
      attempt io.rotate_open (seal_active log) λ log.
        attempt io.rotate_sync_dir (set_open (write_log log first (file_of log first)) true)
          λ log. manifest_publish log io.rotate_publish

-- The bytes of a write that reach the file.
abbrev pub written : Write → List ℕ → List ℕ
written whole bytes = bytes
written (cut n e) bytes = take n bytes

abbrev pub write_error : Write → Option Errno
write_error whole = none
write_error (cut n e) = some e

abbrev pub append_bytes : Log → List ℕ → Log
append_bytes log bytes =
    write_log log log.wal.active.first_seq (file_of log log.wal.active.first_seq ++ bytes)

abbrev pub count_record : ℕ → Log → Log
count_record record_len log = record log {
  wal = record log.wal {
    records = log.wal.records + 1;
    bytes = log.wal.bytes + record_len;
    active = record log.wal.active {
      records = log.wal.active.records + 1;
      bytes = log.wal.active.bytes + record_len;
    };
  };
}

-- the sequence number that the record takes
abbrev pub take_seq : Log → Log
take_seq log = record log { wal = record log.wal { next_seq = (log.wal.next_seq + 1) % 2 ^ 64 } }

module _ (xxh3 : List ℕ → ℕ) where
  -- The two writes and the `fsync`, with what each of them answers.
  abbrev pub write_parts : Write → Write → Option Errno → ℕ → List ℕ → Log → Outcome
  write_parts header_write payload_write sync type payload log =
      let rec : LogRecord = record {
        type = type;
        sequence = log.wal.next_seq;
        payload = payload;
      } in
      let log = append_bytes (take_seq log) (written header_write (header xxh3 rec)) in
      attempt (write_error header_write) log λ log.
        let log = append_bytes log (written payload_write payload) in
        attempt (write_error payload_write) log
          λ log. attempt sync log λ log. (count_record (header_len + length payload) log, none)

  unfoldable pub write_record : Io → ℕ → List ℕ → Log → Outcome
  write_record io type payload log =
      write_parts io.write_header io.write_payload io.sync type payload log

  abbrev pub segment_full : ℕ → Wal → Bool
  segment_full record_len wal =
      ltb 0 wal.active.records
      && ltb wal.segment_max_bytes ((wal.active.bytes + record_len) % 2 ^ 64)

  unfoldable pub append : Io → ℕ → List ℕ → Log → Outcome
  append io type payload log = on_success (prepare io log) λ log.
      if ltb (2 ^ 64 - 1 - header_len) (length payload)
      then fail log efbig
      else on_success
          (if segment_full (header_len + length payload) log.wal
            then rotate io log
            else (log, none))
          λ log. write_record io type payload log

abbrev pub checkpoint_sequence : Wal → ℕ
checkpoint_sequence wal = elim wal.checkpoint [ none ↦ 0 | some c ↦ c.wal_sequence ]

unfoldable pub any_after : ℕ → List Segment → Bool
any_after seq [] = false
any_after seq (seg ∷ segs) = not (seg.last_seq == 0) && ltb seq seg.last_seq || any_after seq segs

unfoldable pub checkpoint_due : Wal → Bool
unfolding any_after
checkpoint_due wal = any_after (checkpoint_sequence wal) (wal.sealed ++ wal.active ∷ [])

abbrev no_checkpoint : Option CheckpointRef → Bool
no_checkpoint none = true
no_checkpoint (some c) = false

unfoldable pub recovery_checkpoint_due : Wal → Bool
recovery_checkpoint_due wal =
    no_checkpoint wal.checkpoint || ltb (checkpoint_sequence wal) (wal.next_seq - 1)
