-- ===== src/Wal/Replay.antt =====
-- Replaying a segment (src/vmod_cachetag_wal.c). A file is its bytes; reads succeed, and are short
-- only at its end. `alloc` says whether `malloc` yields so many bytes.
use libvmod_cachetag.Base.{ℕ, zero, suc, ◌+◌, ◌-◌, ◌^◌}
use libvmod_cachetag.Base.{Bool, true, false, not, ◌&&◌, ◌||◌, Option, none, some, List}
use libvmod_cachetag.Base.{ltb, ◌==◌, if◌then◌else◌}
use libvmod_cachetag.Base.{length, get_or, take, drop}
use libvmod_cachetag.Base.{Errno, einval, eio, enomem, efbig}
use libvmod_cachetag.Codec.{le64dec}
use libvmod_cachetag.Wal.Frame.{LogRecord, header_len, header_csum, record_checksum}

abbrev pub u64_max : ℕ
u64_max = 2 ^ 64 - 1

abbrev pub has_wal_magic : List ℕ → Bool
has_wal_magic hdr =
    get_or hdr 0 0 == b'V'
    && (get_or hdr 1 0 == b'T'
        && (get_or hdr 2 0 == b'W' && (get_or hdr 3 0 == b'1' && get_or hdr 4 0 == 1)))

-- How the loop ends: normally, with an error, or not within the fuel.
pub data Stop : Type 0 where
  done : Stop
  failed : Errno → Stop
  stuck : Stop

-- the errors that the end of the active segment is allowed
abbrev pub tolerated : Bool → Errno → Stop
tolerated true e = done
tolerated false e = failed e

pub record Segment : Type 0 where
  pub first_seq : ℕ
  pub last_seq : ℕ
  pub bytes : ℕ
  pub records : ℕ

-- The locals of the loop, with the state `priv` of the callback.
pub record Run {ℓ} (S : Type ℓ) : Type ℓ where
  pub priv : S
  pub max_seq : ℕ
  pub valid_records : ℕ
  pub valid_bytes : ℕ
  pub replay_records : ℕ

module _ {ℓ} {S : Type ℓ} where
  abbrev pub accept : Run S → LogRecord → S → Run S
  accept run rec priv = record run {
    priv = priv;
    max_seq = if ltb run.max_seq rec.sequence then rec.sequence else run.max_seq;
    valid_records = run.valid_records + 1;
    valid_bytes = run.valid_bytes + (header_len + length rec.payload);
    replay_records = run.replay_records + 1;
  }

  abbrev pub called : Run S → LogRecord → S × Option Errno → (Run S → Stop × Run S) → Stop × Run S
  called run rec (priv, some e) next = (failed e, record run { priv = priv })
  called run rec (priv, none) next = next (accept run rec priv)

  -- After the loop the counts of the active segment are set, and those of a sealed one compared.
  abbrev pub settle : Segment → Stop × Run S → Stop × Segment × Run S
  settle seg (stop, run) =
      if seg.last_seq == 0
      then (stop, record seg { records = run.valid_records; bytes = run.valid_bytes }, run)
      else (
        elim stop [
          | done ↦
              if seg.last_seq == run.max_seq && seg.bytes == run.valid_bytes
              then done
              else failed einval
          | failed e ↦ failed e
          | stuck ↦ stuck
        ],
        seg,
        run,
      )

module _ {ℓ} {S : Type ℓ} (xxh3 : List ℕ → ℕ) (alloc : ℕ → Bool)
    (func : S → LogRecord → S × Option Errno) where
  -- the rest of a round, once the header and the payload are read
  abbrev pub checked : Bool → Run S → List ℕ → List ℕ → (Run S → Stop × Run S) → Stop × Run S
  checked active run hdr payload next =
      let rec : LogRecord = record {
        type = get_or hdr 5 0;
        sequence = le64dec (drop 8 hdr);
        payload = payload;
      } in
      if not (record_checksum xxh3 hdr payload == le64dec (drop header_csum hdr))
      then (tolerated active einval, run)
      else if run.max_seq == u64_max || not (rec.sequence == run.max_seq + 1)
      then (failed einval, run)
      else called run rec (func run.priv rec) next

  unfoldable pub segment_loop : ℕ → Bool → List ℕ → Run S → Stop × Run S
  segment_loop zero active file run = (stuck, run)
  segment_loop (suc fuel) active file run =
      let hdr = take header_len file in
      let payload_len = le64dec (drop 16 hdr) in
      let payload = take payload_len (drop header_len file) in
      let next = λ (r : Run S). segment_loop fuel active (drop (header_len + payload_len) file) r in
      if length hdr == 0
      then (done, run)
      else if not (length hdr == header_len)
      then (tolerated active eio, run)
      else if not (has_wal_magic hdr)
      then (tolerated active einval, run)
      else if ltb (u64_max - header_csum) payload_len
      then (failed efbig, run)
      else if ltb 0 payload_len && not (alloc payload_len)
      then (failed enomem, run)
      else if not (length payload == payload_len)
      then (tolerated active eio, run)
      else checked active run hdr payload next

  -- A round takes a header at least, so that `length file` rounds are enough.
  unfoldable pub replay_segment : List ℕ → Segment → S → ℕ → ℕ → Stop × Segment × Run S
  replay_segment file seg priv max_seq replay_records =
      let run : Run S = record {
        priv = priv;
        max_seq = max_seq;
        valid_records = 0;
        valid_bytes = 0;
        replay_records = replay_records;
      } in
      if max_seq == u64_max || not (seg.first_seq == max_seq + 1)
      then (failed einval, seg, run)
      else settle seg (segment_loop (suc (length file)) (seg.last_seq == 0) file run)
