-- ===== src/Wal/Start.antt =====
-- The start: the manifest's ranges and the replay of everything (src/vmod_cachetag_wal.c).
use libvmod_cachetag.Base.{ℕ, ◌+◌}
use libvmod_cachetag.Base.{Bool, true, false, not, ◌&&◌, ◌||◌, Option, none, some, List, [], ◌∷◌}
use libvmod_cachetag.Base.{ltb, ◌==◌, if◌then◌else◌}
use libvmod_cachetag.Base.{Errno, einval, enoent}
use libvmod_cachetag.Wal.Frame.{LogRecord}
use libvmod_cachetag.Wal.Replay.{Segment, u64_max, Stop, done, failed, stuck, Run, replay_segment}
use libvmod_cachetag.Wal.Log.{Wal, Manifest, CheckpointRef}

abbrev is_last : List Segment → Bool
is_last [] = true
is_last (seg ∷ segs) = false

-- The check of `manifest_load_locked` that the segments follow one another from `range_next` on,
-- and that at most the last one is open.
unfoldable pub ranges_follow : ℕ → List Segment → Bool
ranges_follow range_next [] = true
ranges_follow range_next (seg ∷ segs) =
    let further = ranges_follow (seg.last_seq + 1) segs in
    if not (seg.first_seq == range_next)
      || (not (seg.last_seq == 0) && ltb seg.last_seq seg.first_seq
          || seg.last_seq == 0 && not (is_last segs))
    then false
    else if seg.last_seq == 0
    then true
    else if seg.last_seq == u64_max
    then false
    else further

-- The sealed segments of a list, and the open one that ends it, if there is one.
unfoldable pub split_active : List Segment → List Segment × Option Segment
split_active [] = ([], none)
split_active (seg ∷ segs) =
    let (sealed, active) = split_active segs in
    if seg.last_seq == 0 then ([], some seg) else (seg ∷ sealed, active)

abbrev larger : ℕ → ℕ → ℕ
larger a b = if ltb a b then b else a

abbrev open_segment : ℕ → Option Segment → Segment
open_segment seq none = record { first_seq = seq + 1; last_seq = 0; bytes = 0; records = 0 }
open_segment seq (some seg) = seg

abbrev last_known : ℕ → ℕ → Option Segment → ℕ
last_known max_seq covered none = larger max_seq covered
last_known max_seq covered (some seg) = max_seq

abbrev range_start : Option CheckpointRef → ℕ
range_start none = 1
range_start (some c) = c.wal_sequence + 1

abbrev covered_by : Option CheckpointRef → ℕ
covered_by none = 0
covered_by (some c) = c.wal_sequence

-- `manifest_load_locked`, for the values of a manifest that it parses.
unfoldable pub manifest_load : Manifest → Wal → Option Wal
unfolding ranges_follow split_active
manifest_load m wal =
    let (sealed, active) = split_active m.segments in
    let last = last_known m.last_sequence (covered_by m.checkpoint) active in
    if covered_by m.checkpoint == u64_max
      || not (ranges_follow (range_start m.checkpoint) m.segments)
    then none
    else some (record wal {
      generation = m.generation;
      checkpoint = m.checkpoint;
      sealed = sealed;
      active = open_segment last active;
      next_seq = last + 1;
    })

module _ {ℓ} {S : Type ℓ} (xxh3 : List ℕ → ℕ) (alloc : ℕ → Bool)
    (func : S → LogRecord → S × Option Errno) where
  abbrev pub starting : S → ℕ → ℕ → Run S
  starting s max_seq replay_records = record {
    priv = s;
    max_seq = max_seq;
    valid_records = 0;
    valid_bytes = 0;
    replay_records = replay_records;
  }

  abbrev pub replay_file : Option (List ℕ) → Segment → S → ℕ → ℕ → Stop × Segment × Run S
  replay_file none seg s max_seq n =
      if max_seq == u64_max || not (seg.first_seq == max_seq + 1)
      then (failed einval, seg, starting s max_seq n)
      else (failed enoent, seg, starting s max_seq n)
  replay_file (some file) seg s max_seq n = replay_segment xxh3 alloc func file seg s max_seq n

  -- The loop of `cachetag_wal_replay` over the segments: it stops at the first error.
  unfoldable pub replay_segments :
      (ℕ → Option (List ℕ)) → List Segment → S → ℕ → ℕ → Stop × List Segment × Run S
  unfolding replay_segment
  replay_segments logs [] s max_seq n = (done, [], starting s max_seq n)
  replay_segments logs (seg ∷ segs) s max_seq n =
      let (stop, seg', run) = replay_file (logs seg.first_seq) seg s max_seq n in
      elim stop [
        | failed e ↦ (failed e, seg' ∷ segs, run)
        | stuck ↦ (stuck, seg' ∷ segs, run)
        | done ↦
            let (stop', segs', run') =
              replay_segments logs segs run.priv run.max_seq run.replay_records in
            (stop', seg' ∷ segs', run')
      ]
