-- ===== src/Index/Restore.antt =====
-- Restoring the purge history from the log at the start, and asking for an object's state
-- (src/vmod_cachetag_purgemap.c, vmod_cachetag_index.c).
use libvmod_cachetag.Base.{ℕ, zero, suc, ◌+◌, ◌*◌, ◌/◌}
use libvmod_cachetag.Base.{Bool, true, false, not, ◌&&◌, ◌||◌, Option, none, some, List, [], ◌∷◌}
use libvmod_cachetag.Base.{ltb, leb, ◌==◌, if◌then◌else◌}
use libvmod_cachetag.Base.{length}
use libvmod_cachetag.Base.{and_then, Result, ok, err, Errno, einval, enomem, efbig}
use libvmod_cachetag.PurgeMap.Table.{
  Entry, Table, Find, at, absent, endless, find, table_new, table_insert_existing,
}
use libvmod_cachetag.PurgeMap.Map.{
  PurgeMap, Mode, hard, soft, size_max, initial_slots, overloaded, prepare_upsert, prepare_batch,
}
use libvmod_cachetag.PurgeMap.Prune.{prune}
use libvmod_cachetag.PurgeMap.Probe.{fold_digest, ProbeResult, probe_none, probe_soft, probe_hard}
use libvmod_cachetag.Persist.{
  KeyPurge, BatchPurge, key_purge, key_purge_batch, decode_key_purge_record,
  decode_key_purge_batch_record,
}
use libvmod_cachetag.Wal.Meta.{CheckpointMeta, CheckpointEntry}
use libvmod_cachetag.Wal.Frame.{LogRecord}
use libvmod_cachetag.Index.Purge.{Memory, apply_all, map_folds, purgemap_get}

-- A step of a restore: the map and the step's error, or `none` if it does not end.
abbrev pub Step : Type 0
Step = Option (Option PurgeMap × Option Errno)

abbrev pub pruned_map : PurgeMap → Result (PurgeMap × ℕ) → Option PurgeMap × Option Errno
pruned_map pm (ok (pm', _)) = (some pm', none)
pruned_map pm (err e) = (some pm, some e)

-- The purge of a record, with the room already made.
abbrev pub replay_commit : PurgeMap → Memory → ℕ → List ℕ → ℕ → Mode → Step
replay_commit pm mem limit folds seq mode =
    and_then (apply_all (record pm { seq = seq }) folds seq mode)
      λ pm'. and_then (prune pm' limit mem.prune_alloc) λ r. some (pruned_map pm' r)

abbrev replay_prepared : PurgeMap → Memory → ℕ → List ℕ → ℕ → Mode → Result PurgeMap → Step
replay_prepared pm mem limit folds seq mode (err e) = some (some pm, some e)
replay_prepared pm mem limit folds seq mode (ok pm') = replay_commit pm' mem limit folds seq mode

abbrev pub replay_batch : Option PurgeMap → Memory → ℕ → Result BatchPurge → Step
replay_batch pm mem limit (err e) = some (pm, some e)
replay_batch pm mem limit (ok b) = elim (purgemap_get pm mem.map_alloc) [
  | none ↦ some (pm, some enomem)
  | some pm' ↦
      if leb b.seq pm'.seq
      then some (some pm', some einval)
      else replay_prepared pm' mem limit (map_folds b.keys) b.seq b.mode
          (prepare_batch pm' (length b.keys) mem.table_alloc)
]

-- The sequence is set after the upsert here, which reads no sequence but the record's.
abbrev pub replay_single : Option PurgeMap → Memory → ℕ → Result KeyPurge → Step
replay_single pm mem limit (err e) = some (pm, some e)
replay_single pm mem limit (ok k) = elim (purgemap_get pm mem.map_alloc) [
  | none ↦ some (pm, some enomem)
  | some pm' ↦
      if leb k.seq pm'.seq
      then some (some pm', some einval)
      else replay_prepared pm' mem limit (fold_digest k.key.digest_hi k.key.digest_lo ∷ []) k.seq
          k.mode (prepare_upsert pm' mem.table_alloc)
]

unfoldable pub replay : Option PurgeMap → Memory → ℕ → LogRecord → Step
unfolding prepare_upsert prepare_batch apply_all prune decode_key_purge_record
    decode_key_purge_batch_record
replay pm mem limit rec =
    if rec.type == key_purge_batch
    then replay_batch pm mem limit (decode_key_purge_batch_record rec.payload mem.batch_alloc)
    else replay_single pm mem limit (decode_key_purge_record rec.payload)

-- The log's callback: a record of another type is skipped.
unfoldable pub replay_cb : Option PurgeMap → Memory → ℕ → LogRecord → Step
unfolding replay
replay_cb pm mem limit rec =
    if not (rec.type == key_purge) && not (rec.type == key_purge_batch)
    then some (pm, none)
    else replay pm mem limit rec

abbrev pub replay_complete : Option PurgeMap → Option PurgeMap
replay_complete none = none
replay_complete (some pm) = some (record pm { memo_seq = pm.seq })

-- The table's size for a checkpoint of so many entries.
unfoldable pub checkpoint_slots : ℕ → ℕ → ℕ → Option ℕ
checkpoint_slots zero entries nslot = none
checkpoint_slots (suc fuel) entries nslot =
    let more = checkpoint_slots fuel entries (nslot * 2) in
    if overloaded entries nslot
    then (if ltb (size_max / 2) nslot then none else more)
    else some nslot

abbrev unused : PurgeMap → Bool
unused pm = elim pm.table [ none ↦ pm.nentry == 0 && pm.seq == 0 | some _ ↦ false ]

abbrev pub begin_with : PurgeMap → CheckpointMeta → Option Table → PurgeMap
begin_with pm m tbl = record pm {
  table = tbl;
  hard_floor = m.hard_floor;
  soft_floor = m.soft_floor;
  seq = m.purge_sequence;
}

unfoldable pub checkpoint_begin :
    Option PurgeMap → Memory → CheckpointMeta → Option PurgeMap × Option Errno
unfolding checkpoint_slots table_new
checkpoint_begin pm mem m =
    if m.purge_sequence == size_max
      || (ltb m.purge_sequence m.hard_floor
          || (ltb m.purge_sequence m.soft_floor || ltb size_max m.entries))
    then (pm, some einval)
    else elim (purgemap_get pm mem.map_alloc) [
      | none ↦ (pm, some enomem)
      | some pm' ↦
          if not (unused pm')
          then (some pm', some einval)
          else elim (checkpoint_slots 64 m.entries initial_slots) [
            | none ↦ (some pm', some efbig)
            | some nslot ↦
                if m.entries == 0
                then (some (begin_with pm' m none), none)
                else if mem.table_alloc
                then (some (begin_with pm' m (some (table_new nslot))), none)
                else (some pm', some enomem)
          ]
    ]

abbrev entry_of : CheckpointEntry → Entry
entry_of c = record { fold = c.fold; hard_seq = c.hard_sequence; soft_seq = c.soft_sequence }

-- The loop runs as the one of `find` does: the fold is live and the table has no dead slots.
abbrev entry_at : PurgeMap → Table → CheckpointEntry → Find → Step
entry_at pm tbl c (at pos) = some (some pm, some einval)
entry_at pm tbl c absent = some (
  some
      (record pm { table = some (table_insert_existing tbl (entry_of c)); nentry = pm.nentry + 1 }),
  none,
)
entry_at pm tbl c endless = none

abbrev entry_in : PurgeMap → CheckpointEntry → Option Table → Step
entry_in pm c none = some (some pm, some einval)
entry_in pm c (some tbl) =
    if leb (length tbl) pm.nentry
    then some (some pm, some einval)
    else entry_at pm tbl c (find tbl c.fold)

unfoldable pub checkpoint_entry : Option PurgeMap → CheckpointEntry → Step
unfolding find table_insert_existing
checkpoint_entry none c = some (none, some einval)
checkpoint_entry (some pm) c = entry_in pm c pm.table

-- The entries of a checkpoint in turn, up to the first that fails.
unfoldable pub checkpoint_load : Option PurgeMap → List CheckpointEntry → Step
unfolding checkpoint_entry
checkpoint_load pm [] = some (pm, none)
checkpoint_load pm (c ∷ cs) =
    and_then (checkpoint_entry pm c)
      λ r. elim r.1 [ none ↦ checkpoint_load r.0 cs | some e ↦ some r ]

-- What `cachetag_stale` asks of the rest of the program, in order: the two looks at the object's
-- record, the pending insert, and the stored attribute. `none` is "not found".
pub record StaleView : Type 0 where
  pub dying : Bool
  pub has_object : Bool
  pub has_map : Bool
  pub first : Option ProbeResult
  pub pending : Option (Option (Option Mode × Option Errno))
  pub second : Option ProbeResult
  pub persistent : Bool
  pub attribute : Option Mode × Option Errno

-- The verdict of a probe that may fail: a failure counts as a hard purge.
abbrev pub direct : ProbeResult → Option Mode × Option Errno → ProbeResult
direct probe (mode, some e) = probe_hard
direct probe (some hard, none) = probe_hard
direct probe (some soft, none) = probe_soft
direct probe (none, none) = probe

abbrev looked : Bool → Option ProbeResult → ProbeResult × Bool
looked false r = (probe_none, false)
looked true none = (probe_none, false)
looked true (some p) = (p, true)

abbrev ask_pending : StaleView → ProbeResult × Bool → ProbeResult × Bool
ask_pending v (p, true) = (p, true)
ask_pending v (p, false) = elim v.pending [
  | none ↦ (p, false)
  | some none ↦ if v.has_object && v.has_map then looked true v.second else (p, false)
  | some (some answer) ↦ if v.has_object then (direct p answer, true) else (p, false)
]

abbrev ask_attribute : StaleView → ProbeResult × Bool → ProbeResult
ask_attribute v (p, true) = p
ask_attribute v (p, false) = if v.has_object && v.persistent then direct p v.attribute else p

-- What it does to the object, with its return of 1 or 0.
pub data Outcome : Type 0 where
  stale reduced fresh : Outcome

unfoldable pub stale_outcome : StaleView → Outcome
stale_outcome v =
    if v.has_object && v.dying
    then stale
    else elim (ask_attribute v (ask_pending v (looked (v.has_object && v.has_map) v.first))) [
      | probe_hard ↦ stale
      | probe_soft ↦ reduced
      | probe_none ↦ fresh
    ]
