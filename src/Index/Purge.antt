-- ===== src/Index/Purge.antt =====
-- Purging: the log first, then the map (src/vmod_cachetag_purgemap.c, vmod_cachetag_index.c). The
-- log is an interface, so that this part stands on what the log promises and not on its files.
use libvmod_cachetag.Base.{ℕ, ◌+◌, ◌-◌, ◌/◌}
use libvmod_cachetag.Base.{Bool, false, not, ◌&&◌, ◌||◌, Option, none, some, List, [], ◌∷◌}
use libvmod_cachetag.Base.{ltb, ◌==◌, if◌then◌else◌}
use libvmod_cachetag.Base.{length}
use libvmod_cachetag.Base.{and_then, Result, ok, err, Errno, einval, eio, enomem, efbig, map}
use libvmod_cachetag.PurgeMap.Table.{Entry, Table, is_live}
use libvmod_cachetag.PurgeMap.Map.{
  PurgeMap, Mode, new_map, size_max, prepare_upsert, prepare_batch, apply_upsert, slots_of,
}
use libvmod_cachetag.PurgeMap.Prune.{prune, prune_rollback}
use libvmod_cachetag.PurgeMap.Probe.{fold_digest}
use libvmod_cachetag.Persist.{
  PurgeKey, key_purge, key_purge_batch, key_purge_payload, key_purge_batch_payload,
}
use libvmod_cachetag.Wal.Meta.{CheckpointMeta, CheckpointEntry}

-- The log, as its clients use it: `append` takes a record's type and payload.
pub record Journal (J : Type 0) : Type 0 where
  pub enabled : J → Bool
  pub append : J → ℕ → List ℕ → J × Option Errno
  pub checkpoint_due : J → Bool
  pub checkpoint : J → CheckpointMeta → List CheckpointEntry → J × Option Errno

-- The map is allocated at the first purge.
pub record Index (J : Type 0) : Type 0 where
  pub purgemap : Option PurgeMap
  pub journal : J
  pub history_max : ℕ

-- Which allocations of one call succeed.
pub record Memory : Type 0 where
  pub map_alloc : Bool
  pub table_alloc : Bool
  pub batch_alloc : Bool
  pub payload_alloc : Bool
  pub prune_alloc : Bool

-- The returns -1, -2, -3 and -4 of a purge.
pub data Reply : Type 0 where
  accepted rejected bad_key log_failed : Reply

-- The entries that `checkpoint_next` yields, call after call.
unfoldable pub checkpoint_entries : List Entry → List CheckpointEntry
checkpoint_entries [] = []
checkpoint_entries (e ∷ es) =
    if is_live e.fold
    then record { fold = e.fold; hard_sequence = e.hard_seq; soft_sequence = e.soft_seq }
      ∷ checkpoint_entries es
    else checkpoint_entries es

-- the record that a checkpoint of the map starts from
abbrev pub meta_of : PurgeMap → CheckpointMeta
meta_of pm = record {
  purge_sequence = pm.seq;
  wal_sequence = 0;
  hard_floor = pm.hard_floor;
  soft_floor = pm.soft_floor;
  entries = pm.nentry;
}

abbrev missing_table : Option Table → ℕ → Bool
missing_table none nentry = not (nentry == 0)
missing_table (some tbl) nentry = false

abbrev pub purgemap_get : Option PurgeMap → Bool → Option PurgeMap
purgemap_get (some pm) alloc = some pm
purgemap_get none alloc = if alloc then some new_map else none

abbrev refusal : Errno → Reply
refusal einval = bad_key
refusal e = rejected

-- The error of a batch's log record: only the log's own is a failure of the log.
abbrev batch_refusal : Errno → Reply
batch_refusal enomem = rejected
batch_refusal efbig = rejected
batch_refusal e = log_failed

abbrev as_eio : {J : Type 0} → J × Option Errno → J × Option Errno
as_eio (j, none) = (j, none)
as_eio (j, some e) = (j, some eio)

abbrev pub map_folds : List PurgeKey → List ℕ
map_folds keys = map (λ k. fold_digest k.digest_hi k.digest_lo) keys

-- The upserts of a batch, all at one sequence.
unfoldable pub apply_all : PurgeMap → List ℕ → ℕ → Mode → Option PurgeMap
unfolding apply_upsert
apply_all pm [] seq mode = some pm
apply_all pm (fold ∷ folds) seq mode =
    and_then (apply_upsert pm fold seq mode) λ r. apply_all r.0 folds seq mode

-- A pruned map stays only if its checkpoint is written.
abbrev pub keep_or_roll_back :
    {J : Type 0} → PurgeMap → PurgeMap → ℕ → J × Option Errno → PurgeMap × J × Option Errno
keep_or_roll_back old pm pruned (j, none) = (pm, j, none)
keep_or_roll_back old pm pruned (j, some e) =
    (if pruned == 0 then pm else prune_rollback old pm, j, some e)

module _ {J : Type 0} (wal : Journal J) where
  unfoldable pub checkpoint_locked : PurgeMap → J → Bool → J × Option Errno
  unfolding checkpoint_entries
  checkpoint_locked pm j force =
      if not (wal.enabled j) || (not force && not (wal.checkpoint_due j))
      then (j, none)
      else if missing_table pm.table pm.nentry
      then (j, some einval)
      else wal.checkpoint j (meta_of pm) (checkpoint_entries (slots_of pm.table))

  abbrev pub after_prune : PurgeMap → J → Bool → Result (PurgeMap × ℕ) → PurgeMap × J × Option Errno
  after_prune old j force (err e) = (old, j, some e)
  after_prune old j force (ok (pm, pruned)) =
      if wal.enabled j
      then keep_or_roll_back old pm pruned (checkpoint_locked pm j (force || not (pruned == 0)))
      else (pm, j, none)

  unfoldable pub prune_checkpoint :
      PurgeMap → J → ℕ → Bool → Bool → Option (PurgeMap × J × Option Errno)
  unfolding checkpoint_locked prune
  prune_checkpoint pm j limit alloc force =
      and_then (prune pm limit alloc) λ r. some (after_prune pm j force r)

  unfoldable pub persist_key_purge : J → PurgeKey → Mode → ℕ → J × Option Errno
  unfolding key_purge_payload
  persist_key_purge j key mode seq =
      if wal.enabled j
      then as_eio (wal.append j key_purge (key_purge_payload key.digest_hi key.digest_lo mode seq))
      else (j, none)

  unfoldable pub persist_key_purge_batch : J → List PurgeKey → Mode → ℕ → Bool → J × Option Errno
  unfolding key_purge_batch_payload persist_key_purge
  persist_key_purge_batch j keys mode seq alloc =
      if not (wal.enabled j)
      then (j, none)
      else if length keys == 1
      then elim keys [ [] ↦ (j, none) | k ∷ _ ↦ persist_key_purge j k mode seq ]
      else if ltb ((size_max - 24) / 16) (length keys)
      then (j, some efbig)
      else if not alloc
      then (j, some enomem)
      else as_eio (wal.append j key_purge_batch (key_purge_batch_payload keys mode seq))

  abbrev pub answer : Index J → Option PurgeMap → J → Reply → Option (Index J × Reply)
  answer idx pm j reply = some (record idx { purgemap = pm; journal = j }, reply)

  -- What follows once the log has the record: the sequence, the entries, the prune, the memo.
  unfoldable pub commit :
      Index J → Memory → PurgeMap → J → List ℕ → ℕ → Mode → Option (Index J × Reply)
  unfolding apply_all prune_checkpoint
  commit idx mem pm j folds seq mode =
      and_then (apply_all (record pm { seq = seq }) folds seq mode) λ pm'.
        and_then (prune_checkpoint pm' j idx.history_max mem.prune_alloc false)
          λ r. answer idx (some (record r.0 { memo_seq = seq })) r.1 accepted

  abbrev pub logged :
      Index J
      → Memory
      → PurgeMap
      → List ℕ
      → ℕ
      → Mode
      → (Errno → Reply)
      → J × Option Errno
      → Option (Index J × Reply)
  logged idx mem pm folds seq mode refuse (j, some e) = answer idx (some pm) j (refuse e)
  logged idx mem pm folds seq mode refuse (j, none) = commit idx mem pm j folds seq mode

  abbrev pub purge_prepared :
      Index J → Memory → PurgeMap → PurgeKey → Mode → Result PurgeMap → Option (Index J × Reply)
  purge_prepared idx mem pm key mode (err e) = answer idx (some pm) idx.journal rejected
  purge_prepared idx mem pm key mode (ok pm') =
      if pm'.seq == size_max
      then answer idx (some pm') idx.journal rejected
      else logged idx mem pm' (fold_digest key.digest_hi key.digest_lo ∷ []) (pm'.seq + 1) mode
          (λ e. log_failed) (persist_key_purge idx.journal key mode (pm'.seq + 1))

  abbrev pub purge_got :
      Index J → Memory → PurgeKey → Mode → Option PurgeMap → Option (Index J × Reply)
  purge_got idx mem key mode none = answer idx none idx.journal rejected
  purge_got idx mem key mode (some pm) =
      purge_prepared idx mem pm key mode (prepare_upsert pm mem.table_alloc)

  -- `cachetag_purge`, with the digest of its key. `none`: it does not end, or an assertion fails.
  unfoldable pub purge : Index J → Memory → Result PurgeKey → Mode → Option (Index J × Reply)
  unfolding commit persist_key_purge prepare_upsert
  purge idx mem (err e) mode = some (idx, refusal e)
  purge idx mem (ok key) mode = purge_got idx mem key mode (purgemap_get idx.purgemap mem.map_alloc)

  abbrev batch_prepared :
      Index J
      → Memory
      → PurgeMap
      → List PurgeKey
      → Mode
      → Result PurgeMap
      → Option (Index J × Reply)
  batch_prepared idx mem pm keys mode (err e) = answer idx (some pm) idx.journal rejected
  batch_prepared idx mem pm keys mode (ok pm') =
      logged idx mem pm' (map_folds keys) (pm.seq + 1) mode batch_refusal
        (persist_key_purge_batch idx.journal keys mode (pm.seq + 1) mem.payload_alloc)

  abbrev batch_got :
      Index J → Memory → List PurgeKey → Mode → Option PurgeMap → Option (Index J × Reply)
  batch_got idx mem keys mode none = answer idx none idx.journal rejected
  batch_got idx mem keys mode (some pm) =
      if pm.seq == size_max
      then answer idx (some pm) idx.journal rejected
      else batch_prepared idx mem pm keys mode (prepare_batch pm (length keys) mem.table_alloc)

  -- `cachetag_purge_batch`: one sequence for all keys.
  unfoldable pub purge_batch : Index J → Memory → List PurgeKey → Mode → Option (Index J × Reply)
  unfolding commit persist_key_purge_batch prepare_batch
  purge_batch idx mem keys mode =
      if ltb (size_max / 8) (length keys) || not mem.batch_alloc
      then some (idx, rejected)
      else batch_got idx mem keys mode (purgemap_get idx.purgemap mem.map_alloc)
