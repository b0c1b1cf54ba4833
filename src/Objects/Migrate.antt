-- ===== src/Objects/Migrate.antt =====
-- The pair of side tables: a new table takes over from the old one a batch of buckets at a time,
-- while objects are found in both (src/vmod_cachetag_index.c). The counters for statistics are left
-- out. A table of `buckets` buckets takes 8 bytes for each, so that the products with the load
-- limits stay under 2 ^ 64 for every table that memory holds.
pub mod Steps
pub mod Batch
pub mod Search
pub mod Publish
pub mod Resize
use libvmod_cachetag.Base.{ℕ, zero, suc, ◌+◌, ◌-◌, ◌*◌, ◌/◌, bit_and}
use libvmod_cachetag.Base.{Bool, true, false, not, ◌&&◌, ◌||◌, Option, none, some, List, replicate}
use libvmod_cachetag.Base.{ltb, leb, ◌==◌, if◌then◌else◌, Result, ok, err, Errno, and_then}
use libvmod_cachetag.Base.{einval, ebusy, efault, eoverflow, estale}
use libvmod_cachetag.PurgeMap.Map.{size_max}
use libvmod_cachetag.Objects.Side.{
  Objects, object_at, Bucket, no_bucket, bucket_of, bucket_live, slot_decode, SideTable, SideFind,
  found, missing, broken, table_find, table_insert, table_tombstone,
}

-- Why a table is replaced; `idle` is TAG_SIDE_MIGRATION_NONE.
pub data Reason : Type 0 where
  idle grow rebuild shrink rollback : Reason

pub record SideIndex : Type 0 where
  pub primary : SideTable
  pub retiring : SideTable
  pub cursor : ℕ
  pub active : Bool
  pub reason : Reason
  pub auto : Bool

-- a table as `cachetag_side_table_clear` leaves it
abbrev pub cleared : SideTable
cleared = record { map = none; buckets = 0; tombstones = 0; live = 0 }

abbrev pub has_map : Option (List Bucket) → Bool
has_map none = false
has_map (some m) = true

abbrev pub default_buckets : ℕ
default_buckets = 64

-- The returns 1, 0 and -1 of a search in both tables, with the table, the bucket and the slot.
pub data Located : Type 0 where
  in_primary in_retiring : ℕ → ℕ → Located
  nowhere fault : Located

abbrev pub found_retiring : SideFind → Located
found_retiring (found p s) = in_retiring p s
found_retiring missing = nowhere
found_retiring broken = fault

abbrev pub missing_too : SideFind → Bool
missing_too (found p s) = false
missing_too missing = true
missing_too broken = false

abbrev pub found_primary : SideTable → SideFind → SideFind → Located
found_primary r again (found p s) =
    if has_map r.map && not (missing_too again) then fault else in_primary p s
found_primary r again missing = found_retiring again
found_primary r again broken = fault

unfoldable pub side_find : Objects → ℕ → SideIndex → ℕ → Located
side_find os bits sx oc =
    if oc == 0
    then nowhere
    else if not (os.nobjects == sx.primary.live + sx.retiring.live)
    then fault
    else found_primary sx.retiring (table_find os bits sx.retiring oc)
        (table_find os bits sx.primary oc)

-- One bucket of the retiring table: its object goes to the primary table. `none` means that an
-- assertion fails; an error leaves the tables as they are.
abbrev pub moved_to : SideIndex → Option SideTable → SideTable → Option (SideIndex × Option Errno)
moved_to sx none primary = none
moved_to sx (some retiring) primary =
    some (record sx { primary = primary; retiring = retiring }, none)

abbrev pub inserted_to : SideIndex → Result SideTable → Option (SideIndex × Option Errno)
inserted_to sx (err e) = some (sx, some e)
inserted_to sx (ok primary) = moved_to sx (table_tombstone sx.retiring sx.cursor) primary

abbrev pub move_slot : Objects → ℕ → SideIndex → Option ℕ → Option (SideIndex × Option Errno)
move_slot os bits sx none = some (sx, some efault)
move_slot os bits sx (some slot) =
    if leb os.nobjects slot || (object_at os slot).oc == 0
    then some (sx, some efault)
    else inserted_to sx (table_insert os bits sx.primary (object_at os slot).oc slot)

unfoldable pub move_bucket : Objects → ℕ → SideIndex → Option (SideIndex × Option Errno)
move_bucket os bits sx =
    let b = bucket_of sx.retiring.map sx.cursor in
    if bucket_live b then move_slot os bits sx (slot_decode b.slot_code) else some (sx, none)

-- The loop over the buckets, `max_inspected` of them at most.
unfoldable pub migrate_loop : ℕ → Objects → ℕ → SideIndex → Option (SideIndex × Option Errno)
migrate_loop zero os bits sx = some (sx, none)
migrate_loop (suc max_inspected) os bits sx =
    if not (ltb sx.cursor sx.retiring.buckets)
    then some (sx, none)
    else and_then (move_bucket os bits sx) λ r. elim r.1 [
      | some e ↦ some (r.0, some e)
      | none ↦ migrate_loop max_inspected os bits (record r.0 { cursor = r.0.cursor + 1 })
    ]

abbrev pub finish_migration : SideIndex → SideIndex × Option Errno
finish_migration sx =
    if not (sx.cursor == sx.retiring.buckets)
    then (sx, none)
    else if not (sx.retiring.live == 0)
    then (sx, some efault)
    else (
      record sx { retiring = cleared; cursor = 0; active = false; reason = idle; auto = false },
      none,
    )

unfoldable pub migrate_some : Objects → ℕ → SideIndex → ℕ → Option (SideIndex × Option Errno)
migrate_some os bits sx max_inspected =
    if not sx.active
    then some (sx, none)
    else if not (has_map sx.retiring.map && has_map sx.primary.map)
        || (sx.retiring.buckets == 0 || sx.primary.buckets == 0)
    then some (sx, some efault)
    else if max_inspected == 0
    then some (sx, none)
    else and_then (migrate_loop max_inspected os bits sx)
        λ r. elim r.1 [ some e ↦ some (r.0, some e) | none ↦ some (finish_migration r.0) ]

-- `alloc` says whether the new table's memory, all zero, could be had.
unfoldable pub publish_migration : SideIndex → Bool → ℕ → Reason → Result SideIndex
publish_migration sx alloc buckets reason =
    let fresh : SideTable = record {
      map = some (replicate buckets no_bucket);
      buckets = buckets;
      tombstones = 0;
      live = 0;
    } in
    if not alloc || (buckets == 0 || not (bit_and buckets (buckets - 1) == 0))
    then err einval
    else if sx.active
    then err ebusy
    else if has_map sx.primary.map && not (sx.primary.buckets == 0)
    then ok (record {
      primary = fresh;
      retiring = sx.primary;
      cursor = 0;
      active = true;
      reason = reason;
      auto = false;
    })
    else ok (record {
      primary = fresh;
      retiring = cleared;
      cursor = 0;
      active = false;
      reason = idle;
      auto = false;
    })

abbrev pub is_shrink : Reason → Bool
is_shrink shrink = true
is_shrink _ = false

-- Whether it rolled back, and what it left.
unfoldable pub rollback_shrink : SideIndex → SideIndex × Bool
rollback_shrink sx =
    if not sx.active
      || not (is_shrink sx.reason)
      || (not (has_map sx.retiring.map) || sx.retiring.buckets == 0)
    then (sx, false)
    else (
      record sx {
        primary = sx.retiring;
        retiring = sx.primary;
        cursor = 0;
        reason = rollback;
        auto = true;
      },
      true,
    )

-- `buckets * 7 / 10`
abbrev pub hard_limit : ℕ → ℕ
hard_limit buckets = buckets * 7 / 10

-- What an insertion finds: room, the table to allocate first (EAGAIN), or an error.
pub data Prepared : Type 0 where
  ready : SideIndex → Prepared
  resize : SideIndex → ℕ → Reason → Prepared
  refused : SideIndex → Errno → Prepared

abbrev pub has_room : SideTable → Bool
has_room t = leb (t.live + t.tombstones + 1) (hard_limit t.buckets)

abbrev pub prepare_idle : SideIndex → Prepared
prepare_idle sx =
    let t = sx.primary in
    if ltb (t.buckets / 4) t.tombstones && leb (t.live + 1) (hard_limit t.buckets)
    then resize sx t.buckets rebuild
    else if ltb (size_max / 2) t.buckets
    then refused sx eoverflow
    else resize sx (t.buckets * 2) grow

-- The second look after a rollback, which is not a shrink any more.
abbrev pub prepare_again : SideIndex × Bool → Prepared
prepare_again (sx, false) = refused sx ebusy
prepare_again (sx, true) = if has_room sx.primary then ready sx else refused sx ebusy

unfoldable pub prepare_insert : SideIndex → Prepared
unfolding rollback_shrink
prepare_insert sx =
    if sx.primary.buckets == 0
    then resize sx default_buckets grow
    else if has_room sx.primary
    then ready sx
    else if sx.active
    then prepare_again (rollback_shrink sx)
    else prepare_idle sx

abbrev pub reason_fits : Reason → ℕ → ℕ → Result Bool
reason_fits rebuild buckets old = ok (buckets == old)
reason_fits grow buckets old = ok (buckets == old * 2)
reason_fits _ buckets old = err einval

abbrev pub set_auto : Result SideIndex → Result SideIndex
set_auto (err e) = err e
set_auto (ok sx) = ok (record sx { auto = sx.active })

abbrev pub publish_fitting : SideIndex → Bool → ℕ → Reason → Result Bool → Result SideIndex
publish_fitting sx alloc buckets reason (err e) = err e
publish_fitting sx alloc buckets reason (ok false) = err estale
publish_fitting sx alloc buckets reason (ok true) =
    set_auto (publish_migration sx alloc buckets reason)

unfoldable pub publish_allocated_for_insert : SideIndex → Bool → ℕ → Reason → Result SideIndex
unfolding publish_migration
publish_allocated_for_insert sx alloc buckets reason =
    if sx.primary.buckets == 0
    then (if not (buckets == default_buckets)
        then err estale
        else set_auto (publish_migration sx alloc buckets reason))
    else if sx.active
    then err ebusy
    else if has_room sx.primary
    then err estale
    else publish_fitting sx alloc buckets reason (reason_fits reason buckets sx.primary.buckets)
