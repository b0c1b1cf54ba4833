-- ===== src/PurgeMap/Map.antt =====
-- `struct cachetag_purgemap` and the operations that insert into it (src/vmod_cachetag_purgemap.c).
-- They run under `purge_mtx`, one at a time. The flag `alloc` says whether `calloc` yields memory.
-- A table of `nslot` slots takes 24 bytes for each, so the products by 100 and 70 below stay under
-- 2 ^ 64 for every table that memory holds.
use libvmod_cachetag.Base.{ℕ, zero, suc, ◌+◌, ◌-◌, ◌*◌, ◌/◌, ◌^◌}
use libvmod_cachetag.Base.{Bool, true, false, not, ◌&&◌, ◌||◌, Option, none, some, List, [], ◌∷◌}
use libvmod_cachetag.Base.{ltb, leb, ◌==◌, if◌then◌else◌}
use libvmod_cachetag.Base.{length, set}
use libvmod_cachetag.Base.{Result, ok, err, enomem, eoverflow}
use libvmod_cachetag.PurgeMap.Table.{Entry, Table, slot, home, is_live, table_new}
use libvmod_cachetag.PurgeMap.Table.{Spot, hit, vacant, lost, upsert_loop, table_insert_existing}

pub data Mode : Type 0 where
  hard soft : Mode

pub record PurgeMap : Type 0 where
  pub table : Option Table
  pub nentry : ℕ
  pub ntombstone : ℕ
  pub seq : ℕ
  pub memo_seq : ℕ
  pub hard_floor : ℕ
  pub soft_floor : ℕ

abbrev pub initial_slots : ℕ
initial_slots = 16

abbrev pub max_load_percent : ℕ
max_load_percent = 70

abbrev pub empty_min_divisor : ℕ
empty_min_divisor = 8

abbrev pub size_max : ℕ
size_max = 2 ^ 64 - 1

-- a map as `cachetag_purgemap_get` allocates it
abbrev pub new_map : PurgeMap
new_map = record {
  table = none;
  nentry = 0;
  ntombstone = 0;
  seq = 0;
  memo_seq = 0;
  hard_floor = 0;
  soft_floor = 0;
}

pub empty_slots : PurgeMap → Table → ℕ
empty_slots pm tbl =
    let occupied = pm.nentry + pm.ntombstone in
    if ltb occupied (length tbl) then length tbl - occupied else 0

abbrev rebuild_threshold : Table → ℕ
rebuild_threshold tbl =
    let threshold = length tbl / empty_min_divisor in if threshold == 0 then 1 else threshold

unfoldable pub needs_same_size_rebuild : PurgeMap → Option Table → Bool
unfolding empty_slots
needs_same_size_rebuild pm none = false
needs_same_size_rebuild pm (some tbl) =
    let threshold = rebuild_threshold tbl in
    ltb (empty_slots pm tbl) threshold || leb threshold pm.ntombstone

-- `while (nslot < minslot) nslot *= 2`: a `size_t` doubles 64 times at most.
unfoldable pub double_until : ℕ → (ℕ → Bool) → ℕ → ℕ
double_until zero enough nslot = nslot
double_until (suc fuel) enough nslot =
    let more = double_until fuel enough (nslot * 2) in if enough nslot then nslot else more

-- The loop over the old slots.
unfoldable pub insert_live : List Entry → Table → Table
insert_live [] tbl = tbl
insert_live (e ∷ old) tbl =
    insert_live old (if is_live e.fold then table_insert_existing tbl e else tbl)

abbrev pub slots_of : Option Table → List Entry
slots_of none = []
slots_of (some tbl) = tbl

abbrev pub rebuild_slots : Option Table → ℕ → Bool → ℕ
rebuild_slots none minslot grow = double_until 64 (λ n. leb minslot n) initial_slots
rebuild_slots (some tbl) minslot grow =
    double_until 64 (λ n. leb minslot n) (if grow then length tbl * 2 else length tbl)

unfoldable pub rebuild : PurgeMap → ℕ → Bool → Bool → Result PurgeMap
unfolding double_until insert_live table_new
rebuild pm minslot grow alloc =
    if alloc
    then ok (record pm {
      table =
          some (insert_live (slots_of pm.table) (table_new (rebuild_slots pm.table minslot grow)));
      ntombstone = 0;
    })
    else err enomem

-- the load test of `prepare_upsert_locked`
abbrev pub overloaded : ℕ → ℕ → Bool
overloaded entries nslot = ltb (nslot * max_load_percent) (entries * 100)

unfoldable pub grow_if_loaded : PurgeMap → Option Table → Bool → Result PurgeMap
grow_if_loaded pm none alloc = rebuild pm initial_slots true alloc
grow_if_loaded pm (some tbl) alloc =
    if overloaded (pm.nentry + 1) (length tbl)
    then rebuild pm (length tbl * 2) true alloc
    else ok pm

unfoldable pub prepare_upsert : PurgeMap → Bool → Result PurgeMap
unfolding grow_if_loaded rebuild needs_same_size_rebuild
prepare_upsert pm alloc =
    if needs_same_size_rebuild pm pm.table
    then rebuild pm (length (slots_of pm.table)) false alloc
    else grow_if_loaded pm pm.table alloc

-- The sequences that an existing entry takes.
abbrev pub raise_entry : Entry → ℕ → Mode → Entry
raise_entry e seq hard = if ltb e.hard_seq seq then record e { hard_seq = seq } else e
raise_entry e seq soft = if ltb e.soft_seq seq then record e { soft_seq = seq } else e

abbrev pub fresh_entry : ℕ → ℕ → Mode → Entry
fresh_entry fold seq hard = record { fold = fold; hard_seq = seq; soft_seq = 0 }
fresh_entry fold seq soft = record { fold = fold; hard_seq = 0; soft_seq = seq }

abbrev pub upsert_at : PurgeMap → Table → ℕ → ℕ → Mode → Spot → Option (PurgeMap × Bool)
upsert_at pm tbl fold seq mode (hit pos) =
    some (record pm { table = some (set tbl pos (raise_entry (slot tbl pos) seq mode)) }, false)
upsert_at pm tbl fold seq mode (vacant pos reused) = some (
  record pm {
    table = some (set tbl pos (fresh_entry fold seq mode));
    ntombstone = if reused then pm.ntombstone - 1 else pm.ntombstone;
    nentry = pm.nentry + 1;
  },
  true,
)
upsert_at pm tbl fold seq mode lost = none

-- `none` means that the assertion `AN(tbl)` fails, or that the probe loop does not end.
unfoldable pub upsert_in : Option Table → PurgeMap → ℕ → ℕ → Mode → Option (PurgeMap × Bool)
upsert_in none pm fold seq mode = none
upsert_in (some tbl) pm fold seq mode =
    upsert_at pm tbl fold seq mode
      (upsert_loop (length tbl) tbl (length tbl) fold (home fold (length tbl)) none)

unfoldable pub apply_upsert : PurgeMap → ℕ → ℕ → Mode → Option (PurgeMap × Bool)
unfolding upsert_in upsert_loop
apply_upsert pm fold seq mode = upsert_in pm.table pm fold seq mode

-- The capacity loop of `prepare_batch_locked`; `none` is EOVERFLOW.
unfoldable pub batch_slots : ℕ → ℕ → ℕ → Option ℕ
batch_slots zero need nslot = none
batch_slots (suc fuel) need nslot =
    let more = batch_slots fuel need (nslot * 2) in
    if overloaded need nslot then (if ltb (size_max / 2) nslot then none else more) else some nslot

abbrev pub batch_grows : Option Table → ℕ → Bool
batch_grows none nslot = true
batch_grows (some tbl) nslot = ltb (length tbl) nslot

abbrev batch_start : Option Table → ℕ
batch_start none = initial_slots
batch_start (some tbl) = length tbl

abbrev batch_rebuild : PurgeMap → Bool → ℕ → Result PurgeMap
batch_rebuild pm alloc nslot =
    let grow = batch_grows pm.table nslot in
    if not grow && not (needs_same_size_rebuild pm pm.table)
    then ok pm
    else rebuild pm nslot grow alloc

unfoldable pub prepare_batch : PurgeMap → ℕ → Bool → Result PurgeMap
unfolding batch_slots rebuild needs_same_size_rebuild
prepare_batch pm nfolds alloc =
    if ltb (size_max - nfolds) pm.nentry
    then err eoverflow
    else elim (batch_slots 64 (pm.nentry + nfolds) (batch_start pm.table)) [
      | none ↦ err eoverflow
      | some nslot ↦ batch_rebuild pm alloc nslot
    ]
