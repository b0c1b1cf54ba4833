-- ===== src/PurgeMap/Prune.antt =====
-- Bounding the history: pruning to a limit, and reclaiming what no object needs
-- (src/vmod_cachetag_purgemap.c). `alloc` says whether the allocations succeed.
pub mod Scan
pub mod Partition
pub mod Select
pub mod Floors
pub mod Bounds
pub mod Rebuilt
pub mod Keeps
pub mod Verdicts
pub mod Reclaim
pub mod Reclaimed
pub mod Kept
use libvmod_cachetag.Base.{ℕ, zero, suc, ◌+◌, ◌-◌, ◌*◌, ◌/◌, ◌%◌, ◌^◌}
use libvmod_cachetag.Base.{Bool, not, ◌&&◌, ◌||◌, Option, none, some, List, [], ◌∷◌}
use libvmod_cachetag.Base.{ltb, leb, ◌==◌, if◌then◌else◌}
use libvmod_cachetag.Base.{length, get_or, set}
use libvmod_cachetag.Base.{and_then, Result, ok, err, einval, enomem, efbig}
use libvmod_cachetag.PurgeMap.Table.{Entry, Table, is_live, table_new, table_insert_existing}
use libvmod_cachetag.PurgeMap.Map.{PurgeMap, initial_slots, size_max, double_until, overloaded}

abbrev pub entry_newest : Entry → ℕ
entry_newest e = if ltb e.soft_seq e.hard_seq then e.hard_seq else e.soft_seq

-- The scans of `purgemap_select`; `none` is a read outside of the array.
unfoldable pub scan_up : ℕ → List ℕ → ℕ → ℕ → Option ℕ
scan_up zero values pivot i = none
scan_up (suc fuel) values pivot i =
    let further = scan_up fuel values pivot (i + 1) in
    if ltb (get_or values i 0) pivot then further else some i

unfoldable pub scan_down : List ℕ → ℕ → ℕ → Option ℕ
scan_down values pivot zero = if ltb pivot (get_or values 0 0) then none else some 0
scan_down values pivot (suc j) =
    let further = scan_down values pivot j in
    if ltb pivot (get_or values (suc j) 0) then further else some (suc j)

-- The inner loop: the array and the last `j`, which a swap finds above `i`.
unfoldable pub partition : ℕ → List ℕ → ℕ → ℕ → ℕ → Option (List ℕ × ℕ)
partition zero values pivot i j = none
partition (suc fuel) values pivot i j = and_then (scan_up (length values - i) values pivot i) λ up.
    and_then (scan_down values pivot j) λ down.
      let swapped : List ℕ = set (set values up (get_or values down 0)) down (get_or values up 0) in
      let further = partition fuel swapped pivot (up + 1) (down - 1) in
      if leb down up then some (values, down) else further

unfoldable pub select : ℕ → List ℕ → ℕ → ℕ → ℕ → Option ℕ
select zero values left right kth = none
select (suc fuel) values left right kth =
    let pivot = get_or values (left + (right - left) / 2) 0 in
    let narrowed = and_then (partition (length values) values pivot left right) λ parted.
      let below = select fuel parted.0 left parted.1 kth in
      let above = select fuel parted.0 (parted.1 + 1) right kth in
      if leb kth parted.1 then below else above in
    if left == right then some (get_or values left 0) else narrowed

-- The first loop of `prune_locked`.
unfoldable pub newest_of : List Entry → List ℕ
newest_of [] = []
newest_of (e ∷ es) = if is_live e.fold then entry_newest e ∷ newest_of es else newest_of es

unfoldable pub count_upto : ℕ → List ℕ → ℕ
count_upto cutoff [] = 0
count_upto cutoff (n ∷ newest) =
    if leb n cutoff then suc (count_upto cutoff newest) else count_upto cutoff newest

pub record Pruning : Type 0 where
  pub replacement : Table
  pub hard_floor : ℕ
  pub soft_floor : ℕ
  pub pruned : ℕ

-- One round of the last loop.
abbrev pub prune_entry : ℕ → Entry → Pruning → Pruning
prune_entry cutoff e p =
    if leb (entry_newest e) cutoff
    then (record p {
      hard_floor = if ltb p.hard_floor e.hard_seq then e.hard_seq else p.hard_floor;
      soft_floor = if ltb p.soft_floor e.soft_seq then e.soft_seq else p.soft_floor;
      pruned = p.pruned + 1;
    })
    else record p { replacement = table_insert_existing p.replacement e }

unfoldable pub prune_entries : ℕ → List Entry → Pruning → Pruning
prune_entries cutoff [] p = p
prune_entries cutoff (e ∷ es) p =
    prune_entries cutoff es (if is_live e.fold then prune_entry cutoff e p else p)

abbrev pub prune_target : ℕ → ℕ
prune_target limit =
    let target = limit * 75 % 2 ^ 64 / 100 in if leb limit target then limit - 1 else target

-- From the cutoff on: the new map and how many entries went to the floors.
abbrev pub prune_at : PurgeMap → Table → Bool → ℕ → List ℕ → ℕ → Result (PurgeMap × ℕ)
prune_at pm tbl alloc need newest cutoff =
    let actual = count_upto cutoff newest in
    let kept : ℕ = length newest - actual in
    let nslot = double_until 64 (λ n. not (overloaded kept n)) initial_slots in
    let p = prune_entries cutoff tbl (record {
      replacement = table_new nslot;
      hard_floor = pm.hard_floor;
      soft_floor = pm.soft_floor;
      pruned = 0;
    }) in
    if ltb actual need || ltb (length newest) actual
    then err einval
    else if not alloc
    then err enomem
    else if not (p.pruned == actual)
    then err einval
    else ok (
      record pm {
        table = some p.replacement;
        nentry = kept;
        ntombstone = 0;
        hard_floor = p.hard_floor;
        soft_floor = p.soft_floor;
      },
      p.pruned,
    )

-- `none` means that `select` does not end.
unfoldable pub prune_in : Option Table → PurgeMap → ℕ → Bool → Option (Result (PurgeMap × ℕ))
prune_in none pm limit alloc = some (ok (pm, 0))
prune_in (some tbl) pm limit alloc =
    let need = pm.nentry - prune_target limit in
    let newest = newest_of tbl in
    if need == 0
    then some (ok (pm, 0))
    else if ltb (size_max / 8) pm.nentry
    then some (err efbig)
    else if not alloc
    then some (err enomem)
    else if not (length newest == pm.nentry) || ltb (length newest) need
    then some (err einval)
    else and_then (select (length newest) newest 0 (length newest - 1) (need - 1))
        λ cutoff. some (prune_at pm tbl alloc need newest cutoff)

-- A limit of 0 is no limit.
unfoldable pub prune : PurgeMap → ℕ → Bool → Option (Result (PurgeMap × ℕ))
prune pm limit alloc =
    if limit == 0 || leb pm.nentry limit
    then some (ok (pm, 0))
    else prune_in pm.table pm limit alloc

-- What the rollback of a prune restores, from the map as it was.
abbrev pub prune_rollback : PurgeMap → PurgeMap → PurgeMap
prune_rollback old pm = record pm {
  table = old.table;
  nentry = old.nentry;
  ntombstone = old.ntombstone;
  hard_floor = old.hard_floor;
  soft_floor = old.soft_floor;
}

-- The entry without the purges up to `cutoff`, if that leaves any.
abbrev pub past_cutoff : ℕ → ℕ → ℕ
past_cutoff cutoff seq = if leb seq cutoff then 0 else seq

abbrev pub survives_cutoff : Entry → ℕ → Option Entry
survives_cutoff e cutoff =
    let hard_seq = past_cutoff cutoff e.hard_seq in
    let soft_seq = past_cutoff cutoff e.soft_seq in
    if not (is_live e.fold) || (hard_seq == 0 && soft_seq == 0)
    then none
    else some (record e { hard_seq = hard_seq; soft_seq = soft_seq })

unfoldable pub survivors : ℕ → List Entry → List Entry
survivors cutoff [] = []
survivors cutoff (e ∷ es) = elim (survives_cutoff e cutoff) [
  | none ↦ survivors cutoff es
  | some e' ↦ e' ∷ survivors cutoff es
]

unfoldable pub insert_all : List Entry → Table → Table
insert_all [] tbl = tbl
insert_all (e ∷ es) tbl = insert_all es (table_insert_existing tbl e)

-- `cachetag_purgemap_reclaim_locked`, when a sweep has shown that no object is older than `cutoff`.
unfoldable pub reclaim : PurgeMap → ℕ → Bool → Result PurgeMap
unfolding survivors insert_all double_until table_new
reclaim pm cutoff alloc =
    let kept = survivors cutoff (elim pm.table [ none ↦ [] | some tbl ↦ tbl ]) in
    let nslot = double_until 64 (λ n. not (overloaded (length kept) n)) initial_slots in
    if not (length kept == 0) && not alloc
    then err enomem
    else ok (record pm {
      table = if length kept == 0 then none else some (insert_all kept (table_new nslot));
      nentry = length kept;
      ntombstone = 0;
      hard_floor = past_cutoff cutoff pm.hard_floor;
      soft_floor = past_cutoff cutoff pm.soft_floor;
    })
