-- ===== src/PurgeMap/Probe.antt =====
-- The readers of the purge map (src/vmod_cachetag_purgemap.c). The reader gate, which only keeps a
-- replaced table from being freed under a reader, is not modelled.
use libvmod_cachetag.Base.{ℕ, ◌-◌, ◌^◌}
use libvmod_cachetag.Base.{Bool, true, false, not, ◌&&◌, ◌||◌, Option, none, some, List, [], ◌∷◌}
use libvmod_cachetag.Base.{ltb, ◌==◌, if◌then◌else◌}
use libvmod_cachetag.Base.{length}
use libvmod_cachetag.Base.{map, Result, ok, err, einval, enomem, bit_xor}
use libvmod_cachetag.PurgeMap.Table.{Table, slot, find, Find, at, absent, endless}
use libvmod_cachetag.PurgeMap.Map.{PurgeMap, Mode, hard, soft}

pub data ProbeResult : Type 0 where
  probe_none probe_soft probe_hard : ProbeResult

-- The verdict at the slot of the fold.
abbrev pub verdict : ℕ → ℕ × ℕ → ProbeResult
verdict reg_seq (hard_seq, soft_seq) =
    if ltb reg_seq hard_seq
    then probe_hard
    else if ltb reg_seq soft_seq
    then probe_soft
    else probe_none

abbrev found_verdict : Table → ℕ → Find → ProbeResult
found_verdict tbl reg_seq (at pos) =
    verdict reg_seq ((slot tbl pos).hard_seq, (slot tbl pos).soft_seq)
found_verdict tbl reg_seq absent = probe_none
found_verdict tbl reg_seq endless = probe_none

unfoldable pub probe_one : Option Table → ℕ → ℕ → ProbeResult
probe_one none reg_seq fold = probe_none
probe_one (some tbl) reg_seq fold = found_verdict tbl reg_seq (find tbl fold)

-- The end of a probe, after the folds: the floors count as purges of every fold.
abbrev pub floor_verdict : PurgeMap → ℕ → Bool → ProbeResult
floor_verdict pm reg_seq soft_seen =
    if ltb reg_seq pm.hard_floor
    then probe_hard
    else if soft_seen || ltb reg_seq pm.soft_floor
    then probe_soft
    else probe_none

-- `soft` is the flag that a soft purge was seen.
unfoldable pub probe_folds : PurgeMap → ℕ → List ℕ → Bool → ProbeResult
probe_folds pm reg_seq [] soft_seen = floor_verdict pm reg_seq soft_seen
probe_folds pm reg_seq (fold ∷ folds) soft_seen = elim (probe_one pm.table reg_seq fold) [
  | probe_hard ↦ probe_hard
  | probe_soft ↦ probe_folds pm reg_seq folds true
  | probe_none ↦ probe_folds pm reg_seq folds soft_seen
]

-- the test that ends a probe at once
abbrev pub has_history : PurgeMap → Bool
has_history pm = not (pm.nentry == 0 && (pm.hard_floor == 0 && pm.soft_floor == 0))

unfoldable pub probe_reader_guarded : PurgeMap → ℕ → List ℕ → ProbeResult
unfolding probe_folds probe_one
probe_reader_guarded pm reg_seq folds =
    if has_history pm then probe_folds pm reg_seq folds false else probe_none

-- `hi ^ lo`, off the two values that mark empty and dead slots
unfoldable pub fold_digest : ℕ → ℕ → ℕ
fold_digest hi lo = let fold = bit_xor hi lo in if fold == 0 || fold == 2 ^ 64 - 1 then 1 else fold

pub record Snapshot : Type 0 where
  pub digest_hi : ℕ
  pub digest_lo : ℕ
  pub reg_seq : ℕ

abbrev pub inline_keys : ℕ
inline_keys = 4

same_reg_seq : ℕ → List Snapshot → Bool
same_reg_seq reg_seq [] = true
same_reg_seq reg_seq (k ∷ keys) = k.reg_seq == reg_seq && same_reg_seq reg_seq keys

abbrev mode_of : ProbeResult → Option Mode
mode_of probe_none = none
mode_of probe_soft = some soft
mode_of probe_hard = some hard

-- `none` as the mode is the source's -1.
unfoldable pub probe_snapshots : Option PurgeMap → List Snapshot → Bool → Result (Option Mode)
unfolding probe_reader_guarded fold_digest same_reg_seq
probe_snapshots pm [] alloc = ok none
probe_snapshots none (k ∷ keys) alloc = ok none
probe_snapshots (some pm) (k ∷ keys) alloc =
    if not (same_reg_seq k.reg_seq keys)
    then err einval
    else if ltb inline_keys (length (k ∷ keys)) && not alloc
    then err enomem
    else ok (
        mode_of (
          probe_reader_guarded pm k.reg_seq
            (map (λ s. fold_digest s.digest_hi s.digest_lo) (k ∷ keys))))

newest_found : Table → Find → ℕ
newest_found tbl (at pos) =
    if ltb (slot tbl pos).soft_seq (slot tbl pos).hard_seq
    then (slot tbl pos).hard_seq
    else (slot tbl pos).soft_seq
newest_found tbl _ = 0

-- `cachetag_generation`, past the digest of the key
pub generation : Option PurgeMap → ℕ → ℕ
unfolding newest_found
generation none fold = 0
generation (some pm) fold = elim pm.table [ none ↦ 0 | some tbl ↦ newest_found tbl (find tbl fold) ]
