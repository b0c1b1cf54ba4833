-- ===== src/Tests/Pruned.antt =====
-- Pruning at concrete inputs (src/vmod_cachetag_purgemap.c).
use libvmod_cachetag.Base.{ℕ, ◌≤◌, ◌≡◌, ap, ◌∙◌, refl}
use libvmod_cachetag.Base.{true, none, some, List, [], ◌∷◌, arith, Result, ok, replicate}
use libvmod_cachetag.Base.{set, if◌then◌else◌, ◌==◌}
use libvmod_cachetag.PurgeMap.Table.{Entry, Table, table_new, find, find_loop, home, next, zeroed}
use libvmod_cachetag.PurgeMap.Table.View.{IsProbed, IsProbed-set_new, view-set_new, count, view}
use libvmod_cachetag.PurgeMap.Map.{PurgeMap, double_until}
use libvmod_cachetag.PurgeMap.Probe.{probe_reader_guarded}
use libvmod_cachetag.PurgeMap.Well.{IsWell, view-table_new, table_new-IsProbed}
use libvmod_cachetag.PurgeMap.Prune.{
  select, prune, scan_up, scan_down, partition, prune_in, newest_of, count_upto, prune_entries,
}
use libvmod_cachetag.PurgeMap.Prune.Select.{HasRank, select_lem}
use libvmod_cachetag.PurgeMap.Prune.Keeps.{PruneAnswer, prune-Prunes}
use libvmod_cachetag.PurgeMap.Prune.Verdicts.{strictness, prune-verdicts}
use libvmod_cachetag.Base.{◌+◌, ◌*◌, ◌%◌, ◌/◌, ◌^◌, ◌<◌, ◌⊎◌}
use libvmod_cachetag.PurgeMap.Prune.Rebuilt.{older}

select_lem_example :
    (r : ℕ) × (select 3 (9 ∷ 4 ∷ 6 ∷ []) 0 2 1 ≡ some r) × HasRank (9 ∷ 4 ∷ 6 ∷ []) 1 r
select_lem_example = select_lem (9 ∷ 4 ∷ 6 ∷ []) 1 (omega arith)

-- Two purges, of fold 5 at sequence 1 and of fold 7 at sequence 2.
abbrev first : Entry
first = record { fold = 5; hard_seq = 1; soft_seq = 0 }

abbrev second : Entry
second = record { fold = 7; hard_seq = 0; soft_seq = 2 }

abbrev empty : Table
empty = replicate 16 zeroed

empty-IsProbed : IsProbed empty
empty-IsProbed = unfold table_new in table_new-IsProbed 16 (4, refl)

empty-view : (g : ℕ) → view empty g ≡ none
unfolding table_new
empty-view g = view-table_new 16 (4, refl) g

abbrev one_purge : Table
one_purge = set empty 5 first

one_purge-IsProbed : IsProbed one_purge
unfolding find find_loop home next
one_purge-IsProbed = IsProbed-set_new empty empty-IsProbed 5 first (omega arith) refl refl refl refl

abbrev two_purges : Table
two_purges = set one_purge 7 second

two_purges-IsProbed : IsProbed two_purges
unfolding find find_loop home next
two_purges-IsProbed =
    IsProbed-set_new one_purge one_purge-IsProbed 7 second (omega arith) refl refl refl refl

two_purges-view :
    (g : ℕ)
    → view two_purges g ≡ (if g == 7 then some (0, 2) else if g == 5 then some (1, 0) else none)
unfolding find find_loop home next
two_purges-view g =
    view-set_new one_purge one_purge-IsProbed 7 second (omega arith) refl refl refl refl g
    ∙ ap (λ o. if g == 7 then some (0, 2) else o)
        (view-set_new empty empty-IsProbed 5 first (omega arith) refl refl refl refl g
          ∙ ap (λ o. if g == 5 then some (1, 0) else o) (empty-view g))

abbrev pub purged_twice : PurgeMap
purged_twice = record {
  table = some two_purges;
  nentry = 2;
  ntombstone = 0;
  seq = 2;
  memo_seq = 2;
  hard_floor = 0;
  soft_floor = 0;
}

pub purged_twice-IsWell : IsWell purged_twice
unfolding count
purged_twice-IsWell = record {
  tabled = record {
    probed = two_purges-IsProbed;
    live = refl;
    tombstones = refl;
    size = omega arith;
    load = omega arith;
  };
  clean = refl;
  hard_past = λ g. ground (arith, two_purges-view g);
  soft_past = λ g. ground (arith, two_purges-view g);
  hard_floor_past = omega arith;
  soft_floor_past = omega arith;
  memo_past = omega arith;
}

prune-Prunes_example :
    (r : Result (PurgeMap × ℕ)) × (prune purged_twice 1 true ≡ some r)
    × PruneAnswer purged_twice 1 true r
prune-Prunes_example = prune-Prunes purged_twice 1 true purged_twice-IsWell

-- Both purges go to the floors.
abbrev forgotten : PurgeMap
forgotten = record {
  table = some empty;
  nentry = 0;
  ntombstone = 0;
  seq = 2;
  memo_seq = 2;
  hard_floor = 1;
  soft_floor = 2;
}

both_forgotten : prune purged_twice 1 true ≡ some (ok (forgotten, 2))
unfolding prune prune_in newest_of select partition scan_up scan_down count_upto prune_entries
    double_until table_new
both_forgotten = refl

prune-verdicts_example :
    ((reg_seq : ℕ) (folds : List ℕ)
      → strictness (probe_reader_guarded purged_twice reg_seq folds)
        ≤ strictness (probe_reader_guarded forgotten reg_seq folds))
    × ((cutoff : ℕ) × ((cutoff ≡ 0) ⊎ (older (some two_purges) cutoff + 1 * 75 % 2 ^ 64 / 100 < 2))
        × ((reg_seq : ℕ) (folds : List ℕ)
            → cutoff ≤ reg_seq
            → probe_reader_guarded forgotten reg_seq folds
              ≡ probe_reader_guarded purged_twice reg_seq folds))
prune-verdicts_example =
    prune-verdicts purged_twice forgotten 1 2 true purged_twice-IsWell both_forgotten
