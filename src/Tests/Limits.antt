-- ===== src/Tests/Limits.antt =====
-- A purge with a limited history, at a concrete input (src/vmod_cachetag_purgemap.c).
use libvmod_cachetag.Base.{ℕ, ◌≡◌, refl, Option, none, some, [], ◌∷◌, arith, ok}
use libvmod_cachetag.PurgeMap.Table.{home, table_new}
use libvmod_cachetag.PurgeMap.Map.{PurgeMap, hard, double_until}
use libvmod_cachetag.PurgeMap.Probe.{probe_hard, probe_reader_guarded, fold_digest}
use libvmod_cachetag.PurgeMap.Prune.{
  prune, prune_in, newest_of, select, partition, scan_up, scan_down, count_upto, prune_entries,
}
use libvmod_cachetag.Index.Purge.{Index, Reply, accepted, purge}
use libvmod_cachetag.Index.Limited.{Settles}
use libvmod_cachetag.Index.Limits.{purge-Settles, probe-purge}
use libvmod_cachetag.Tests.Pruned.{purged_twice, purged_twice-IsWell}
use libvmod_cachetag.Tests.History.{counting, plenty, blog}

-- Two purges of a history that may hold one.
abbrev limited : Index ℕ
limited = record { purgemap = some purged_twice; journal = 0; history_max = 1 }

purge-Settles_example :
    (out : Index ℕ × Reply) × (purge counting limited plenty (ok blog) hard ≡ some out)
    × Settles ℕ purged_twice (fold_digest 6 3) hard 1 out.0 out.1
purge-Settles_example =
    purge-Settles counting limited plenty purged_twice blog hard purged_twice-IsWell refl

abbrev index_of : Option (Index ℕ × Reply) → Index ℕ
index_of none = limited
index_of (some r) = r.0

abbrev after : Index ℕ
after = index_of (purge counting limited plenty (ok blog) hard)

purged_again : purge counting limited plenty (ok blog) hard ≡ some (after, accepted)
unfolding purge home fold_digest prune prune_in newest_of select partition scan_up scan_down
    count_upto prune_entries double_until table_new
purged_again = refl

probe-purge_example :
    (pm' : PurgeMap) × (after.purgemap ≡ some pm')
    × (probe_reader_guarded pm' 1 (9 ∷ 5 ∷ []) ≡ probe_hard)
unfolding fold_digest
probe-purge_example =
    probe-purge counting limited plenty purged_twice blog after 1 (9 ∷ 5 ∷ []) purged_twice-IsWell
      refl purged_again (omega arith) refl
